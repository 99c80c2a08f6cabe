-- ===== src/Agent/Client/Tests.antt =====
-- Calls of the client.
use linkbit.Prelude.{ℕ, ◌≡◌, refl, String, Bool, true, none, some}
use linkbit.Agent.Outcome.{failure}
use linkbit.Agent.Http.{Wire, bad_status, fetch}
use linkbit.Agent.Client.{
  HttpRegistrationClient, Decoders, new_http_registration_client, trim_slashes, register,
}
use linkbit.Agent.Sample.{sample_response}

abbrev any_url : String → Bool
any_url url = true

-- A controller that answers every request with the same status.
abbrev answers : ℕ → Wire (Unit {0}) (Unit {0})
answers status = record {
  new_request = any_url;
  send = λ q w. (some (record { status = status; body = tt }), w);
}

abbrev decoders : Decoders (Unit {0})
decoders = record {
  registration = λ body. some sample_response;
  device = λ body. none;
  config = λ body. none;
  session = λ body. none;
  sessions = λ body. none;
}

abbrev client : HttpRegistrationClient
client = record {
  controller_url = "http://c";
  public_key = "key";
  fingerprint = "lb-print";
  endpoint = "";
  device_id = "";
  device_token = "";
}

new_test : new_http_registration_client "http://c//" "key" "lb-print" "" ≡ client
unfolding new_http_registration_client trim_slashes
new_test = refl

refused_test :
    (register (answers 401) decoders client "lb_invite" "laptop" tt).0 ≡ failure (bad_status 401)
unfolding register fetch
refused_test = refl
