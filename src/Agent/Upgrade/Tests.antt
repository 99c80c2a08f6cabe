-- ===== src/Agent/Upgrade/Tests.antt =====
-- Runs of the upgrade.
use linkbit.Prelude.{◌≡◌, refl, String, none, List, [], ◌∷◌, arith}
use linkbit.Net.{contains_char, split_host_port, split_last_colon, strip_bracket}
use linkbit.Agent.Outcome.{value}
use linkbit.Agent.Upgrade.{
  dial_address, read_answer, read_string, contains_text, skip_headers, BufferedConn,
}
use linkbit.Agent.Upgrade.Stream.{line_before, headed, read_answer-headed}

-- What hijackRelayStream of internal/controller/tcp_relay.go writes before the relay's bytes.
abbrev headers : List String
headers = "Connection: Upgrade" ∷ "Upgrade: linkbit-relay" ∷ []

read_answer-headed_example :
    read_answer (line_before "HTTP/1.1 101 Switching Protocols" (headed headers "SSH-2.0"))
    ≡ value "SSH-2.0"
unfolding contains_char contains_text
read_answer-headed_example =
    read_answer-headed "HTTP/1.1 101 Switching Protocols" headers "SSH-2.0" refl refl
      ((refl, omega arith), ((refl, omega arith), tt))

abbrev conn : BufferedConn
conn = record { buffered = "SSH"; conn = "-2.0" }

-- An IPv6 host without a port is dialled without one, which net.Dial refuses.
ipv6_test : split_host_port (dial_address "https" "[2001:db8::1]") ≡ none
unfolding dial_address contains_char split_host_port split_last_colon strip_bracket
ipv6_test = refl

-- The status is not read as a number: any 101 in the line is taken for an upgrade.
status_test : read_answer (line_before "HTTP/1.1 500 after 101 ms" (headed [] "x")) ≡ value "x"
unfolding read_answer read_string contains_text skip_headers
status_test = refl
