-- ===== src/Controller/DerpMap/Tests.antt =====
-- Runs of the DERP map.
use linkbit.Prelude.{
  ℕ, refl, inl, String, IsIn, Bool, Option, none, some, List, [], ◌∷◌, ap, inr, pos, negsuc, false,
}
use linkbit.Models.{RelayNode}
use linkbit.Prelude.Assoc.{Assoc, lookup, delete, put}
use linkbit.Prelude.Text.{trim_space}
use linkbit.Net.{atoi}
use linkbit.Controller.DerpMap.{
  Url, DerpRegion, DerpNode, DerpLibrary, stable_region_id, regions_by_code, regions_by_id,
  build_derp_map, relay_to_derp_node, add_node, put_region, sanitize_derp_name, name_chars,
}
use linkbit.Controller.DerpMap.Collisions.{regions_collide}

abbrev same : String → String
same s = s

abbrev parsed : String → Option Url
parsed s =
    some
      (record { host = "r.example:8443"; hostname = "r.example"; port = "8443"; scheme = "https" })

abbrev no_ip : String → Option Bool
no_ip s = none

abbrev relay : RelayNode ℕ
relay = record {
  id = "relay-1";
  name = "Relay";
  region = "us";
  public_url = "https://r.example:8443";
  ipv4 = "";
  ipv6 = "";
  status = "healthy";
  load = 0;
  last_seen_at = 2;
  registered = 1;
}

abbrev us : String
us = "us"

-- Ranging in the order of the codes.
abbrev values : Assoc DerpRegion → List DerpRegion
values [] = []
values ((code, r) ∷ regions) = r ∷ values regions

abbrev library : DerpLibrary
library = record { to_lower = same; parse_url = parsed; ip_of = no_ip; order = values }

values-IsIn :
    (regions : Assoc DerpRegion) (r : DerpRegion)
    → IsIn r (values regions)
    → (code : String) × IsIn (code, r) regions
values-IsIn [] r i = absurd i
values-IsIn ((code, x) ∷ regions) r (inl e) = (code, inl (ap (λ y. (code, y)) e))
values-IsIn ((code, x) ∷ regions) r (inr i) =
    let (found, j) = values-IsIn regions r i in (found, inr j)

abbrev relays : List (RelayNode ℕ)
relays = relay ∷ record relay { id = "relay-2"; region = "eu-west" } ∷ []

abbrev node : String → DerpNode
node name = record {
  name = name;
  region_id = 989;
  host_name = "r.example";
  derp_port = pos 8443;
  stun_port = negsuc 0;
  ipv4 = "";
  ipv6 = "";
  insecure_for_tests = false;
}

abbrev region : String → String → DerpRegion
region code name = record { region_id = 989; region_code = code; nodes = node name ∷ [] }

-- Both regions have a relay, and that of eu-west is lost.
regions_collide_example :
    ¬ IsIn (region "eu-west" "relay-2") (build_derp_map library relays).regions
unfolding build_derp_map regions_by_code regions_by_id relay_to_derp_node add_node put_region
    sanitize_derp_name name_chars stable_region_id trim_space lookup delete put atoi
regions_collide_example =
    regions_collide library relays (region "us" "relay-1") (region "eu-west" "relay-2") values-IsIn
      refl refl (inl refl)
