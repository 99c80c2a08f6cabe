-- ===== src/Controller/DerpMap.antt =====
-- internal/controller/derpmap.go: the map of relays that clients of the DERP network read. url.Parse
-- is a parameter (`parse_url`), and so are net.ParseIP (`ip_of`: none where the text is no address,
-- and else whether it is one of four bytes) and strings.ToLower. The hash of a region's code
-- works on the bytes of its UTF-8.
pub mod Laws
pub mod Collisions
mod Tests
use Prim.Native.Char.{Char, code}
use Prim.Native.Nat.{bit_xor}
use linkbit.Prelude.{
  ℕ, ℤ, pos, negsuc, ◌+◌, ◌*◌, ◌/◌, ◌%◌, ◌^◌, String, Bool, true, false, not, ◌&&◌, ◌||◌, Option,
  none, some, List, [], ◌∷◌, ◌++◌, leb, ltb, eqb, ◌==◌, if◌then◌else◌,
}
use linkbit.Prelude.Text.{trim_space}
use linkbit.Prelude.Assoc.{Assoc, lookup, put}
use linkbit.Models.{RelayNode, relay_status_unhealthy}
use linkbit.Net.{atoi}

-- The parts of a URL that are read: Host, Hostname(), Port() and Scheme.
pub record Url : Type 0 where
  pub host : String
  pub hostname : String
  pub port : String
  pub scheme : String

-- The fields of tailcfg.DERPNode that are set.
pub record DerpNode : Type 0 where
  pub name : String
  pub region_id : ℕ
  pub host_name : String
  pub derp_port : ℤ
  pub stun_port : ℤ
  pub ipv4 : String
  pub ipv6 : String
  pub insecure_for_tests : Bool

-- tailcfg.DERPRegion, whose name is its code.
pub record DerpRegion : Type 0 where
  pub region_id : ℕ
  pub region_code : String
  pub nodes : List DerpNode

-- The bytes of a character in UTF-8, which []byte gives.
abbrev utf8_bytes : ℕ → List ℕ
utf8_bytes c =
    if ltb c 128
    then c ∷ []
    else if ltb c 2048
    then (192 + c / 64) ∷ (128 + c % 64) ∷ []
    else if ltb c 65536
    then (224 + c / 4096) ∷ (128 + c / 64 % 64) ∷ (128 + c % 64) ∷ []
    else (240 + c / 262144) ∷ (128 + c / 4096 % 64) ∷ (128 + c / 64 % 64) ∷ (128 + c % 64) ∷ []

-- hash/fnv, 32-bit FNV-1a: exclusive or with the byte, then a product that wraps around.
unfoldable pub write_bytes : ℕ → List ℕ → ℕ
write_bytes hash [] = hash
write_bytes hash (b ∷ bs) = write_bytes ((bit_xor hash b * 16777619) % 2 ^ 32) bs

unfoldable pub sum32 : ℕ → String → ℕ
unfolding write_bytes
sum32 hash String.[] = hash
sum32 hash (String.◌∷◌ c s) = sum32 (write_bytes hash (utf8_bytes (code c))) s

unfoldable pub stable_region_id : String → ℕ
unfolding sum32
stable_region_id region = 900 + sum32 2166136261 region % 100

abbrev pub is_name_char : Char → Bool
is_name_char c =
    (leb b'a' (code c) && leb (code c) b'z')
    || (leb b'0' (code c) && leb (code c) b'9')
    || eqb (code c) b'-'

unfoldable pub name_chars : String → String
name_chars String.[] = String.[]
name_chars (String.◌∷◌ c s) =
    let rest = name_chars s in if is_name_char c then String.◌∷◌ c rest else rest

module _ (to_lower : String → String) where
  unfoldable pub sanitize_derp_name : String → String
  unfolding name_chars
  sanitize_derp_name value =
      let trimmed = trim_space (to_lower value) in
      if trimmed == ""
      then "relay"
      else if name_chars trimmed == ""
      then "relay"
      else name_chars trimmed

abbrev pub derp_port_of : Url → ℤ
derp_port_of url =
    if not (url.port == "")
    then elim (atoi url.port) [ none ↦ pos 443 | some port ↦ port ]
    else if url.scheme == "http"
    then pos 80
    else pos 443

abbrev pub region_code_of : RelayNode ℕ → String
region_code_of relay = if relay.region == "" then "default" else relay.region

-- The relay's node joins its region, which is made where it is not there.
unfoldable pub add_node : RelayNode ℕ → DerpNode → Assoc DerpRegion → Assoc DerpRegion
add_node relay node regions =
    let code = region_code_of relay in
    let id = stable_region_id code in
    let nodes : List DerpNode = elim (lookup code regions) [
      | none ↦ []
      | some region ↦ region.nodes
    ] in
    put code
      (record {
        region_id = id;
        region_code = code;
        nodes = nodes ++ record node { region_id = id } ∷ [];
      })
      regions

module _ (to_lower : String → String) (parse_url : String → Option Url)
    (ip_of : String → Option Bool) where
  -- The region's id is set by the caller.
  unfoldable pub relay_to_derp_node : RelayNode ℕ → Option DerpNode
  relay_to_derp_node relay = elim (parse_url relay.public_url) [
    | none ↦ none
    | some url ↦
        if (url.host == "") || (url.hostname == "")
        then none
        else some (record {
          name = sanitize_derp_name to_lower relay.id;
          region_id = 0;
          host_name = url.hostname;
          derp_port = derp_port_of url;
          stun_port = negsuc 0;
          ipv4 = elim (ip_of url.hostname) [
            | none ↦ relay.ipv4
            | some four ↦ if four then url.hostname else "none"
          ];
          ipv6 = elim (ip_of url.hostname) [
            | none ↦ relay.ipv6
            | some four ↦ if four then relay.ipv6 else url.hostname
          ];
          insecure_for_tests = url.scheme == "http";
        })
  ]

  -- The loop over the relays: regionsByCode.
  unfoldable pub regions_by_code : List (RelayNode ℕ) → Assoc DerpRegion → Assoc DerpRegion
  unfolding relay_to_derp_node add_node
  regions_by_code [] regions = regions
  regions_by_code (relay ∷ relays) regions =
      if relay.status == relay_status_unhealthy
      then regions_by_code relays regions
      else elim (relay_to_derp_node relay) [
        | none ↦ regions_by_code relays regions
        | some node ↦ regions_by_code relays (add_node relay node regions)
      ]

-- `regions[region.RegionID] = region`, over the regions in the order in which the map is ranged over,
-- which Go leaves open. A region replaces the one that has its id.
unfoldable pub put_region : DerpRegion → List DerpRegion → List DerpRegion
put_region region [] = region ∷ []
put_region region (r ∷ rs) =
    let rest = put_region region rs in
    if eqb r.region_id region.region_id then region ∷ rs else r ∷ rest

unfoldable pub regions_by_id : List DerpRegion → List DerpRegion → List DerpRegion
unfolding put_region
regions_by_id [] map = map
regions_by_id (region ∷ regions) map = regions_by_id regions (put_region region map)

-- The fields of tailcfg.DERPMap that are set.
pub record DerpMap : Type 0 where
  pub regions : List DerpRegion
  pub omit_default_regions : Bool

-- What the map stands on: strings.ToLower, url.Parse, net.ParseIP, and `order`, the order in which Go
-- ranges over the regions of the codes.
pub record DerpLibrary : Type 0 where
  pub to_lower : String → String
  pub parse_url : String → Option Url
  pub ip_of : String → Option Bool
  pub order : Assoc DerpRegion → List DerpRegion

unfoldable pub build_derp_map : DerpLibrary → List (RelayNode ℕ) → DerpMap
unfolding regions_by_code regions_by_id
build_derp_map library relays = record {
  regions =
      regions_by_id
        (library.order (regions_by_code library.to_lower library.parse_url library.ip_of relays []))
        [];
  omit_default_regions = true;
}
