-- ===== src/Controller/DerpMap/Laws.antt =====
-- The nodes of the DERP map.
use linkbit.Prelude.{
  ℕ, ◌≡◌, ◌≢◌, ◌≤◌, refl, inl, inr, String, Bool, true, not, ◌||◌, Option, none, some, List, [],
  ◌∷◌, arith, ◌==◌, eq_iff, if◌then◌else◌, Bool-cases,
}
use linkbit.Prelude.Assoc.{Assoc, lookup}
use linkbit.Prelude.Text.{trim_space}
use linkbit.Models.{RelayNode, relay_status_unhealthy}
use linkbit.Controller.DerpMap.{
  Url, DerpNode, DerpRegion, stable_region_id, is_name_char, name_chars, sanitize_derp_name,
  relay_to_derp_node, region_code_of,
}

-- Every region id is in the range that is reserved for the network's own regions.
pub stable_region_id-range :
    (region : String) → (900 ≤ stable_region_id region) × (stable_region_id region ≤ 999)
unfolding stable_region_id
stable_region_id-range region = (omega arith, omega arith)

-- Only name characters.
abbrev pub IsName : String → Type 0
IsName String.[] = Unit
IsName (String.◌∷◌ c s) = (is_name_char c ≡ true) × IsName s

name_chars-IsName : (s : String) → IsName (name_chars s)
unfolding name_chars
name_chars-IsName String.[] = tt
name_chars-IsName (String.◌∷◌ c s) = elim (Bool-cases (is_name_char c)) [
  | inl e ↦ rw (e, name_chars) (e, name_chars-IsName s)
  | inr e ↦ rw (e, name_chars) (name_chars-IsName s)
]

abbrev fallback : String
fallback = "relay"

relay-IsName : (fallback ≢ "") × IsName fallback
relay-IsName =
    ((λ e. ground (arith, (eq_iff "relay" "").1 e)), (refl, (refl, (refl, (refl, (refl, tt))))))

-- The name of a node is never empty, and has no characters but small letters, digits and dashes.
pub sanitize-IsName :
    (to_lower : String → String) (value : String)
    → (sanitize_derp_name to_lower value ≢ "") × IsName (sanitize_derp_name to_lower value)
unfolding sanitize_derp_name
sanitize-IsName to_lower value =
    let trimmed = trim_space (to_lower value) in
    elim (Bool-cases (trimmed == "")) [
      | inl e ↦ rw (e, sanitize_derp_name) relay-IsName
      | inr e ↦ elim (Bool-cases (name_chars trimmed == "")) [
        | inl f ↦ rw (e, sanitize_derp_name) (rw (f, sanitize_derp_name) relay-IsName)
        | inr f ↦
            rw (e, sanitize_derp_name)
              (rw (f, sanitize_derp_name)
                (ground (arith, f, eq_iff (name_chars trimmed) ""), name_chars-IsName trimmed))
      ]
    ]

module _ (to_lower : String → String) (parse_url : String → Option Url)
    (ip_of : String → Option Bool) where
  -- The nodes of a region, by their relays alone.
  abbrev pub nodes_of : String → List (RelayNode ℕ) → List DerpNode
  nodes_of key [] = []
  nodes_of key (relay ∷ relays) =
      let rest = nodes_of key relays in
      if (relay.status == relay_status_unhealthy) || not (region_code_of relay == key)
      then rest
      else elim (relay_to_derp_node to_lower parse_url ip_of relay) [
        | none ↦ rest
        | some node ↦ record node { region_id = stable_region_id key } ∷ rest
      ]

  abbrev nodes_in : Option DerpRegion → List DerpNode
  nodes_in none = []
  nodes_in (some region) = region.nodes

  abbrev pub nodes_at : String → Assoc DerpRegion → List DerpNode
  nodes_at key regions = nodes_in (lookup key regions)
