-- ===== src/Controller/DerpMap/Collisions.antt =====
-- Regions whose codes have one id.
use mathlib.Core.Path.{subst}
use linkbit.Prelude.{
  ℕ, ◌≡◌, ◌≢◌, refl, sym, ap, ◌∙◌, inr, Bool, true, false, List, [], ◌∷◌, arith, any, IsIn, eq_iff,
  eqb, Bool-cases, Option-cases, All, String, ◌==◌, inl,
}
use linkbit.Prelude.Assoc.{Assoc, All-put}
use linkbit.Models.{RelayNode, relay_status_unhealthy}
use linkbit.Controller.DerpMap.{
  DerpRegion, DerpNode, DerpLibrary, put_region, regions_by_id, regions_by_code, add_node,
  region_code_of, relay_to_derp_node, stable_region_id, build_derp_map,
}

abbrev has_id : ℕ → List DerpRegion → Bool
has_id id = any (λ (r : DerpRegion). eqb r.region_id id)

abbrev OneEach : List DerpRegion → Type 0
OneEach [] = Unit
OneEach (r ∷ rs) = (has_id r.region_id rs ≡ false) × OneEach rs

has_id-put_region :
    (id : ℕ) (r : DerpRegion) (rs : List DerpRegion)
    → has_id id rs ≡ false
    → eqb r.region_id id ≡ false
    → has_id id (put_region r rs) ≡ false
unfolding put_region
has_id-put_region id r [] h n = ground arith
has_id-put_region id r (x ∷ rs) h n = ground (arith, has_id-put_region id r rs)

put_region-OneEach :
    (r : DerpRegion) (rs : List DerpRegion) → OneEach rs → OneEach (put_region r rs)
unfolding put_region
put_region-OneEach r [] o = (refl, tt)
put_region-OneEach r (x ∷ rs) (new, o) = elim (Bool-cases (eqb x.region_id r.region_id)) [
  | inl e ↦ rw (e, put_region) (ground arith, o)
  | inr e ↦
      rw (e, put_region)
        (has_id-put_region x.region_id r rs new (ground arith), put_region-OneEach r rs o)
]

regions_by_id-OneEach : (rs map : List DerpRegion) → OneEach map → OneEach (regions_by_id rs map)
unfolding regions_by_id
regions_by_id-OneEach [] map o = o
regions_by_id-OneEach (r ∷ rs) map o =
    regions_by_id-OneEach rs (put_region r map) (put_region-OneEach r map o)

listed-has_id : (r : DerpRegion) (rs : List DerpRegion) → IsIn r rs → has_id r.region_id rs ≡ true
listed-has_id r [] i = absurd i
listed-has_id r (x ∷ rs) (inl e) = ground (arith, ap (λ (y : DerpRegion). y.region_id) e)
listed-has_id r (x ∷ rs) (inr i) = ground (arith, listed-has_id r rs i)

one_of_id :
    (rs : List DerpRegion) (a b : DerpRegion)
    → OneEach rs
    → IsIn a rs
    → IsIn b rs
    → a.region_id ≡ b.region_id
    → a ≡ b
one_of_id [] a b o i j e = absurd i
one_of_id (x ∷ rs) a b o (inl p) (inl q) e = p ∙ sym q
one_of_id (x ∷ rs) a b (new, o) (inl p) (inr j) e =
    absurd (ground (arith, listed-has_id b rs j, ap (λ (y : DerpRegion). y.region_id) p))
one_of_id (x ∷ rs) a b (new, o) (inr i) (inl q) e =
    absurd (ground (arith, listed-has_id a rs i, ap (λ (y : DerpRegion). y.region_id) q))
one_of_id (x ∷ rs) a b (new, o) (inr i) (inr j) e = one_of_id rs a b o i j e

us_is_not_eu : ◌≢◌ {A = String} "us" "eu-west"
us_is_not_eu e = ground (arith, (eq_iff "us" "eu-west").1 e)

HasOwnId : DerpRegion → Type 0
HasOwnId r = r.region_id ≡ stable_region_id r.region_code

add_node-HasOwnId :
    (relay : RelayNode ℕ) (node : DerpNode) (regions : Assoc DerpRegion)
    → All (λ e. HasOwnId e.1) regions
    → All (λ e. HasOwnId e.1) (add_node relay node regions)
unfolding add_node HasOwnId
add_node-HasOwnId relay node regions h =
    All-put (λ e. HasOwnId e.1) (region_code_of relay) _ regions refl h

module _ (library : DerpLibrary) where
  codes-HasOwnId :
      (relays : List (RelayNode ℕ)) (regions : Assoc DerpRegion)
      → All (λ e. HasOwnId e.1) regions
      → All
          (λ e. HasOwnId e.1)
          (regions_by_code library.to_lower library.parse_url library.ip_of relays regions)
  unfolding regions_by_code
  codes-HasOwnId [] regions h = h
  codes-HasOwnId (relay ∷ relays) regions h =
      elim (Bool-cases (relay.status == relay_status_unhealthy)) [
        | inl e ↦ rw (e, regions_by_code) (codes-HasOwnId relays regions h)
        | inr e ↦
            elim (Option-cases
              (relay_to_derp_node library.to_lower library.parse_url library.ip_of relay)) [
                | inl n ↦ rw (e, n, regions_by_code) (codes-HasOwnId relays regions h)
                | inr (node, n) ↦
                    rw (e, n, regions_by_code)
                      (codes-HasOwnId relays (add_node relay node regions)
                        (add_node-HasOwnId relay node regions h))
              ]
      ]

put_region-HasOwnId :
    (r : DerpRegion) (rs : List DerpRegion)
    → HasOwnId r
    → All HasOwnId rs
    → All HasOwnId (put_region r rs)
unfolding put_region
put_region-HasOwnId r [] h o = (h, tt)
put_region-HasOwnId r (x ∷ rs) h (o, os) = elim (Bool-cases (eqb x.region_id r.region_id)) [
  | inl e ↦ rw (e, put_region) (h, os)
  | inr e ↦ rw (e, put_region) (o, put_region-HasOwnId r rs h os)
]

regions_by_id-HasOwnId :
    (rs map : List DerpRegion)
    → All HasOwnId rs
    → All HasOwnId map
    → All HasOwnId (regions_by_id rs map)
unfolding regions_by_id
regions_by_id-HasOwnId [] map o h = h
regions_by_id-HasOwnId (r ∷ rs) map (o, os) h =
    regions_by_id-HasOwnId rs (put_region r map) os (put_region-HasOwnId r map o h)

All-of_IsIn : (rs : List DerpRegion) → ((r : DerpRegion) → IsIn r rs → HasOwnId r) → All HasOwnId rs
All-of_IsIn [] h = tt
All-of_IsIn (r ∷ rs) h = (h r (inl refl), All-of_IsIn rs (λ x i. h x (inr i)))

IsIn-of_All : {A : Type 0} (P : A → Type 0) (xs : List A) (x : A) → All P xs → IsIn x xs → P x
IsIn-of_All P [] x h i = absurd i
IsIn-of_All P (y ∷ xs) x (p, h) (inl e) = subst P (sym e) p
IsIn-of_All P (y ∷ xs) x (p, h) (inr i) = IsIn-of_All P xs x h i

-- Ranging over a map gives its values.
abbrev pub RangesOver : DerpLibrary → Type 0
RangesOver library =
    (regions : Assoc DerpRegion) (r : DerpRegion)
    → IsIn r (library.order regions)
    → (code : String) × IsIn (code, r) regions

map-HasOwnId :
    (library : DerpLibrary) (relays : List (RelayNode ℕ))
    → RangesOver library
    → All HasOwnId (build_derp_map library relays).regions
unfolding build_derp_map
map-HasOwnId library relays ranges =
    let codes = regions_by_code library.to_lower library.parse_url library.ip_of relays [] in
    let own = codes-HasOwnId library relays [] tt in
    regions_by_id-HasOwnId (library.order codes) []
      (All-of_IsIn (library.order codes) (λ r i.
        let (code, j) = ranges codes r i in
        IsIn-of_All (λ (e : String × DerpRegion). HasOwnId e.1) codes (code, r) own j))
      tt

-- The codes us and eu-west have one id, so the map of the relays never has the regions of both,
-- whichever relays there are and in whatever order the regions are ranged over. Ranging over a map
-- gives nothing but its values.
pub regions_collide :
    (library : DerpLibrary) (relays : List (RelayNode ℕ)) (a b : DerpRegion)
    → RangesOver library
    → a.region_code ≡ "us"
    → b.region_code ≡ "eu-west"
    → IsIn a (build_derp_map library relays).regions
    → ¬ IsIn b (build_derp_map library relays).regions
unfolding build_derp_map stable_region_id HasOwnId
regions_collide library relays a b ranges us eu i j =
    let map = build_derp_map library relays in
    let own = map-HasOwnId library relays ranges in
    let one : ◌≡◌ {A = ℕ} (stable_region_id "us") (stable_region_id "eu-west") = refl in
    let same : a.region_id ≡ b.region_id =
      IsIn-of_All HasOwnId map.regions a own i
      ∙ ap stable_region_id us
      ∙ one
      ∙ sym (IsIn-of_All HasOwnId map.regions b own j ∙ ap stable_region_id eu) in
    let both =
      one_of_id map.regions a b
        (regions_by_id-OneEach
          (library.order
            (regions_by_code library.to_lower library.parse_url library.ip_of relays []))
          [] tt)
        i j same in
    us_is_not_eu (sym us ∙ ap (λ (r : DerpRegion). r.region_code) both ∙ eu)
