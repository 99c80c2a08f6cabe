-- ===== src/Store/Overview/Laws.antt =====
-- What the overview says of the relays.
use linkbit.Prelude.{
  ℕ, ◌≡◌, ◌≢◌, ◌≤◌, ◌<◌, ◌↔◌, refl, sym, ◌∙◌, String, Bool, true, List, [], ◌∷◌, length, All, arith,
  eq_iff,
}
use linkbit.Prelude.Select.{count_rows}
use linkbit.Models.{RelayNode, relay_status_healthy}
use linkbit.Store.{Db, Fault, Result}
use linkbit.Store.Overview.{Overview, network_health, overview, is_healthy}

count-le : {A : Type 0} (test : A → Bool) (xs : List A) → count_rows test xs ≤ length xs
unfolding count_rows
count-le test [] = omega arith
count-le test (x ∷ xs) = ground (arith, count-le test xs)

count_iff :
    {A : Type 0} (test : A → Bool) (xs : List A)
    → (count_rows test xs ≡ length xs) ↔ All (λ x. test x ≡ true) xs
unfolding count_rows
count_iff test [] = ((λ e. tt), (λ a. refl))
count_iff test (x ∷ xs) = (
  (λ e. ground (arith, (count_iff test xs).0, count-le test xs)),
  (λ a. ground (arith, (count_iff test xs).1, a)),
)

healthy_iff :
    (relays healthy : ℕ)
    → (network_health relays healthy ≡ "healthy") ↔ ((0 < relays) × (healthy ≡ relays))
unfolding network_health
healthy_iff relays healthy = (
  (λ e. ground (arith, eq_iff "degraded" "healthy", eq_iff "unknown" "healthy")),
  (λ h. ground arith),
)

All-iff :
    (rs : List (RelayNode String))
    → All (λ r. is_healthy r ≡ true) rs
      ↔ All (λ (r : RelayNode String). r.status ≡ relay_status_healthy) rs
All-iff [] = ((λ a. tt), (λ a. tt))
All-iff (r ∷ rs) = (
  (λ a. ((eq_iff r.status relay_status_healthy).0 a.0, (All-iff rs).0 a.1)),
  (λ a. ((eq_iff r.status relay_status_healthy).1 a.0, (All-iff rs).1 a.1)),
)

some-length : {A : Type 0} (xs : List A) → (0 < length xs) ↔ (xs ≢ [])
some-length [] = ((λ h. absurd (omega arith)), (λ n. absurd (n refl)))
some-length (x ∷ xs) = ((λ h e. cc e), (λ n. omega arith))

-- The overview calls the network healthy exactly if there are relays and each has the healthy status.
pub overview-healthy :
    (average : List ℕ → ℕ) (fault : Fault) (db : Db) (o : Overview)
    → overview average fault db ≡ Result.ok o
    → (o.network_health ≡ "healthy") ↔ (
        (db.relays ≢ [])
        × All (λ (r : RelayNode String). r.status ≡ relay_status_healthy) db.relays)
unfolding overview
overview-healthy average fault db o h =
    let healthy = count_rows is_healthy db.relays in
    let relays = length db.relays in
    let same : network_health relays healthy ≡ o.network_health = ground (arith, h) in
    let said = healthy_iff relays healthy in
    let counted = count_iff is_healthy db.relays in
    (
      (λ e.
          let (some_relay, all) = said.0 (same ∙ e) in
          ((some-length db.relays).0 some_relay, (All-iff db.relays).0 (counted.0 all))),
      (λ a.
          sym same ∙ said.1 ((some-length db.relays).1 a.0, counted.1 ((All-iff db.relays).1 a.1))),
    )
