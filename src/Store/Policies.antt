-- ===== src/Store/Policies.antt =====
-- internal/store/sqlite/store.go: network policies.
use linkbit.Prelude.{String, none, some, List, [], ◌∷◌, any, ◌==◌, if◌then◌else◌}
use linkbit.Prelude.Sort.{sort_by}
use linkbit.Prelude.Select.{delete_rows}
pub use linkbit.Models.{Policy}
use linkbit.Models.{PolicyRow}
use linkbit.Store.{
  Codec, Db, Fault, insert_policy, delete_policy_row, select_policies, Result, ok, err, no_rows,
  constraint_failed, statement_failed, insert_row, older,
}
use linkbit.Store.Rows.{policy_row, scan_policy}

module _ (codec : Codec) (fault : Fault) where
  unfoldable pub create_policy : Policy → Db → Result (Unit {0}) × Db
  create_policy policy db =
      if fault insert_policy
      then (err statement_failed, db)
      else elim (insert_row (λ (r : PolicyRow). r.id == policy.id) (policy_row codec policy)
          db.policies) [
            | none ↦ (err constraint_failed, db)
            | some policies ↦ (ok tt, record db { policies = policies })
          ]

  unfoldable pub delete_policy : String → Db → Result (Unit {0}) × Db
  delete_policy id db =
      if fault delete_policy_row
      then (err statement_failed, db)
      else if any (λ (r : PolicyRow). r.id == id) db.policies
      then (ok tt, record db { policies = delete_rows (λ (r : PolicyRow). r.id == id) db.policies })
      else (err no_rows, db)

  -- The loop over the rows ends at the first that does not scan.
  scan_policies : List PolicyRow → Result (List Policy)
  scan_policies [] = ok []
  scan_policies (row ∷ rows) =
      let rest = scan_policies rows in
      elim (scan_policy codec row) [
        | err e ↦ err e
        | ok policy ↦ elim rest [ err e ↦ err e | ok policies ↦ ok (policy ∷ policies) ]
      ]

  unfoldable pub list_policies : Db → Result (List Policy)
  unfolding scan_policies
  list_policies db =
      if fault select_policies
      then err statement_failed
      else scan_policies (sort_by (older (λ (r : PolicyRow). r.created_at)) db.policies)
