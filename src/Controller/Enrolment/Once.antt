-- ===== src/Controller/Enrolment/Once.antt =====
-- Invitations that may be used once.
use mathlib.Core.Path.{subst}
use linkbit.Prelude.{
  ℕ, ◌≡◌, ◌≢◌, refl, sym, ap, ◌∙◌, inl, inr, String, Bool, true, false, some, List, [], ◌∷◌, arith,
  ◌==◌, eq_iff, Bool-cases, Option-cases,
}
use linkbit.Prelude.Select.{find_row, update_rows}
use linkbit.Models.{
  InvitationRow, DeviceRegistrationResponse, DeviceRegistrationRequest, Invitation,
}
use linkbit.Auth.{hash_api_key, Hashed, Hashed-cases, new_api_key}
use linkbit.Store.{Result, Fault, Db, Codec, select_invitation, mark_invitation_row}
use linkbit.Store.Rows.{CodecLaws, IsRead, format_time, scan_invitation}
use linkbit.Store.Rows.Laws.{parse-format_time}
use linkbit.Store.Keys.{get_invitation_by_token_hash, mark_invitation_used}
use linkbit.Store.Devices.{create_device}
use linkbit.Controller.Server.{Server, World, Env, Response, replied, failed, no_content}
use linkbit.Controller.Enrolment.{
  Draws, device_register, check_enrolment, finish_enrolment, admitted, mark_used, new_device,
}
use linkbit.Controller.Enrolment.Laws.{
  check-IsAdmissible, register-created, sync_hub-db, create-Created,
}

abbrev pub is_created : {A : Type 0} → Response A → Bool
is_created (replied status a) = true
is_created (failed status message) = false
is_created no_content = false

find-update_rows :
    {A : Type 0} (test sel : A → Bool) (f : A → A)
    → ((a : A) → test (f a) ≡ test a)
    → (rows : List A) (row : A) → find_row test rows ≡ some row
    → sel row ≡ true
    → find_row test (update_rows sel f rows) ≡ some (f row)
unfolding find_row update_rows
find-update_rows test sel f same [] row e h = absurd (ground arith)
find-update_rows test sel f same (x ∷ rows) row e h = elim (Bool-cases (test x)) [
  | inl t ↦
      let x-row : x ≡ row = ground arith in
      let chosen = subst (λ y. sel y ≡ true) (sym x-row) h in
      ground (arith, same x, chosen, ap f x-row)
  | inr t ↦ ground (arith, same x, find-update_rows test sel f same rows row (ground arith) h)
]

-- An invitation that was marked is found as used.
get-mark :
    (codec : Codec) (laws : CodecLaws codec) (f g : Fault) (token_hash : String) (i : Invitation ℕ)
    (marked_at : ℕ) (db : Db)
    → get_invitation_by_token_hash codec f token_hash db ≡ Result.ok i
    → f mark_invitation_row ≡ false
    → g select_invitation ≡ false
    → IsRead codec marked_at
    → get_invitation_by_token_hash codec g token_hash
        (mark_invitation_used codec f i.id marked_at db).1
      ≡ Result.ok (record i { used_at = marked_at })
unfolding get_invitation_by_token_hash mark_invitation_used scan_invitation
get-mark codec laws f g token_hash i marked_at db e good good' read =
    elim (Option-cases
      (find_row (λ (r : InvitationRow). r.token_hash == token_hash) db.invitations)) [
        | inl n ↦ absurd (ground arith)
        | inr (row, n) ↦
            let scanned : scan_invitation codec row ≡ i = ground arith in
            let same : row.id ≡ i.id = ap (λ (x : Invitation ℕ). x.id) scanned in
            let found =
              find-update_rows (λ (r : InvitationRow). r.token_hash == token_hash)
                (λ (r : InvitationRow). r.id == i.id)
                (λ r. record r { used_at = format_time codec marked_at }) (λ r. refl) db.invitations
                row n (ground (arith, eq_iff row.id i.id)) in
            ground (
              arith,
              good,
              good',
              found,
              parse-format_time codec laws marked_at read,
              ap (λ (x : Invitation ℕ). record x { used_at = marked_at }) scanned,
            )
      ]

ok_injective : {a b : String} → Hashed.ok a ≡ Hashed.ok b → a ≡ b
ok_injective e = ground arith

stored-select :
    (codec : Codec) (f : Fault) (token_hash : String) (db : Db) (i : Invitation ℕ)
    → get_invitation_by_token_hash codec f token_hash db ≡ Result.ok i
    → f select_invitation ≡ false
unfolding get_invitation_by_token_hash
stored-select codec f token_hash db i e = elim (Bool-cases (f select_invitation)) [
  | inl b ↦ absurd (ground arith)
  | inr b ↦ b
]

get-invitations :
    (codec : Codec) (f : Fault) (token_hash : String) (a b : Db)
    → a.invitations ≡ b.invitations
    → get_invitation_by_token_hash codec f token_hash a
      ≡ get_invitation_by_token_hash codec f token_hash b
unfolding get_invitation_by_token_hash
get-invitations codec f token_hash a b e = rw e

-- A registration that is answered with 201 marks an invitation that may be used once.
register-invitations :
    (s : Server) (env : Env) (checked_at : ℕ) (d : Draws) (req : DeviceRegistrationRequest)
    (w : World) (status : ℕ) (r : DeviceRegistrationResponse) (i : Invitation ℕ)
    → (device_register s env checked_at d (some req) w).0 ≡ replied status r
    → check_enrolment s env checked_at (some req) w ≡ admitted i
    → i.reusable ≡ false
    → (device_register s env checked_at d (some req) w).1.db.invitations
      ≡ (mark_invitation_used s.codec env.fault i.id d.marked_at w.db).1.invitations
unfolding device_register finish_enrolment mark_used mark_invitation_used
register-invitations s env checked_at d req w status r i h c once =
    elim (Option-cases (new_api_key d.token)) [
      | inl n ↦ absurd (ground (arith, c))
      | inr (token, t) ↦ elim (Hashed-cases (hash_api_key s.hmac_hex token s.api_key_pepper)) [
        | inr (e, q) ↦ absurd (ground (arith, c))
        | inl (token_hash, q) ↦
            let device = new_device d req i token token_hash in
            elim (create-Created s env.fault device w.db) [
              | inl (e, x) ↦ absurd (ground (arith, c))
              | inr x ↦
                  let w' : World = record w {
                    db = (create_device s.codec env.fault device w.db).1;
                  } in
                  ground (arith, c, x.succeeds, x.leaves, sync_hub-db s env w')
            ]
      ]
    ]

second_refused :
    (s : Server) (laws : CodecLaws s.codec) (env next : Env) (checked_at later : ℕ) (d d' : Draws)
    (req req' : DeviceRegistrationRequest) (w : World) (status : ℕ) (r : DeviceRegistrationResponse)
    (i : Invitation ℕ)
    → check_enrolment s env checked_at (some req) w ≡ admitted i
    → i.reusable ≡ false
    → (device_register s env checked_at d (some req) w).0 ≡ replied status r
    → req'.enrollment_key ≡ req.enrollment_key
    → env.fault mark_invitation_row ≡ false
    → d.marked_at ≢ 0
    → IsRead s.codec d.marked_at
    → (status' : ℕ) (r' : DeviceRegistrationResponse)
    → (device_register s next later d'
        (some req')
        (device_register s env checked_at d (some req) w).1).0
      ≢ replied status' r'
second_refused s laws env next checked_at later d d' req req' w status r i c once h key good nz read
      status' r' h' =
    let w' = (device_register s env checked_at d (some req) w).1 in
    let a = check-IsAdmissible s env checked_at req w i c in
    let (j, b, m) = register-created s next later d' req' w' status' r' h' in
    let marked = register-invitations s env checked_at d req w status r i h c once in
    let same_key : b.token_hash ≡ a.token_hash =
      ok_injective
        (sym b.hashed ∙ ap (λ k. hash_api_key s.hmac_hex k s.api_key_pepper) key ∙ a.hashed) in
    let works = stored-select s.codec next.fault b.token_hash w'.db j b.stored in
    let now_used =
      get-mark s.codec laws env.fault next.fault a.token_hash i d.marked_at w.db a.stored good works
        read in
    let looked =
      get-invitations s.codec next.fault a.token_hash w'.db
        (mark_invitation_used s.codec env.fault i.id d.marked_at w.db).1 marked in
    let stored =
      subst (λ t. get_invitation_by_token_hash s.codec next.fault t w'.db ≡ Result.ok j) same_key
        b.stored in
    let found : j ≡ record i { used_at = d.marked_at } = ground (arith, stored, looked, now_used) in
    ground (
      arith,
      b.unspent,
      ap (λ (x : Invitation ℕ). x.reusable) found,
      ap (λ (x : Invitation ℕ). x.used_at) found,
    )

not_created :
    {A : Type 0} (p : Response A)
    → ((status : ℕ) (a : A) → p ≢ replied status a)
    → is_created p ≡ false
not_created (replied status a) h = absurd (h status a refl)
not_created (failed status message) h = refl
not_created no_content h = refl

-- The key of an invitation that may be used once registers one device: once a registration with it has
-- been answered with 201, the next with the same key is not, whatever else it asks for and whatever
-- fails in it. The first marks the invitation, at a time that is not the zero time and whose text is read back, without a fault.
pub register_once :
    (s : Server) (laws : CodecLaws s.codec) (env next : Env) (checked_at later : ℕ) (d d' : Draws)
    (req req' : DeviceRegistrationRequest) (w : World) (status : ℕ) (r : DeviceRegistrationResponse)
    (i : Invitation ℕ)
    → check_enrolment s env checked_at (some req) w ≡ admitted i
    → i.reusable ≡ false
    → (device_register s env checked_at d (some req) w).0 ≡ replied status r
    → req'.enrollment_key ≡ req.enrollment_key
    → env.fault mark_invitation_row ≡ false
    → d.marked_at ≢ 0
    → IsRead s.codec d.marked_at
    → is_created
        (device_register s next later d'
          (some req')
          (device_register s env checked_at d (some req) w).1).0
      ≡ false
register_once s laws env next checked_at later d d' req req' w status r i c once h key good nz
      read =
    not_created _ (
      second_refused s laws env next checked_at later d d' req req' w status r i c once h key good
        nz read)
