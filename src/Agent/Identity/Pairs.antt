-- ===== src/Agent/Identity/Pairs.antt =====
-- internal/agent/state.go: whether the keys that EnsureIdentity gives belong together.
use mathlib.Core.Path.{subst}
use linkbit.Prelude.{
  ℕ, String, ◌≡◌, ◌≢◌, sym, ap, ◌∙◌, inl, inr, false, true, Option, none, List, [], ◌∷◌, ◌==◌,
  eq_iff, arith,
}
use linkbit.Agent.Outcome.{value, Outcome-cases, value-failure}
use linkbit.Agent.State.{
  AgentState, StateCodec, Disk, DiskFault, or_zero, zero_state, read_agent_state,
}
use linkbit.Agent.Identity.{
  Identity, Crypto, wire_guard_public_key, fingerprint_from_public_key, choose_private,
  choose_public, choose_identity, ensure_identity, keep_identity, first_non_empty, initial_state,
}
use linkbit.Agent.Identity.Choice.{choose-parts}
use linkbit.Agent.Identity.Laws.{≢-==}

abbrev pub no_keys : Identity
no_keys = record { private_key = ""; public_key = ""; fingerprint = "" }

module _ (k : Crypto) where
  -- Keys that belong together: the public key is the private one's.
  abbrev pub IsPair : Identity → Type 0
  IsPair i = wire_guard_public_key k i.private_key ≡ value i.public_key

  private_given :
      (random : Option (List ℕ)) (given stored p : String)
      → given == "" ≡ false
      → choose_private k random (first_non_empty (given ∷ stored ∷ [])) ≡ value p
      → p ≡ given
  unfolding choose_private
  private_given random given stored p a h = ground arith

  public_stored :
      (p given stored q : String)
      → given == "" ≡ true
      → stored == "" ≡ false
      → choose_public k p (first_non_empty (given ∷ stored ∷ [])) ≡ value q
      → q ≡ stored
  unfolding choose_public
  public_stored p given stored q a b h = ground arith

  module _ (c : StateCodec) where
    keep-same :
        (f : DiskFault) (path : String) (now : ℕ) (s : AgentState) (i j : Identity)
        (d : Disk c.Document)
        → (keep_identity k c f path now s j d).0 ≡ value i
        → j ≡ i
    unfolding keep_identity
    keep-same f path now s i j d h = ground arith

    ensure-chosen :
        (f : DiskFault) (random : Option (List ℕ)) (now : ℕ) (path : String) (given i : Identity)
        (d : Disk c.Document)
        → (ensure_identity k c f random now path given d).0 ≡ value i
        → (s : AgentState) × (initial_state k c f path d ≡ value s)
          × (choose_identity k random given s ≡ value i)
    unfolding ensure_identity
    ensure-chosen f random now path given i d h =
        elim (Outcome-cases (initial_state k c f path d)) [
          | inr (e, x) ↦ absurd (value-failure (sym (rw (ensure_identity, x) at h)))
          | inl (s, x) ↦ elim (Outcome-cases (choose_identity k random given s)) [
            | inr (e, y) ↦ absurd (value-failure (sym (rw (ensure_identity, x, y) at h)))
            | inl (j, y) ↦
                let same = keep-same f path now s i j d (rw (ensure_identity, x, y) at h) in
                (s, x, y ∙ ap value same)
          ]
        ]

    initial-zero :
        (f : DiskFault) (path : String) (d : Disk c.Document) (s : AgentState)
        → d.file ≡ none
        → initial_state k c f path d ≡ value s
        → s ≡ zero_state
    unfolding initial_state read_agent_state or_zero
    initial-zero f path d s e h = ground arith

    initial-found :
        (f : DiskFault) (path : String) (d : Disk c.Document) (s s' : AgentState)
        → path ≢ ""
        → read_agent_state c f d ≡ value s
        → initial_state k c f path d ≡ value s'
        → s ≡ s'
    unfolding initial_state or_zero
    initial-found f path d s s' p r h = ground (arith, eq_iff path "")

    -- A device with neither a state file nor keys of its own gets a public key that is its private
    -- key's, and the fingerprint of that.
    pub ensure-fresh :
        (f : DiskFault) (random : Option (List ℕ)) (now : ℕ) (path : String) (i : Identity)
        (d : Disk c.Document)
        → d.file ≡ none
        → (ensure_identity k c f random now path no_keys d).0 ≡ value i
        → IsPair i × (i.fingerprint ≡ fingerprint_from_public_key k i.public_key)
    unfolding choose_public
    ensure-fresh f random now path i d e h =
        let (s, x, y) = ensure-chosen f random now path no_keys i d h in
        let chosen : choose_identity k random no_keys zero_state ≡ value i =
          subst (λ t. choose_identity k random no_keys t ≡ value i) (initial-zero f path d s e x)
            y in
        let (_, q, z) = choose-parts k random no_keys i zero_state chosen in (q, sym z)

    -- Where a private key is given and the file has the public key of another, that public key is
    -- used beside the private key that is given.
    pub ensure-stale :
        (f : DiskFault) (random : Option (List ℕ)) (now : ℕ) (path : String) (given i : Identity)
        (d : Disk c.Document) (s : AgentState)
        → path ≢ ""
        → given.private_key ≢ ""
        → given.public_key ≡ ""
        → read_agent_state c f d ≡ value s
        → s.wire_guard_public_key ≢ ""
        → (ensure_identity k c f random now path given d).0 ≡ value i
        → (i.private_key ≡ given.private_key) × (i.public_key ≡ s.wire_guard_public_key)
    ensure-stale f random now path given i d s p a b r e h =
        let (s', x, y) = ensure-chosen f random now path given i d h in
        let same : s ≡ s' = initial-found f path d s s' p r x in
        let (u, v, _) = choose-parts k random given i s' y in
        let stored : s'.wire_guard_public_key ≡ s.wire_guard_public_key =
          ap (λ z. z.wire_guard_public_key) (sym same) in
        (
          private_given random given.private_key s'.wire_guard_private_key i.private_key
              (≢-== given.private_key a) u,
          public_stored i.private_key given.public_key s'.wire_guard_public_key i.public_key
                ((eq_iff given.public_key "").1 b) (rw stored (≢-== s.wire_guard_public_key e)) v
              ∙ stored,
        )
