-- ===== src/Agent/Identity/Laws.antt =====
-- internal/agent/state.go: what EnsureIdentity keeps in the state file, and what a second call gives.
use linkbit.Prelude.{
  ℕ, String, ◌≡◌, ◌≢◌, refl, sym, ap, ◌∙◌, ◌⊎◌, inl, inr, false, Option, none, some, List, [], ◌==◌,
  Option-cases, Bool-cases, arith, eq_iff,
}
use linkbit.Models.{DeviceRegistrationResponse}
use linkbit.Agent.Outcome.{value, failure, Outcome-cases, value-failure, value-injective}
use linkbit.Agent.State.{
  StateError, AgentState, StateCodec, Disk, DiskFault, or_zero, read_agent_state, load,
  write_agent_state,
}
use linkbit.Agent.State.Laws.{
  without_hash, as_stored, StateLaws, IsCalm, replaced, kept, write-Written, write-succeeds,
  read-file, load-value, load-read, some-none,
}
use linkbit.Agent.Identity.{
  Identity, Crypto, initial_state, choose_identity, with_identity, keep_identity, ensure_identity,
}
use linkbit.Agent.Identity.Choice.{CryptoLaws, choose-again}

pub ≢-== : (s : String) → s ≢ "" → s == "" ≡ false
≢-== s h = ground (arith, eq_iff s "")

-- A state that was written and read back can be written at that time: encoding/json fails on a state for
-- a number or a time in it, and none of the others change.
abbrev pub IsWritable : StateCodec → ℕ → Type 0
IsWritable c now =
    (s : AgentState)
    → c.marshal s ≢ none
    → c.marshal (record (as_stored s) { saved_at = now }) ≢ none

marshalled :
    (c : StateCodec) (s : AgentState)
    → c.marshal s ≢ none
    → (text : c.Document) × (c.marshal s ≡ some text)
marshalled c s m = elim (Option-cases (c.marshal s)) [ inl e ↦ absurd (m e) | inr found ↦ found ]

written :
    (c : StateCodec) (s : AgentState) (text : c.Document)
    → c.marshal s ≡ some text
    → c.marshal s ≢ none
written c s text e n = some-none (sym e ∙ n)

module _ (k : Crypto) (c : StateCodec) where
  -- The state that is written with the keys.
  abbrev pub identified : ℕ → Identity → AgentState → AgentState
  identified now i s = record (with_identity i s) { saved_at = now }

  initial-read :
      (f : DiskFault) (path : String) (d : Disk c.Document)
      → path == "" ≡ false
      → initial_state k c f path d ≡ or_zero (read_agent_state c f d)
  unfolding initial_state
  initial-read f path d p = rw p refl

  ensure-keep :
      (f : DiskFault) (random : Option (List ℕ)) (now : ℕ) (path : String) (given i : Identity)
      (s : AgentState) (d : Disk c.Document)
      → initial_state k c f path d ≡ value s
      → choose_identity k random given s ≡ value i
      → ensure_identity k c f random now path given d ≡ keep_identity k c f path now s i d
  unfolding ensure_identity
  ensure-keep f random now path given i s d x y = ground arith

  ensure-no_state :
      (f : DiskFault) (random : Option (List ℕ)) (now : ℕ) (path : String) (given : Identity)
      (d : Disk c.Document) (e : StateError)
      → initial_state k c f path d ≡ failure e
      → ensure_identity k c f random now path given d ≡ (failure e, d)
  unfolding ensure_identity
  ensure-no_state f random now path given d e x = ground arith

  ensure-no_key :
      (f : DiskFault) (random : Option (List ℕ)) (now : ℕ) (path : String) (given : Identity)
      (s : AgentState) (d : Disk c.Document) (e : StateError)
      → initial_state k c f path d ≡ value s
      → choose_identity k random given s ≡ failure e
      → ensure_identity k c f random now path given d ≡ (failure e, d)
  unfolding ensure_identity
  ensure-no_key f random now path given s d e x y = ground arith

  keep-value :
      (f : DiskFault) (now : ℕ) (path : String) (i : Identity) (s : AgentState)
      (d d' : Disk c.Document)
      → path == "" ≡ false
      → write_agent_state c f path now (with_identity i s) d ≡ (none, d')
      → keep_identity k c f path now s i d ≡ (value i, d')
  unfolding keep_identity
  keep-value f now path i s d d' p w = ground arith

  keep-failure :
      (f : DiskFault) (now : ℕ) (path : String) (i : Identity) (s : AgentState)
      (d : Disk c.Document) (e : StateError)
      → path == "" ≡ false
      → (write_agent_state c f path now (with_identity i s) d).0 ≡ some e
      → keep_identity k c f path now s i d
        ≡ (failure e, (write_agent_state c f path now (with_identity i s) d).1)
  unfolding keep_identity
  keep-failure f now path i s d e p w = ground arith

  pub ensure-cases :
      (f : DiskFault) (random : Option (List ℕ)) (now : ℕ) (path : String) (given : Identity)
      (d : Disk c.Document)
      → path == "" ≡ false
      → ((s : AgentState) × (i : Identity) × (text : c.Document) × (or_zero (read_agent_state c f d)
            ≡ value s)
          × (choose_identity k random given s ≡ value i)
          × (c.marshal (identified now i s) ≡ some text)
          × (ensure_identity k c f random now path given d
              ≡ (value i, record d { file = some text })))
        ⊎ ((e : StateError) × ((ensure_identity k c f random now path given d).0 ≡ failure e)
            × ((ensure_identity k c f random now path given d).1.file ≡ d.file))
  ensure-cases f random now path given d p = elim (Outcome-cases (initial_state k c f path d)) [
    | inr (e, x) ↦
        let r = ensure-no_state f random now path given d e x in
        inr (e, ap (λ q. q.0) r, ap (λ q. q.1.file) r)
    | inl (s, x) ↦ elim (Outcome-cases (choose_identity k random given s)) [
      | inr (e, y) ↦
          let r = ensure-no_key f random now path given s d e x y in
          inr (e, ap (λ q. q.0) r, ap (λ q. q.1.file) r)
      | inl (i, y) ↦ elim (write-Written c f path now (with_identity i s) d) [
        | replaced text m w ↦ inl (
          s,
          i,
          text,
          sym (initial-read f path d p) ∙ x,
          y,
          m,
          ensure-keep f random now path given i s d x y
              ∙ keep-value f now path i s d (record d { file = some text }) p w,
        )
        | kept e w o t ↦
            let r =
              ensure-keep f random now path given i s d x y ∙ keep-failure f now path i s d e p w in
            inr (e, ap (λ q. q.0) r, ap (λ q. q.1.file) r ∙ o)
      ]
    ]
  ]

  -- Whichever calls of the system fail, a call that reports an error leaves the state file as it was.
  pub ensure-failed :
      (f : DiskFault) (random : Option (List ℕ)) (now : ℕ) (path : String) (given : Identity)
      (d : Disk c.Document) (e : StateError)
      → (ensure_identity k c f random now path given d).0 ≡ failure e
      → (ensure_identity k c f random now path given d).1.file ≡ d.file
  unfolding ensure_identity keep_identity
  ensure-failed f random now path given d e h = elim (Bool-cases (path == "")) [
    | inr p ↦ elim (ensure-cases f random now path given d p) [
      | inl (s, i, text, x, y, m, r) ↦ absurd (value-failure (sym (ap (λ q. q.0) r) ∙ h))
      | inr (e', r, o) ↦ o
    ]
    | inl p ↦ ground arith
  ]

  -- What a call that reports no error has left: keys that it chose over the state that it found.
  pub ensure-found :
      StateLaws c
      → (f f' : DiskFault) (random : Option (List ℕ)) (now : ℕ) (path : String) (given i : Identity)
        (d : Disk c.Document)
      → path ≢ ""
      → f'.open_file ≡ false
      → (ensure_identity k c f random now path given d).0 ≡ value i
      → (s : AgentState) × (or_zero (read_agent_state c f d) ≡ value s)
        × (choose_identity k random given s ≡ value i)
        × (read_agent_state c f' (ensure_identity k c f random now path given d).1
            ≡ value (as_stored (identified now i s)))
        × (c.marshal (identified now i s) ≢ none)
  ensure-found L f f' random now path given i d p o h =
      elim (ensure-cases f random now path given d (≢-== path p)) [
        | inr (e, r, _) ↦ absurd (value-failure (sym h ∙ r))
        | inl (s, j, text, x, y, m, r) ↦
            let same : j ≡ i = value-injective (sym (ap (λ q. q.0) r) ∙ h) in
            (
              s,
              x,
              y ∙ ap value same,
              read-file c L f' (identified now j s) text
                    (ensure_identity k c f random now path given d).1 m (rw r refl) o
                  ∙ ap (λ z. value (as_stored (identified now z s))) same,
              λ n.
                  written c (identified now j s) text m
                    (ap (λ z. c.marshal (identified now z s)) same ∙ n),
            )
      ]

  -- A device keeps its keys: after a call without an error, a second call with the same arguments,
  -- whatever the random source gives, ends with the same identity, where the path is not empty, the
  -- first call's random source gives bytes where it gives any, and no call of the system fails in the
  -- second. A state that could be written can be written at the time of the second.
  pub ensure-again :
      CryptoLaws k
      → StateLaws c
      → (f f' : DiskFault) (random random' : Option (List ℕ)) (now now' : ℕ) (path : String)
        (given i : Identity) (d : Disk c.Document)
      → IsWritable c now'
      → path ≢ ""
      → random ≢ some []
      → IsCalm f'
      → f'.open_file ≡ false
      → (ensure_identity k c f random now path given d).0 ≡ value i
      → (ensure_identity k c f' random' now' path given
          (ensure_identity k c f random now path given d).1).0
        ≡ value i
  unfolding choose_identity or_zero
  ensure-again K L f f' random random' now now' path given i d M p n calm o h =
      let after = (ensure_identity k c f random now path given d).1 in
      let (s, x, y, r, m) = ensure-found L f f' random now path given i d p o h in
      let stored : AgentState = as_stored (identified now i s) in
      let (text, e) = marshalled c (identified now' i stored) (M (identified now i s) m) in
      ap (λ q. q.0)
        (ensure-keep f' random' now' path given i stored after
            (initial-read f' path after (≢-== path p) ∙ ap or_zero r)
            (choose-again k K random random' given i s n y)
          ∙ keep-value f' now' path i stored after (record after { file = some text }) (≢-== path p)
              (write-succeeds c f' path now' (with_identity i stored) after text calm (≢-== path p)
                e))

  -- A device stays registered: a call that reports no error has kept the device, its token and the
  -- relays in the state file.
  pub ensure-load :
      StateLaws c
      → (f f' : DiskFault) (random : Option (List ℕ)) (now : ℕ) (path : String) (given i : Identity)
        (d : Disk c.Document) (r : DeviceRegistrationResponse)
      → f'.open_file ≡ false
      → load c f path d ≡ value r
      → (ensure_identity k c f random now path given d).0 ≡ value i
      → load c f' path (ensure_identity k c f random now path given d).1 ≡ value (without_hash r)
  unfolding or_zero
  ensure-load L f f' random now path given i d r o l h =
      let (p, (s, x, lacks, e)) = load-value c f path d r l in
      let (s', x', y, found, m) = ensure-found L f f' random now path given i d p o h in
      let same : s ≡ s' = value-injective (sym (ap or_zero x) ∙ x') in
      let response : s'.response ≡ r = ap (λ z. z.response) (sym same) ∙ e in
      load-read c f' path (ensure_identity k c f random now path given d).1
        (as_stored (identified now i s')) p found (rw response lacks)
      ∙ ap (λ z. value (without_hash z)) response
