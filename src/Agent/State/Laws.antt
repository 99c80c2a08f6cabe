-- ===== src/Agent/State/Laws.antt =====
-- internal/agent/state.go: what FileStateStore keeps in its file and gives back.
use linkbit.Prelude.{
  ℕ, String, ◌≡◌, ◌≢◌, refl, ◌⊎◌, inl, inr, true, false, Option, none, some, Option-cases,
  Bool-cases, arith, eq_iff, sym, ◌∙◌, ◌∷◌, ◌||◌, ◌==◌,
}
use linkbit.Models.{DeviceRegistrationResponse}
use linkbit.Agent.Outcome.{value, Outcome-cases, value-failure, value-injective}
use linkbit.Agent.State.{
  StateError, path_required, id_and_token_required, io_failed, remove_temp, AgentState, StateCodec,
  Disk, DiskFault, lacks_credentials, to_save, or_zero, read_agent_state, fill_temp,
  write_agent_state, load, save,
}

-- The digest has no place in the JSON of a device.
abbrev pub without_hash : DeviceRegistrationResponse → DeviceRegistrationResponse
without_hash r = record r { device = record r.device { token_hash = "" } }

abbrev pub as_stored : AgentState → AgentState
as_stored s = record s { response = without_hash s.response }

-- What encoding/json promises: what it wrote is read back.
pub record StateLaws (c : StateCodec) : Type 0 where
  pub unmarshal-marshal :
      (s : AgentState) (text : c.Document)
      → c.marshal s ≡ some text
      → c.unmarshal text ≡ some (as_stored s)

-- The calls of the system that a write makes do not fail.
pub record IsCalm (f : DiskFault) : Type 0 where
  pub mkdir_all : f.mkdir_all ≡ false
  pub create_temp : f.create_temp ≡ false
  pub chmod : f.chmod ≡ false
  pub write : f.write ≡ false
  pub close : f.close ≡ false
  pub rename : f.rename ≡ false

pub some-none : {A : Type 0} {a : A} → ¬ (some a ≡ none)
some-none e = cc

module _ (c : StateCodec) where
  -- What a write leaves.
  pub data Written (f : DiskFault) (s : AgentState) (d : Disk c.Document)
      (r : Option StateError × Disk c.Document) : Type 0 where
    replaced :
        (text : c.Document)
        → c.marshal s ≡ some text
        → r ≡ (none, record d { file = some text })
        → Written f s d r
    kept :
        (e : StateError)
        → r.0 ≡ some e
        → r.1.file ≡ d.file
        → (r.1.temps ≡ d.temps) ⊎ (f.remove ≡ true)
        → Written f s d r

  abbrev pub temp_left : Disk c.Document → Option c.Document → Disk c.Document
  temp_left d x = record d { temps = x ∷ d.temps }

  fill-cases :
      (f : DiskFault) (s : AgentState) (d : Disk c.Document)
      → ((text : c.Document) × (c.marshal s ≡ some text)
          × (fill_temp c f s d ≡ (none, record d { file = some text })))
        ⊎ ((x : Option c.Document) × (fill_temp c f s d ≡ (some io_failed, temp_left d x)))
  unfolding fill_temp
  fill-cases f s d = elim (Bool-cases f.chmod) [
    | inl e ↦ inr (none, rw e refl)
    | inr e ↦ elim (Option-cases (c.marshal s)) [
      | inl m ↦ inr (none, rw (e, m) refl)
      | inr (text, m) ↦ elim (Bool-cases f.write) [
        | inl w ↦ inr (none, rw (e, m, w) refl)
        | inr w ↦ elim (Bool-cases (f.close || f.rename)) [
          | inl r ↦ inr (some text, rw (e, m, w, r) refl)
          | inr r ↦ inl (text, m, rw (e, m, w, r) refl)
        ]
      ]
    ]
  ]

  removed-Written :
      (f : DiskFault) (s : AgentState) (d : Disk c.Document) (x : Option c.Document)
      → Written f s d (remove_temp c f (some io_failed, temp_left d x))
  removed-Written f s d x = elim (Bool-cases f.remove) [
    | inl e ↦ kept io_failed refl (rw e refl) (inr e)
    | inr e ↦ kept io_failed refl (rw e refl) (inl (rw e refl))
  ]

  -- Whichever calls of the system fail, a write has either replaced the file with the whole text of
  -- the new state, or has reported an error and left the file as it was; and no temporary file stays
  -- but where it could not be removed.
  pub write-Written :
      (f : DiskFault) (path : String) (now : ℕ) (s : AgentState) (d : Disk c.Document)
      → Written f (record s { saved_at = now }) d (write_agent_state c f path now s d)
  unfolding write_agent_state
  write-Written f path now s d = elim (Bool-cases (path == "")) [
    | inl p ↦ rw p (kept path_required refl refl (inl refl))
    | inr p ↦ elim (Bool-cases (f.mkdir_all || f.create_temp)) [
      | inl m ↦ rw (p, m) (kept io_failed refl refl (inl refl))
      | inr m ↦ elim (fill-cases f (record s { saved_at = now }) d) [
        | inl (text, e, r) ↦ rw (p, m, r) (replaced text e refl)
        | inr (x, r) ↦ rw (p, m, r) (removed-Written f (record s { saved_at = now }) d x)
      ]
    ]
  ]

  -- The state that a save writes over the state that it finds.
  abbrev pub saved : ℕ → DeviceRegistrationResponse → AgentState → AgentState
  saved now r existing = record existing { response = to_save r; saved_at = now }

  pub save-cases :
      (f : DiskFault) (path : String) (now : ℕ) (r : DeviceRegistrationResponse)
      (d : Disk c.Document)
      → ((existing : AgentState) × (text : c.Document) × (path == "" ≡ false)
          × (lacks_credentials r ≡ false)
          × (or_zero (read_agent_state c f d) ≡ value existing)
          × (c.marshal (saved now r existing) ≡ some text)
          × (save c f path now r d ≡ (none, record d { file = some text })))
        ⊎ ((e : StateError) × ((save c f path now r d).0 ≡ some e)
            × ((save c f path now r d).1.file ≡ d.file))
  unfolding save
  save-cases f path now r d = elim (Bool-cases (path == "")) [
    | inl p ↦ rw p (inr (path_required, refl, refl))
    | inr p ↦ elim (Bool-cases (lacks_credentials r)) [
      | inl l ↦ rw (p, l) (inr (id_and_token_required, refl, refl))
      | inr l ↦ elim (Outcome-cases (or_zero (read_agent_state c f d))) [
        | inr (e, x) ↦ rw (p, l, x) (inr (e, refl, refl))
        | inl (existing, x) ↦
            elim (write-Written f path now (record existing { response = to_save r }) d) [
              | replaced text m w ↦ inl (existing, text, p, l, x, m, rw (p, l, x, w) refl)
              | kept e w k t ↦ inr (e, rw (p, l, x) w, rw (p, l, x) k)
            ]
      ]
    ]
  ]

  pub read-file :
      (L : StateLaws c) (f : DiskFault) (s : AgentState) (text : c.Document) (d : Disk c.Document)
      → c.marshal s ≡ some text
      → d.file ≡ some text
      → f.open_file ≡ false
      → read_agent_state c f d ≡ value (as_stored s)
  unfolding read_agent_state
  read-file L f s text d m e o = rw (o, e, L.unmarshal-marshal s text m) refl

  pub save-load :
      StateLaws c
      → (f f' : DiskFault) (path : String) (now : ℕ) (r : DeviceRegistrationResponse)
        (d : Disk c.Document)
      → (save c f path now r d).0 ≡ none
      → f'.open_file ≡ false
      → (load c f' path (save c f path now r d).1 ≡ value (to_save r))
        × ((existing : AgentState) × (or_zero (read_agent_state c f d) ≡ value existing)
            × (read_agent_state c f' (save c f path now r d).1 ≡ value (saved now r existing)))
  unfolding load
  save-load L f f' path now r d done o = elim (save-cases f path now r d) [
    | inl (existing, text, p, l, x, m, s) ↦
        let found : read_agent_state c f' (save c f path now r d).1 ≡ value (saved now r existing) =
          read-file L f' (saved now r existing) text (save c f path now r d).1 m (rw s refl) o in
        (rw (p, found, l) refl, (existing, x, found))
    | inr (e, s, k) ↦ absurd (some-none (sym s ∙ done))
  ]

  pub write-succeeds :
      (f : DiskFault) (path : String) (now : ℕ) (s : AgentState) (d : Disk c.Document)
      (text : c.Document)
      → IsCalm f
      → path == "" ≡ false
      → c.marshal (record s { saved_at = now }) ≡ some text
      → write_agent_state c f path now s d ≡ (none, record d { file = some text })
  unfolding write_agent_state fill_temp
  write-succeeds f path now s d text h p m = ground arith

  -- With no fault of the system, a path, credentials, and a file that is absent or can be decoded,
  -- a save reports no error.
  pub save-succeeds :
      (f : DiskFault) (path : String) (now : ℕ) (r : DeviceRegistrationResponse)
      (d : Disk c.Document) (existing : AgentState) (text : c.Document)
      → IsCalm f
      → path ≢ ""
      → lacks_credentials r ≡ false
      → or_zero (read_agent_state c f d) ≡ value existing
      → c.marshal (saved now r existing) ≡ some text
      → save c f path now r d ≡ (none, record d { file = some text })
  unfolding save
  save-succeeds f path now r d existing text h p l x m = ground (arith, eq_iff path "")

  -- What a load that gives a response has read.
  pub load-value :
      (f : DiskFault) (path : String) (d : Disk c.Document) (r : DeviceRegistrationResponse)
      → load c f path d ≡ value r
      → (path ≢ "")
        × ((s : AgentState) × (read_agent_state c f d ≡ value s)
            × (lacks_credentials r ≡ false)
            × (s.response ≡ r))
  unfolding load
  load-value f path d r h = elim (Bool-cases (path == "")) [
    | inl p ↦ absurd (value-failure (sym (rw (load, p) at h)))
    | inr p ↦ elim (Outcome-cases (read_agent_state c f d)) [
      | inr (e, x) ↦ absurd (value-failure (sym (rw (load, p, x) at h)))
      | inl (s, x) ↦ elim (Bool-cases (lacks_credentials s.response)) [
        | inl l ↦ absurd (value-failure (sym (rw (load, p, x, l) at h)))
        | inr l ↦
            let same : s.response ≡ r = value-injective (rw (load, p, x, l) at h) in
            (λ e. cc, (s, x, rw (← same) l, same))
      ]
    ]
  ]

  pub load-read :
      (f : DiskFault) (path : String) (d : Disk c.Document) (s : AgentState)
      → path ≢ ""
      → read_agent_state c f d ≡ value s
      → lacks_credentials s.response ≡ false
      → load c f path d ≡ value s.response
  unfolding load
  load-read f path d s p x l = ground (arith, eq_iff path "")
