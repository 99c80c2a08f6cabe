-- ===== src/Agent/Service/File.antt =====
-- internal/agent/agent.go with FileStateStore of internal/agent/state.go for its store, as NewService
-- makes it.
use mathlib.Core.Path.{subst}
use linkbit.Prelude.{
  ℕ, ◌≡◌, ◌≢◌, refl, ap, ◌∙◌, String, true, false, Option, none, some, List, [], ◌∷◌, arith, eq_iff,
}
use linkbit.Models.{DeviceRegistrationResponse}
use linkbit.Agent.Outcome.{value, failure}
use linkbit.Agent.State.{
  malformed, StateCodec, Disk, DiskFault, lacks_credentials, to_save, load, save, read_agent_state,
  or_zero, zero_response,
}
use linkbit.Agent.State.Laws as Kept
use linkbit.Agent.Service.{
  Calls, Service, loaded, registered, Event, ended, state_error, save_device, register_device, run,
}
use linkbit.Agent.Service.Cases.{count, run-failed}
use linkbit.Agent.Service.Restart.{StoreLaws}
use linkbit.Agent.Service.Again.{is_registered, enrol-fresh}

none-some : {A : Type 0} {a : A} → ¬ (none ≡ some a)
none-some h = cc

some-injective : {A : Type 0} {a b : A} → some a ≡ some b → a ≡ b
some-injective h = cc

abbrev pub map_option : {A B : Type 0} → (A → B) → Option A → Option B
map_option f none = none
map_option f (some a) = some (f a)

map_option-some :
    {A B : Type 0} (f : A → B) (o : Option A) {b : B}
    → map_option f o ≡ some b
    → (a : A) × (f a ≡ b)
map_option-some f none h = absurd (none-some h)
map_option-some f (some a) h = (a, some-injective h)

-- A call that leaves the file alone.
abbrev pub beside : {D V A : Type 0} → (V → A × V) → D × V → A × (D × V)
beside call (d, v) = let (a, v') = call v in (a, (d, v'))

-- `f` and `g` are the calls of the system that fail in a load and in a save.
module _ (c : StateCodec) (f g : DiskFault) (path : String) (now : ℕ) {V : Type 0}
    (rest : Calls V) where
  abbrev pub with_file : Calls (Disk c.Document × V)
  with_file = record {
    load = λ w. load c f path w.0;
    save = λ r w. (let (e, d) = save c g path now r w.0 in (e, (d, w.1)));
    credentials = map_option (λ set id token w. (w.0, set id token w.1)) rest.credentials;
    register = λ key name w. beside (rest.register key name) w;
    configuration = map_option beside rest.configuration;
    relays = rest.relays;
    apply = λ network w. beside (rest.apply network) w;
    destroy = λ w. beside rest.destroy w;
    check_and_report = λ r w. beside (rest.check_and_report r) w;
  }

  -- The file store has the laws that a restart stands on.
  pub with_file-StoreLaws : Kept.StateLaws c → f.open_file ≡ false → StoreLaws with_file
  with_file-StoreLaws L o = record {
    save-load = λ r w e. (to_save r, (Kept.save-load c L g f path now r w.0 e o).0);
    load-named = λ w r e. ground (arith, Kept.load-value c f path w.0 r e);
    credentials-load = λ set id token w e.
        let (call, p) =
          map_option-some (λ set id token w. (w.0, set id token w.1)) rest.credentials e in
        subst (λ z. load c f path (z id token w).0 ≡ load c f path w.0) p refl;
    register-load = λ key name w. refl;
    configuration-load = λ get w e.
        let (call, p) = map_option-some beside rest.configuration e in
        subst (λ z. load c f path (z w).1.0 ≡ load c f path w.0) p refl;
    apply-load = λ n w. refl;
    destroy-load = λ w. refl;
    report-load = λ r w. refl;
  }

  -- Where the file cannot be decoded.
  load-malformed :
      (d : Disk c.Document) (text : c.Document)
      → path ≢ ""
      → f.open_file ≡ false
      → d.file ≡ some text
      → c.unmarshal text ≡ none
      → load c f path d ≡ failure malformed
  unfolding load read_agent_state
  load-malformed d text p o e m = ground (arith, eq_iff path "")

  save-malformed :
      (d : Disk c.Document) (text : c.Document) (r : DeviceRegistrationResponse)
      → path ≢ ""
      → g.open_file ≡ false
      → d.file ≡ some text
      → c.unmarshal text ≡ none
      → lacks_credentials r ≡ false
      → save c g path now r d ≡ (some malformed, d)
  unfolding save read_agent_state or_zero
  save-malformed d text r p o e m l = ground (arith, eq_iff path "")

  register-malformed :
      (s : Service) (d : Disk c.Document) (text : c.Document) (v : V)
      (r : DeviceRegistrationResponse)
      → s.state ≡ true
      → s.cfg.enrollment_key ≢ ""
      → path ≢ ""
      → g.open_file ≡ false
      → d.file ≡ some text
      → c.unmarshal text ≡ none
      → (rest.register s.cfg.enrollment_key s.cfg.device_name v).0 ≡ value r
      → lacks_credentials r ≡ false
      → register_device with_file s zero_response ((d, v), loaded ∷ []) ≡ (
        failure (state_error malformed),
        ((d, (rest.register s.cfg.enrollment_key s.cfg.device_name v).1), registered ∷ loaded ∷ []),
      )
  unfolding register_device save_device
  register-malformed s d text v r a k p o e m t l =
      ground (arith, eq_iff s.cfg.enrollment_key "", save-malformed d text r p o e m l)

  -- With a state file that cannot be decoded, a run registers the device, and then ends with the error
  -- of the file, which it leaves as it was: the device that was made is lost. The service has a state
  -- file, which can be opened, and an enrollment key, and the registration succeeds with an id and a
  -- token.
  pub run-malformed :
      (s : Service) (events : List Event) (d : Disk c.Document) (text : c.Document) (v : V)
      (r : DeviceRegistrationResponse)
      → s.state ≡ true
      → s.registration ≡ true
      → s.cfg.enrollment_key ≢ ""
      → path ≢ ""
      → f.open_file ≡ false
      → g.open_file ≡ false
      → d.file ≡ some text
      → c.unmarshal text ≡ none
      → (rest.register s.cfg.enrollment_key s.cfg.device_name v).0 ≡ value r
      → lacks_credentials r ≡ false
      → let (e, ((d', v'), log)) = run with_file s events (d, v) in
        (e ≡ ended (some (state_error malformed))) × (d' ≡ d) × (count is_registered log ≡ 1)
  run-malformed s events d text v r a b k p o o' e m t l =
      let x =
        enrol-fresh with_file s (d, v) malformed a b (load-malformed d text p o e m)
        ∙ register-malformed s d text v r a k p o' e m t l in
      let y =
        run-failed with_file s events (d, v) (state_error malformed) (ap (λ z. z.0) x)
        ∙ ap (λ z. (ended (some (state_error malformed)), z.1)) x in
      (ap (λ z. z.0) y, ap (λ z. z.1.0.0) y, ap (λ z. count is_registered z.1.1) y)
