-- ===== src/Agent/Program/Restarts.antt =====
-- cmd/linkbit-agent/main.go: an agent that is started again and again.
use linkbit.Prelude.{
  ℕ, ◌+◌, ◌≡◌, ◌≢◌, refl, ap, ◌∙◌, inl, inr, String, true, false, Option, List, [], ◌∷◌, arith,
  eq_iff, All, Bool-cases,
}
use linkbit.Models.{DeviceRegistrationResponse}
use linkbit.Config.{AgentConfig}
use linkbit.Agent.Outcome.{value, Outcome-cases}
use linkbit.Agent.State.{AgentState, StateCodec, Disk, DiskFault, load, read_agent_state, or_zero}
use linkbit.Agent.State.Laws.{StateLaws, load-value, without_hash}
use linkbit.Agent.Identity.{Identity, Crypto, ensure_identity}
use linkbit.Agent.Identity.Laws.{ensure-load, ensure-failed, ensure-found}
use linkbit.Agent.Service.{Service, Event, new_service}
use linkbit.Agent.Client.{new_http_registration_client}
use linkbit.Agent.Service.Cases.{count}
use linkbit.Agent.Service.File.{with_file, with_file-StoreLaws}
use linkbit.Agent.Service.Again.{is_registered, run-loaded}
use linkbit.Agent.Program.{
  Outside, System, Faults, given_keys, with_keys, agent_calls, start_service, main,
}

service-kept :
    (cfg : AgentConfig) (s : Service)
    → cfg.state_path ≢ ""
    → new_service cfg true true true ≡ value s
    → (s.state ≡ true) × (s.registration ≡ true)
unfolding new_service
service-kept cfg s p h = ground (arith, eq_iff cfg.state_path "")

-- Only the file itself is read.
load-file :
    (c : StateCodec) (f : DiskFault) (path : String) (d' d : Disk c.Document)
    → d'.file ≡ d.file
    → load c f path d' ≡ load c f path d
unfolding load read_agent_state
load-file c f path d' d e = ap (λ z. load c f path (record d { file = z })) e

load-open :
    (c : StateCodec) (f f' : DiskFault) (path : String) (d : Disk c.Document)
    (r : DeviceRegistrationResponse)
    → f'.open_file ≡ false
    → load c f path d ≡ value r
    → load c f' path d ≡ value r
unfolding load read_agent_state
load-open c f f' path d r o l = elim (Bool-cases f.open_file) [
  | inl e ↦ absurd (ground arith)
  | inr e ↦ ground arith
]

-- A state that was read was read from a file that could be opened.
read-open :
    (c : StateCodec) (f : DiskFault) (d : Disk c.Document) (s : AgentState)
    → or_zero (read_agent_state c f d) ≡ value s
    → f.open_file ≡ false
unfolding read_agent_state or_zero
read-open c f d s h = elim (Bool-cases f.open_file) [ inl e ↦ absurd (ground arith) | inr e ↦ e ]

-- The file has a device.
abbrev pub IsEnrolled : (c : StateCodec) → DiskFault → String → Disk c.Document → Type 0
IsEnrolled c f path d = (r : DeviceRegistrationResponse) × (load c f path d ≡ value r)

module _ (k : Crypto) (c : StateCodec) (L : StateLaws c) {World Body : Type 0} where
  start-kept :
      (sys : System World Body) (f : Faults) (now : ℕ) (cfg : AgentConfig) (i : Identity)
      (events : List Event) (d : Disk c.Document) (w : World)
      → f.loading.open_file ≡ false
      → IsEnrolled c f.loading cfg.state_path d
      → (count is_registered (start_service k c sys f now cfg i events (d, w)).1.1 ≡ 0)
        × IsEnrolled c f.loading cfg.state_path
            (start_service k c sys f now cfg i events (d, w)).1.0.0
  start-kept sys f now cfg i events d w o (r, l) =
      elim (Outcome-cases (new_service cfg true true true)) [
        | inr (e, x) ↦ rw (start_service, x) (refl, (r, l))
        | inl (s, x) ↦
            let (a, b) = service-kept cfg s (load-value c f.loading cfg.state_path d r l).0 x in
            let outside : Outside World = record {
              client =
                  new_http_registration_client cfg.controller_url i.public_key i.fingerprint
                    cfg.endpoint;
              world = w;
              trace = [];
            } in
            let (n, kept) =
              run-loaded (with_file c f.loading f.saving cfg.state_path now (agent_calls sys cfg)) s
                (with_file-StoreLaws c f.loading f.saving cfg.state_path now (agent_calls sys cfg) L
                  o)
                events (d, outside) r a b l in
            rw (start_service, x) (n, (r, kept))
      ]

  -- An agent whose file has a device registers none when it is started, whatever fails, and its file
  -- still has a device.
  pub main-kept :
      (sys : System World Body) (f : Faults) (random : Option (List ℕ)) (now : ℕ)
      (cfg : AgentConfig) (events : List Event) (d : Disk c.Document) (w : World)
      → f.loading.open_file ≡ false
      → IsEnrolled c f.loading cfg.state_path d
      → (count is_registered (main k c sys f random now cfg events (d, w)).1.1 ≡ 0)
        × IsEnrolled c f.loading cfg.state_path (main k c sys f random now cfg events (d, w)).1.0.0
  unfolding main
  main-kept sys f random now cfg events d w o (r, l) =
      elim (Outcome-cases
        (ensure_identity k c f.identity random now cfg.state_path (given_keys cfg) d).0) [
          | inr (e, x) ↦
              let same =
                ensure-failed k c f.identity random now cfg.state_path (given_keys cfg) d e x in
              rw (main, x) (refl, (r, load-file c f.loading cfg.state_path _ d same ∙ l))
          | inl (i, x) ↦
              let path = (load-value c f.loading cfg.state_path d r l).0 in
              let (s, y, chosen, stored, m) =
                ensure-found k c L f.identity f.loading random now cfg.state_path (given_keys cfg) i
                  d path o x in
              let read =
                load-open c f.loading f.identity cfg.state_path d r (read-open c f.identity d s y)
                  l in
              let kept =
                ensure-load k c L f.identity f.loading random now cfg.state_path (given_keys cfg) i
                  d r o read x in
              rw (main, x)
                (start-kept sys f now (with_keys i cfg) i events
                  (ensure_identity k c f.identity random now cfg.state_path (given_keys cfg) d).1 w
                  o (without_hash r, kept))
        ]

-- A start of the program: what the system does, which calls of the file system fail, what is drawn, the
-- time, and what comes to the loop.
pub record Start (World Body : Type 0) : Type 0 where
  pub sys : System World Body
  pub faults : Faults
  pub random : Option (List ℕ)
  pub now : ℕ
  pub events : List Event

-- The load of the file can open it.
abbrev pub CanOpen : {World Body : Type 0} → Start World Body → Type 0
CanOpen t = t.faults.loading.open_file ≡ false

module _ (k : Crypto) (c : StateCodec) {World Body : Type 0} (cfg : AgentConfig) where
  -- Starts one after another, with the registrations that they make.
  unfoldable pub main_all : List (Start World Body) → Disk c.Document × World → ℕ
  unfolding main
  main_all [] at = 0
  main_all (t ∷ starts) at =
      let (exit, (at', log)) = main k c t.sys t.faults t.random t.now cfg t.events at in
      count is_registered log + main_all starts at'

  -- Once its file has a device, which a load reads that can open the file, an agent registers none,
  -- however often it is started, whatever its calls answer and whichever calls of the file system fail
  -- in each start, where the load of the file can open it.
  pub main_all-kept :
      StateLaws c
      → (starts : List (Start World Body)) (d : Disk c.Document) (w : World) (f : DiskFault)
        (r : DeviceRegistrationResponse)
      → All CanOpen starts
      → load c f cfg.state_path d ≡ value r
      → main_all starts (d, w) ≡ 0
  unfolding main_all
  main_all-kept L [] d w f r o l = refl
  main_all-kept L (t ∷ starts) d w f r (o, os) l =
      let here = load-open c f t.faults.loading cfg.state_path d r o l in
      let (n, (r', l')) =
        main-kept k c L t.sys t.faults t.random t.now cfg t.events d w o (r, here) in
      let (exit, ((d', w'), log)) = main k c t.sys t.faults t.random t.now cfg t.events (d, w) in
      omega (arith, n, main_all-kept L starts d' w' t.faults.loading r' os l')
