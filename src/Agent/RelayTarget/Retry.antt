-- ===== src/Agent/RelayTarget/Retry.antt =====
-- internal/agent/tcp_relay.go: how often Run pauses.
use linkbit.Prelude.{
  ℕ, zero, suc, ◌≡◌, refl, ap, sym, ◌∙◌, ℤ, String, Bool, true, false, some, ◌++◌, List, [], ◌∷◌,
  eq_iff, arith,
}
use linkbit.Models.{TcpRelaySession}
use linkbit.Net.{in_port_range}
use linkbit.Agent.Outcome.{value, failure}
use linkbit.Agent.RelayTarget.{
  TcpRelayTarget, mark_active, clear_active, offer, finish, offer_all, check, Arrival, polled,
  finished, cancelled, run, dial_failed, handle,
}

-- The polls that fail before the context ends.
abbrev pub failures : List Arrival → ℕ
failures [] = 0
failures (cancelled ∷ arrivals) = 0
failures (finished id ∷ arrivals) = failures arrivals
failures (polled (failure e) ∷ arrivals) = suc (failures arrivals)
failures (polled (value sessions) ∷ arrivals) = failures arrivals

-- Run pauses after each poll that fails, and never otherwise: a session that the controller still
-- offers after its handler has failed is tried again at once, as often as that happens.
pub run-pauses :
    (arrivals : List Arrival) (t : TcpRelayTarget) → (run arrivals t).0 ≡ failures arrivals
unfolding run check
run-pauses [] t = refl
run-pauses (cancelled ∷ arrivals) t = refl
run-pauses (finished id ∷ arrivals) t = run-pauses arrivals (finish id t)
run-pauses (polled (failure e) ∷ arrivals) t = ap suc (run-pauses arrivals t)
run-pauses (polled (value sessions) ∷ arrivals) t = run-pauses arrivals (offer_all sessions t)

-- `n` times: a poll offers the session, and its handler ends before the next poll does.
abbrev pub retries : ℕ → TcpRelaySession → List Arrival
retries zero session = []
retries (suc n) session = polled (value (session ∷ [])) ∷ finished session.id ∷ retries n session

retry-same :
    (session : TcpRelaySession) (t : TcpRelayTarget)
    → t.active ≡ []
    → t.handling ≡ []
    → finish session.id (offer session t) ≡ t
unfolding offer mark_active finish clear_active
retry-same session t a h = ground (arith, eq_iff session.id session.id)

concat-nil : {A : Type 0} (l : List A) → l ++ [] ≡ l
concat-nil [] = refl
concat-nil (x ∷ l) = ap (λ r. x ∷ r) (concat-nil l)

retries-same :
    (n : ℕ) (session : TcpRelaySession) (t : TcpRelayTarget)
    → t.active ≡ []
    → t.handling ≡ []
    → (arrivals : List Arrival) → run (retries n session ++ arrivals) t ≡ run arrivals t
unfolding run check offer_all
retries-same zero session t a h arrivals = refl
retries-same (suc n) session t a h arrivals =
    ap (λ z. run (retries n session ++ arrivals) z) (retry-same session t a h)
    ∙ retries-same n session t a h arrivals

-- A session with a port from 1 to 65535, whose port refuses the connection, so that its handler fails,
-- and which the controller still offers, is handled again by the next poll after each failure, without
-- a pause, however often that has happened: after any number of failed handlers no mark is left, and
-- the next poll marks the session and starts one handler for it.
pub retries-unpaused :
    (n : ℕ) (session : TcpRelaySession) (t : TcpRelayTarget) (dial : ℤ → Bool)
    (attach : String → Bool)
    → t.active ≡ []
    → t.handling ≡ []
    → in_port_range session.target_port ≡ true
    → dial session.target_port ≡ false
    → ((handle dial attach session).0 ≡ some dial_failed)
      × (run (retries n session) t ≡ (0, t))
      × (run (retries n session ++ polled (value (session ∷ [])) ∷ []) t
          ≡ (0, record t { active = session.id ∷ []; handling = session.id ∷ [] }))
unfolding run check offer_all offer mark_active handle
retries-unpaused n session t dial attach a h p d = (
  ground arith,
  ap (λ l. run l t) (sym (concat-nil (retries n session))) ∙ retries-same n session t a h [],
  retries-same n session t a h (polled (value (session ∷ [])) ∷ []) ∙ ground arith,
)
