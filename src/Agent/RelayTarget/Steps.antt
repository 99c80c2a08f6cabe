-- ===== src/Agent/RelayTarget/Steps.antt =====
-- internal/agent/tcp_relay.go: no session is handled twice at a time.
use mathlib.Core.Path.{subst}
use linkbit.Prelude.{
  ℕ, ◌≡◌, refl, sym, ap, ◌∙◌, inl, inr, String, true, false, List, [], ◌∷◌, ◌==◌, Bool-cases, arith,
  eq_iff,
}
use linkbit.Models.{TcpRelaySession}
use linkbit.Agent.Outcome.{value, failure}
use linkbit.Agent.RelayTarget.{
  TcpRelayTarget, new_tcp_relay_target, has, without, without_one, mark_active, clear_active, offer,
  finish, offer_all, check, Arrival, polled, finished, cancelled, run,
}

-- Offers and ends of handlers, in any order.
pub data Step : TcpRelayTarget → TcpRelayTarget → Type 0 where
  offers : (session : TcpRelaySession) (t : TcpRelayTarget) → Step t (offer session t)
  finishes : (id : String) (t : TcpRelayTarget) → has id t.handling ≡ true → Step t (finish id t)

pub data Steps (t : TcpRelayTarget) : TcpRelayTarget → Type 0 where
  here : Steps t t
  next : {u v : TcpRelayTarget} → Steps t u → Step u v → Steps t v

-- The texts differ.
abbrev pub IsDistinct : List String → Type 0
IsDistinct [] = Unit
IsDistinct (x ∷ xs) = (has x xs ≡ false) × IsDistinct xs

-- The marks are those of the handlers, each of which has a session of its own.
pub record IsSingle (t : TcpRelayTarget) : Type 0 where
  pub marked : t.active ≡ t.handling
  pub distinct : IsDistinct t.handling

pub new-IsSingle : (poll : ℕ) → IsSingle (new_tcp_relay_target poll)
unfolding new_tcp_relay_target
new-IsSingle poll = record { marked = refl; distinct = tt }

offer-old :
    (session : TcpRelaySession) (t : TcpRelayTarget)
    → has session.id t.active ≡ true
    → offer session t ≡ t
unfolding offer mark_active
offer-old session t e = rw (offer, mark_active, e) refl

offer-new :
    (session : TcpRelaySession) (t : TcpRelayTarget)
    → has session.id t.active ≡ false
    → offer session t
      ≡ record t { active = session.id ∷ t.active; handling = session.id ∷ t.handling }
unfolding offer mark_active
offer-new session t e = rw (offer, mark_active, e) refl

offer-IsSingle :
    (session : TcpRelaySession) (t : TcpRelayTarget) → IsSingle t → IsSingle (offer session t)
offer-IsSingle session t h = elim (Bool-cases (has session.id t.active)) [
  | inl e ↦ subst IsSingle (sym (offer-old session t e)) h
  | inr e ↦ subst IsSingle (sym (offer-new session t e)) (record {
    marked = ap (λ z. session.id ∷ z) h.marked;
    distinct = (rw (← h.marked) e, h.distinct);
  })
]

without-absent : (id : String) (xs : List String) → has id xs ≡ false → without id xs ≡ xs
without-absent id [] h = refl
without-absent id (x ∷ xs) h = ground (arith, without-absent id xs, eq_iff x id)

without-one : (id : String) (xs : List String) → IsDistinct xs → without id xs ≡ without_one id xs
without-one id [] h = refl
without-one id (x ∷ xs) (n, h) = elim (Bool-cases (x == id)) [
  | inl e ↦ rw e (without-absent id xs (subst (λ z. has z xs ≡ false) ((eq_iff x id).0 e) n))
  | inr e ↦ rw e (ap (λ z. x ∷ z) (without-one id xs h))
]

has-without_one :
    (y id : String) (xs : List String) → has y xs ≡ false → has y (without_one id xs) ≡ false
has-without_one y id [] h = refl
has-without_one y id (x ∷ xs) h = ground (arith, has-without_one y id xs)

without_one-IsDistinct :
    (id : String) (xs : List String) → IsDistinct xs → IsDistinct (without_one id xs)
without_one-IsDistinct id [] h = tt
without_one-IsDistinct id (x ∷ xs) (n, h) = elim (Bool-cases (x == id)) [
  | inl e ↦ rw e h
  | inr e ↦ rw e (has-without_one x id xs n, without_one-IsDistinct id xs h)
]

finish-IsSingle : (id : String) (t : TcpRelayTarget) → IsSingle t → IsSingle (finish id t)
unfolding finish clear_active
finish-IsSingle id t h = record {
  marked = ap (without id) h.marked ∙ without-one id t.handling h.distinct;
  distinct = without_one-IsDistinct id t.handling h.distinct;
}

-- Whatever is offered and whichever handlers end, in any order, the marks are the ids of the handlers
-- that run, and no two handlers run for one session.
pub Steps-IsSingle :
    (poll : ℕ) (t : TcpRelayTarget) → Steps (new_tcp_relay_target poll) t → IsSingle t
Steps-IsSingle poll t here = new-IsSingle poll
Steps-IsSingle poll t (next r (offers session u)) =
    offer-IsSingle session u (Steps-IsSingle poll u r)
Steps-IsSingle poll t (next r (finishes id u h)) = finish-IsSingle id u (Steps-IsSingle poll u r)

pub offer_all-IsSingle :
    (sessions : List TcpRelaySession) (t : TcpRelayTarget)
    → IsSingle t
    → IsSingle (offer_all sessions t)
unfolding offer_all
offer_all-IsSingle [] t h = h
offer_all-IsSingle (session ∷ sessions) t h =
    offer_all-IsSingle sessions (offer session t) (offer-IsSingle session t h)

-- What Run does is such steps.
pub run-IsSingle :
    (arrivals : List Arrival) (t : TcpRelayTarget) → IsSingle t → IsSingle (run arrivals t).1
unfolding run check
run-IsSingle [] t h = h
run-IsSingle (cancelled ∷ arrivals) t h = h
run-IsSingle (finished id ∷ arrivals) t h =
    run-IsSingle arrivals (finish id t) (finish-IsSingle id t h)
run-IsSingle (polled (failure e) ∷ arrivals) t h = run-IsSingle arrivals t h
run-IsSingle (polled (value sessions) ∷ arrivals) t h =
    run-IsSingle arrivals (offer_all sessions t) (offer_all-IsSingle sessions t h)

-- A session that is offered is handled from then on, if it was not before.
pub offer-handled :
    (session : TcpRelaySession) (t : TcpRelayTarget)
    → IsSingle t
    → has session.id (offer session t).handling ≡ true
offer-handled session t h = elim (Bool-cases (has session.id t.active)) [
  | inl e ↦ rw (offer-old session t e) (rw (← h.marked) e)
  | inr e ↦ rw (offer-new session t e) (rw ((eq_iff session.id session.id).1 refl) refl)
]
