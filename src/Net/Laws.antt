-- ===== src/Net/Laws.antt =====
-- How the readers of addresses take back what net.JoinHostPort writes.
use Prim.Native.Char.{Char}
use Prim.Native.String.{◌++◌ as append}
use text.Mathlib.TextLemmas.{nil-append, cons-append, append_assoc}
use linkbit.Prelude.{
  ℕ, ℤ, ◌≡◌, ◌≢◌, refl, sym, ap, ◌∙◌, ◌↔◌, String, true, false, ◌||◌, none, some, inl, inr, arith,
  ◌==◌, eq_iff, Bool-cases, if◌then◌else◌,
}
use linkbit.Prelude.Text.{is_empty}
use linkbit.Net.{
  contains_char, split_last_colon, strip_bracket, split_before, split_host_port, join_host_port,
  atoi, in_port_range, has_blank, valid_wire_guard_endpoint, target, refused, no_host, bad_port,
  parse_relay_target,
}

no_colon-split : (port : String) → contains_char b':' port ≡ false → split_last_colon port ≡ none
unfolding contains_char split_last_colon
no_colon-split String.[] h = refl
no_colon-split (String.◌∷◌ c s) h = ground (arith, no_colon-split s)

-- In each of the lemmas below `t` stands for the text behind `s`.
contains_char-append :
    (n : ℕ) (s t : String) → contains_char n (append s t) ≡ (contains_char n s || contains_char n t)
unfolding contains_char
contains_char-append n String.[] t = rw (nil-append t)
contains_char-append n (String.◌∷◌ c s) t =
    rw (cons-append c s t, contains_char) (ground (arith, contains_char-append n s t))

split_last_colon-append :
    (before port : String)
    → contains_char b':' port ≡ false
    → split_last_colon (append before (String.◌∷◌ ":" port)) ≡ some (before, port)
unfolding split_last_colon
split_last_colon-append String.[] port h =
    rw (nil-append (String.◌∷◌ ":" port)) (rw (no_colon-split port h, split_last_colon))
split_last_colon-append (String.◌∷◌ c s) port h =
    rw (cons-append c s (String.◌∷◌ ":" port))
      (rw (split_last_colon-append s port h, split_last_colon))

strip_bracket-append :
    (host : String)
    → contains_char b']' host ≡ false
    → strip_bracket (append host (String.◌∷◌ "]" String.[])) ≡ some host
unfolding strip_bracket contains_char
strip_bracket-append String.[] h = refl
strip_bracket-append (String.◌∷◌ c s) h =
    rw (cons-append c s (String.◌∷◌ "]" String.[]))
      (rw (strip_bracket-append s (ground arith), strip_bracket) (ground arith))

-- A text that may stand in an address: without square brackets.
pub record IsPlain (s : String) : Type 0 where
  pub opening : contains_char b'[' s ≡ false
  pub closing : contains_char b']' s ≡ false

split_before-plain :
    (host port : String)
    → IsPlain host
    → IsPlain port
    → contains_char b':' host ≡ false
    → split_before host port ≡ some (host, port)
unfolding split_before contains_char
split_before-plain String.[] port h p n = ground arith
split_before-plain (String.◌∷◌ c s) port h p n = ground arith

abbrev bracketed : String → String
bracketed host = String.◌∷◌ "[" (append host (String.◌∷◌ "]" String.[]))

join-bracketed :
    (host port : String)
    → contains_char b':' host ≡ true
    → join_host_port host port ≡ append (bracketed host) (String.◌∷◌ ":" port)
unfolding join_host_port
join-bracketed host port h =
    let rest : String = String.◌∷◌ ":" port in
    rw (h, join_host_port)
      (rw
        (
          cons-append "[" (append host (String.◌∷◌ "]" String.[])) rest,
          append_assoc host (String.◌∷◌ "]" String.[]) rest,
        )
        (ap (λ t. String.◌∷◌ "[" (append host t))
          (sym (cons-append "]" String.[] rest ∙ ap (String.◌∷◌ "]") (nil-append rest)))))

split_before-bracketed :
    (host port : String)
    → IsPlain host
    → IsPlain port
    → split_before (bracketed host) port ≡ some (host, port)
unfolding split_before
split_before-bracketed host port h p =
    rw (strip_bracket-append host h.closing, split_before) (ground arith)

-- SplitHostPort takes back what JoinHostPort writes, for any host, an IPv6 address in its brackets
-- included, and any port, neither of which has a square bracket in it, and the port no colon.
pub split-join :
    (host port : String)
    → IsPlain host
    → IsPlain port
    → contains_char b':' port ≡ false
    → split_host_port (join_host_port host port) ≡ some (host, port)
unfolding split_host_port
split-join host port h p n = elim (Bool-cases (contains_char b':' host)) [
  | inl e ↦ rw (join-bracketed host port e) (
      rw (split_last_colon-append (bracketed host) port n, split_host_port)
        (split_before-bracketed host port h p))
  | inr e ↦
      unfold join_host_port in
      rw (e, join_host_port)
        (rw (split_last_colon-append host port n, split_host_port)
          (split_before-plain host port h p e))
]

-- The forwarder's target is read exactly: a host and a port in the range of ports, written as
-- JoinHostPort writes them, are what ParseRelayTarget returns, and an empty host or a port outside
-- 1 to 65535 is refused for what it is. Neither has a square bracket in it, the port has no colon and
-- is read as a number.
pub parse_relay_target-join :
    (host port : String) (n : ℤ)
    → IsPlain host
    → IsPlain port
    → contains_char b':' port ≡ false
    → atoi port ≡ some n
    → parse_relay_target (join_host_port host port) ≡ (
        if in_port_range n
        then (if host == "" then refused no_host else target host n)
        else refused bad_port)
unfolding parse_relay_target
parse_relay_target-join host port n h p c e =
    rw (split-join host port h p c, parse_relay_target) (rw (e, parse_relay_target) refl)

-- An endpoint that JoinHostPort writes, of a host and a port without square brackets, the port
-- without a colon and read as a number, passes exactly if it has no blank, the host is not empty, and
-- the number is from 1 to 65535.
pub valid-join_iff :
    (host port : String) (n : ℤ)
    → IsPlain host
    → IsPlain port
    → contains_char b':' port ≡ false
    → atoi port ≡ some n
    → (valid_wire_guard_endpoint (join_host_port host port) ≡ true)
      ↔ ((has_blank (join_host_port host port) ≡ false) × (host ≢ "") × (in_port_range n ≡ true))
unfolding valid_wire_guard_endpoint
valid-join_iff host port n h p c e =
    let address = join_host_port host port in
    let split = split-join host port h p c in
    let full : address ≢ "" = λ q. cc (split, ap split_host_port q) in
    let port_given : port ≢ "" = λ q. cc (e, ap atoi q) in
    (
      (λ v. ground (arith, split, eq_iff address "", eq_iff host "", eq_iff port "")),
      (λ v. ground (arith, split, eq_iff address "", eq_iff host "", eq_iff port "")),
    )

append-nonempty : (s t : String) (c : Char) → is_empty (append s (String.◌∷◌ c t)) ≡ false
append-nonempty String.[] t c = rw (nil-append (String.◌∷◌ c t))
append-nonempty (String.◌∷◌ d s) t c = rw (cons-append d s (String.◌∷◌ c t))

strip_bracket-two :
    (s : String)
    → contains_char b']' s ≡ true
    → strip_bracket (append s (String.◌∷◌ "]" String.[])) ≡ none
unfolding strip_bracket contains_char
strip_bracket-two String.[] h = cc
strip_bracket-two (String.◌∷◌ c s) h =
    rw (cons-append c s (String.◌∷◌ "]" String.[]))
      (ground (arith, strip_bracket-two s, append-nonempty s String.[] "]"))

-- JoinHostPort of a host that has a colon and stands in brackets already gives a text that
-- SplitHostPort refuses.
pub split-join_twice :
    (host port : String)
    → contains_char b':' host ≡ true
    → contains_char b']' host ≡ true
    → contains_char b':' port ≡ false
    → split_host_port (join_host_port host port) ≡ none
unfolding split_host_port split_before
split-join_twice host port h b n = rw (join-bracketed host port h) (
    rw (split_last_colon-append (bracketed host) port n, split_host_port)
      (rw (strip_bracket-two host b, split_before) refl))

pub contains-bracket :
    (host : String)
    → (contains_char b':' host ≡ true
        → contains_char b':'
            (append (String.◌∷◌ "[" String.[]) (append host (String.◌∷◌ "]" String.[])))
          ≡ true)
      × (contains_char b']'
            (append (String.◌∷◌ "[" String.[]) (append host (String.◌∷◌ "]" String.[])))
          ≡ true)
unfolding contains_char
contains-bracket host =
    let inner = append host (String.◌∷◌ "]" String.[]) in
    let whole = cons-append "[" String.[] inner ∙ ap (String.◌∷◌ "[") (nil-append inner) in
    (
      (λ h. rw whole (ground (arith, contains_char-append b':' host (String.◌∷◌ "]" String.[])))),
      rw whole (ground (arith, contains_char-append b']' host (String.◌∷◌ "]" String.[]))),
    )
