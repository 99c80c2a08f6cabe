-- ===== src/Agent/Upgrade/Stream.antt =====
-- internal/agent/tcp_relay.go: no byte of the relay is lost in the reading of the answer.
use Prim.Native.String.{◌++◌ as append}
use mathlib.Core.Path.{subst}
use text.Mathlib.TextLemmas.{nil-append, cons-append, append_assoc}
use linkbit.Prelude.{
  ℕ, zero, suc, ◌+◌, ◌<◌, ◌≡◌, refl, sym, ap, ◌∙◌, inl, inr, String, true, false, some, List, [],
  ◌∷◌, eqb, All, length, ◌==◌, eq_iff, Bool-cases, arith,
}
use linkbit.Net.{contains_char}
use linkbit.Agent.Outcome.{value}
use linkbit.Agent.Upgrade.{
  read_string, contains_text, skip_headers, text_length, read_answer, BufferedConn, cut, read,
}

-- A line with its end before a text.
abbrev pub line_before : String → String → String
line_before h rest = append h (String.◌∷◌ "\r" (String.◌∷◌ "\n" rest))

-- Header lines, the empty line, and what follows.
abbrev pub headed : List String → String → String
headed [] bytes = line_before "" bytes
headed (h ∷ headers) bytes = line_before h (headed headers bytes)

-- A header line is not empty and has no line feed in it.
abbrev pub IsHeader : String → Type 0
IsHeader h = (contains_char b'\n' h ≡ false) × (0 < text_length h)

read_string-line :
    (h rest : String)
    → contains_char b'\n' h ≡ false
    → read_string (line_before h rest) ≡ some (append h "\r\n", rest)
unfolding read_string contains_char
read_string-line String.[] rest n =
    rw (nil-append (String.◌∷◌ "\r" (String.◌∷◌ "\n" rest)), nil-append "\r\n") refl
read_string-line (String.◌∷◌ c h) rest n =
    rw
      (
        cons-append c h (String.◌∷◌ "\r" (String.◌∷◌ "\n" rest)),
        cons-append c h "\r\n",
        read_string,
      )
      (ground (arith, read_string-line h rest))

text_length-append : (s t : String) → text_length (append s t) ≡ text_length s + text_length t
text_length-append String.[] t = rw (nil-append t) (omega arith)
text_length-append (String.◌∷◌ c s) t =
    rw (cons-append c s t) (omega (arith, text_length-append s t))

header-not_empty : (h : String) → 0 < text_length h → append h "\r\n" == "\r\n" ≡ false
header-not_empty h p = elim (Bool-cases (append h "\r\n" == "\r\n")) [
  | inr e ↦ e
  | inl e ↦
      let same : text_length (append h "\r\n") ≡ 2 = ap text_length ((eq_iff _ "\r\n").0 e) in
      absurd (omega (arith, text_length-append h "\r\n", same, p))
]

skip-last :
    (fuel : ℕ) (s line rest : String)
    → read_string s ≡ some (line, rest)
    → line == "\r\n" ≡ true
    → skip_headers (suc fuel) s ≡ some rest
unfolding skip_headers
skip-last fuel s line rest r e = rw (skip_headers, r, e) refl

skip-next :
    (fuel : ℕ) (s line rest : String)
    → read_string s ≡ some (line, rest)
    → line == "\r\n" ≡ false
    → skip_headers (suc fuel) s ≡ skip_headers fuel rest
unfolding skip_headers
skip-next fuel s line rest r e = rw (skip_headers, r, e) refl

skip-bytes :
    (headers : List String) (fuel : ℕ) (bytes : String)
    → All IsHeader headers
    → length headers < fuel
    → skip_headers fuel (headed headers bytes) ≡ some bytes
unfolding contains_char
skip-bytes headers zero bytes h l = absurd (omega (arith, l))
skip-bytes [] (suc fuel) bytes h l =
    skip-last fuel (headed [] bytes) (append "" "\r\n") bytes (read_string-line "" bytes refl) refl
skip-bytes (x ∷ headers) (suc fuel) bytes ((n, p), hs) l =
    skip-next fuel (headed (x ∷ headers) bytes) (append x "\r\n") (headed headers bytes)
      (read_string-line x (headed headers bytes) n) (header-not_empty x p)
    ∙ skip-bytes headers fuel bytes hs (omega (arith, l))

line-length :
    (h rest : String) → text_length (line_before h rest) ≡ text_length h + text_length rest + 2
line-length h rest = omega (arith, text_length-append h (String.◌∷◌ "\r" (String.◌∷◌ "\n" rest)))

headed-length :
    (headers : List String) (bytes : String) → length headers < text_length (headed headers bytes)
headed-length [] bytes = omega (arith, line-length "" bytes)
headed-length (h ∷ headers) bytes =
    omega (arith, line-length h (headed headers bytes), headed-length headers bytes)

-- An answer with 101 in its status line, any header lines and an empty line leaves the connection with
-- exactly the bytes that follow.
pub read_answer-headed :
    (status : String) (headers : List String) (bytes : String)
    → contains_char b'\n' status ≡ false
    → contains_text "101" (append status "\r\n") ≡ true
    → All IsHeader headers
    → read_answer (line_before status (headed headers bytes)) ≡ value bytes
unfolding read_answer
read_answer-headed status headers bytes n c h =
    rw
      (
        read_answer,
        read_string-line status (headed headers bytes) n,
        c,
        skip-bytes headers (text_length (headed headers bytes)) bytes h
            (headed-length headers bytes),
      )
      refl

append-cut : (n : ℕ) (s : String) → append (cut n s).0 (cut n s).1 ≡ s
append-cut zero s = nil-append s
append-cut (suc n) String.[] = nil-append String.[]
append-cut (suc n) (String.◌∷◌ c s) =
    cons-append c (cut n s).0 (cut n s).1 ∙ ap (String.◌∷◌ c) (append-cut n s)

-- What the connection still gives.
abbrev pub remaining : BufferedConn → String
remaining c = append c.buffered c.conn

-- Reads one after another, and the text that they give.
unfoldable pub read_all : List ℕ → BufferedConn → String × BufferedConn
unfolding read
read_all [] c = (String.[], c)
read_all (n ∷ ns) c =
    let (taken, c') = read n c in let (later, c'') = read_all ns c' in (append taken later, c'')

text_length-empty : (s : String) → eqb (text_length s) 0 ≡ true → s ≡ String.[]
text_length-empty String.[] h = refl
text_length-empty (String.◌∷◌ c s) h = ground arith

read-remaining :
    (n : ℕ) (c : BufferedConn) → append (read n c).0 (remaining (read n c).1) ≡ remaining c
unfolding read
read-remaining n c = elim (Bool-cases (eqb (text_length c.buffered) 0)) [
  | inl e ↦
      let (taken, rest) = cut n c.conn in
      let empty : c.buffered ≡ String.[] = text_length-empty c.buffered e in
      let plain : append taken (append String.[] rest) ≡ append String.[] c.conn =
        ap (append taken) (nil-append rest) ∙ append-cut n c.conn ∙ sym (nil-append c.conn) in
      rw e (subst (λ b. append taken (append b rest) ≡ append b c.conn) (sym empty) plain)
  | inr e ↦
      let (taken, rest) = cut n c.buffered in
      rw e
        (sym (append_assoc taken rest c.conn) ∙ ap (λ z. append z c.conn) (append-cut n c.buffered))
]

-- Whatever sizes it is read in, the connection gives first what the reader had buffered and then what
-- comes, in order, and nothing is lost or given twice.
pub read_all-remaining :
    (ns : List ℕ) (c : BufferedConn)
    → append (read_all ns c).0 (remaining (read_all ns c).1) ≡ remaining c
unfolding read_all
read_all-remaining [] c = nil-append (remaining c)
read_all-remaining (n ∷ ns) c =
    let (taken, c') = read n c in
    append_assoc taken (read_all ns c').0 (remaining (read_all ns c').1)
    ∙ ap (append taken) (read_all-remaining ns c')
    ∙ read-remaining n c
