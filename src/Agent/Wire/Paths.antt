-- ===== src/Agent/Wire/Paths.antt =====
-- The matching of paths, as net/http's ServeMux does it for patterns with one `{id}`.
use Prim.Native.Char.{code}
use Prim.Native.String.{◌++◌ as append}
use text.Mathlib.TextLemmas.{nil-append, cons-append}
use linkbit.Prelude.{
  ℕ, ◌≡◌, refl, String, true, false, Option, none, some, eqb, arith, if◌then◌else◌,
}
use linkbit.Net.{contains_char}

-- What comes after a prefix.
unfoldable pub strip_prefix : String → String → Option String
strip_prefix String.[] s = some s
strip_prefix (String.◌∷◌ c p) String.[] = none
strip_prefix (String.◌∷◌ c p) (String.◌∷◌ d s) =
    let rest = strip_prefix p s in if eqb (code c) (code d) then rest else none

-- The text before the first slash, and the rest from that slash on.
unfoldable pub first_segment : String → String × String
first_segment String.[] = (String.[], String.[])
first_segment (String.◌∷◌ c s) =
    let (before, after) = first_segment s in
    if eqb (code c) b'/' then (String.[], String.◌∷◌ c s) else (String.◌∷◌ c before, after)

eqb_refl : (n : ℕ) → eqb n n ≡ true
eqb_refl n = ground arith

pub strip_prefix-append : (p s : String) → strip_prefix p (append p s) ≡ some s
unfolding strip_prefix
strip_prefix-append String.[] s = rw (nil-append s) refl
strip_prefix-append (String.◌∷◌ c p) s =
    rw (cons-append c p s, strip_prefix, eqb_refl (code c), strip_prefix-append p s) refl

pub first_segment-append :
    (id tail : String)
    → contains_char b'/' id ≡ false
    → first_segment (append id (String.◌∷◌ "/" tail)) ≡ (id, String.◌∷◌ "/" tail)
unfolding first_segment contains_char
first_segment-append String.[] tail h = rw (nil-append (String.◌∷◌ "/" tail)) refl
first_segment-append (String.◌∷◌ c id) tail h =
    rw (cons-append c id (String.◌∷◌ "/" tail), first_segment)
      (ground (arith, first_segment-append id tail))
