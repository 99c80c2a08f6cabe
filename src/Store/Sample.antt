-- ===== src/Store/Sample.antt =====
-- Example data: a text form of times and of ports that has the promised laws, and empty tables.
use Prim.Native.Char.{Char, code}
use linkbit.Prelude.{
  ℕ, zero, suc, ◌≡◌, ◌≢◌, refl, ap, String, false, Option, none, some, List, [], ◌∷◌, eqb,
  if◌then◌else◌,
}
use linkbit.Prelude.Text.{is_empty}
use linkbit.Store.{Codec, Db, Fault}
use linkbit.Store.Rows.{CodecLaws}

-- A time in unary notation.
abbrev strokes : ℕ → String
strokes zero = String.[]
strokes (suc n) = String.◌∷◌ "i" (strokes n)

abbrev count : String → ℕ
count String.[] = 0
count (String.◌∷◌ c s) = suc (count s)

abbrev parse_strokes : String → Option ℕ
parse_strokes String.[] = none
parse_strokes (String.◌∷◌ c s) = some (count s)

-- A list of texts: each character behind a quote, each text before a comma.
abbrev quote : String → String → String
quote String.[] rest = String.◌∷◌ "," rest
quote (String.◌∷◌ c s) rest = String.◌∷◌ "'" (String.◌∷◌ c (quote s rest))

abbrev quoted : List String → String
quoted [] = String.[]
quoted (p ∷ ps) = quote p (quoted ps)

abbrev prepend : Char → List String → List String
prepend c [] = []
prepend c (p ∷ ps) = String.◌∷◌ c p ∷ ps

abbrev unquoted : String → List String
unquoted String.[] = []
unquoted (String.◌∷◌ t String.[]) = if eqb (code t) b',' then String.[] ∷ [] else []
unquoted (String.◌∷◌ t (String.◌∷◌ c s)) =
    let later = unquoted (String.◌∷◌ c s) in
    let rest = unquoted s in if eqb (code t) b',' then String.[] ∷ later else prepend c rest

unquoted-quote : (p rest : String) → unquoted (quote p rest) ≡ p ∷ unquoted rest
unquoted-quote String.[] String.[] = refl
unquoted-quote String.[] (String.◌∷◌ c s) = refl
unquoted-quote (String.◌∷◌ c p) rest = ap (prepend c) (unquoted-quote p rest)

unquoted-quoted : (ps : List String) → unquoted (quoted ps) ≡ ps
unquoted-quoted [] = refl
unquoted-quoted (p ∷ ps) = rw (unquoted-quote p (quoted ps), unquoted-quoted ps)

abbrev marshal_list : Option (List String) → String
marshal_list none = "n"
marshal_list (some ps) = String.◌∷◌ "[" (quoted ps)

abbrev unmarshal_list : String → Option (Option (List String))
unmarshal_list String.[] = none
unmarshal_list (String.◌∷◌ t s) = if eqb (code t) b'n' then some none else some (some (unquoted s))

abbrev pub sample_codec : Codec
sample_codec = record {
  format = λ t. String.◌∷◌ "." (strokes t);
  parse = parse_strokes;
  marshal = marshal_list;
  unmarshal = unmarshal_list;
}

count-strokes : (t : ℕ) → count (strokes t) ≡ t
count-strokes zero = refl
count-strokes (suc t) = ap suc (count-strokes t)

unmarshal-marshal_list :
    (ports : Option (List String)) → unmarshal_list (marshal_list ports) ≡ some ports
unmarshal-marshal_list none = refl
unmarshal-marshal_list (some ps) = ap (λ x. some (some x)) (unquoted-quoted ps)

dot-nonempty : (s : String) → String.◌∷◌ "." s ≢ ""
dot-nonempty s e = cc (ap is_empty e)

pub sample_laws : CodecLaws sample_codec
sample_laws = record {
  parse-format = λ t early. ap some (count-strokes t);
  format-ne-empty = λ t. dot-nonempty (strokes t);
  unmarshal-marshal = unmarshal-marshal_list;
}

abbrev pub empty_db : Db
empty_db = record {
  users = [];
  groups = [];
  relays = [];
  invitations = [];
  api_keys = [];
  devices = [];
  policies = [];
}

abbrev pub no_fault : Fault
no_fault statement = false
