-- ===== src/Net.antt =====
-- The parts of Go's `net` and `strconv` that the program relies on: net.SplitHostPort,
-- net.JoinHostPort and strconv.Atoi; and the two readers of addresses of the program,
-- validWireGuardEndpoint (internal/controller/server.go) and ParseRelayTarget
-- (internal/agent/tcp_relay.go). The library functions' errors are not told apart.
pub mod Laws
use Prim.Native.Char.{Char, code}
use Prim.Native.String.{◌++◌ as append}
use linkbit.Prelude.{
  ℕ, ℤ, pos, negsuc, ◌+◌, ◌-◌, ◌*◌, ◌^◌, String, Bool, true, false, not, ◌&&◌, ◌||◌, Option, none,
  some, eqb, leb, ltb, lt_ℕ, ℕ_lt, ◌==◌, if◌then◌else◌,
}
use linkbit.Prelude.Text.{is_empty}

abbrev pub is_char : ℕ → Char → Bool
is_char n c = eqb (code c) n

unfoldable pub contains_char : ℕ → String → Bool
contains_char n String.[] = false
contains_char n (String.◌∷◌ c s) = is_char n c || contains_char n s

-- The text before and behind the last colon.
unfoldable pub split_last_colon : String → Option (String × String)
split_last_colon String.[] = none
split_last_colon (String.◌∷◌ c s) =
    let rest = split_last_colon s in
    elim rest [
      | some (before, port) ↦ some (String.◌∷◌ c before, port)
      | none ↦ if is_char b':' c then some (String.[], s) else none
    ]

-- What stands before a `]` that is the last character and the only `]`.
unfoldable pub strip_bracket : String → Option String
strip_bracket String.[] = none
strip_bracket (String.◌∷◌ c s) =
    let rest = strip_bracket s in
    if is_char b']' c
    then (if is_empty s then some String.[] else none)
    else elim rest [ none ↦ none | some host ↦ some (String.◌∷◌ c host) ]

-- Neither bracket may stand in what is left.
abbrev without_brackets : String → String → Option (String × String)
without_brackets host port =
    if contains_char b'[' host || contains_char b'[' port || contains_char b']' port
    then none
    else some (host, port)

split_before : String → String → Option (String × String)
split_before String.[] port = without_brackets String.[] port
split_before (String.◌∷◌ c s) port =
    if is_char b'[' c
    then elim (strip_bracket s) [ none ↦ none | some host ↦ without_brackets host port ]
    else if contains_char b':' (String.◌∷◌ c s) || contains_char b']' (String.◌∷◌ c s)
    then none
    else without_brackets (String.◌∷◌ c s) port

unfoldable pub split_host_port : String → Option (String × String)
unfolding split_before split_last_colon strip_bracket contains_char
split_host_port hostport = elim (split_last_colon hostport) [
  | none ↦ none
  | some (before, port) ↦ split_before before port
]

-- A host with a colon, as an IPv6 address has, is put in brackets.
unfoldable pub join_host_port : String → String → String
unfolding contains_char
join_host_port host port =
    if contains_char b':' host
    then String.◌∷◌ "[" (append host (String.◌∷◌ "]" (String.◌∷◌ ":" port)))
    else append host (String.◌∷◌ ":" port)

unfoldable pub digits : ℕ → String → Option ℕ
digits value String.[] = some value
digits value (String.◌∷◌ c s) =
    if leb 48 (code c) && leb (code c) 57 then digits (value * 10 + (code c - 48)) s else none

unfoldable pub unsigned : String → Option ℕ
unfolding digits
unsigned String.[] = none
unsigned (String.◌∷◌ c s) = digits 0 (String.◌∷◌ c s)

-- The range of a 64-bit int.
unfoldable pub atoi : String → Option ℤ
unfolding unsigned
atoi String.[] = none
atoi (String.◌∷◌ c s) =
    if is_char b'-' c
    then elim (unsigned s) [
      | none ↦ none
      | some n ↦ if leb n (2 ^ 63) then some (if eqb n 0 then pos 0 else negsuc (n - 1)) else none
    ]
    else elim (unsigned (if is_char b'+' c then s else String.◌∷◌ c s)) [
      | none ↦ none
      | some n ↦ if ltb n (2 ^ 63) then some (pos n) else none
    ]

abbrev pub in_port_range : ℤ → Bool
in_port_range port = not (lt_ℕ port 1) && not (ℕ_lt 65535 port)

-- strings.ContainsAny(endpoint, " \t\r\n")
unfoldable pub has_blank : String → Bool
unfolding contains_char
has_blank s = contains_char 32 s || contains_char 9 s || contains_char 13 s || contains_char 10 s

unfoldable pub valid_wire_guard_endpoint : String → Bool
unfolding has_blank split_host_port atoi
valid_wire_guard_endpoint endpoint =
    if endpoint == ""
    then true
    else if has_blank endpoint
    then false
    else elim (split_host_port endpoint) [
      | none ↦ false
      | some (host, port_value) ↦
          if (host == "") || (port_value == "")
          then false
          else elim (atoi port_value) [ none ↦ false | some port ↦ in_port_range port ]
    ]

pub data TargetError : Type 0 where
  bad_address bad_port no_host : TargetError

pub data Target : Type 0 where
  target : String → ℤ → Target
  refused : TargetError → Target

unfoldable pub parse_relay_target : String → Target
unfolding split_host_port atoi
parse_relay_target value = elim (split_host_port value) [
  | none ↦ refused bad_address
  | some (host, port_value) ↦ elim (atoi port_value) [
    | none ↦ refused bad_port
    | some port ↦
        if in_port_range port
        then (if host == "" then refused no_host else target host port)
        else refused bad_port
  ]
]
