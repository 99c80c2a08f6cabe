-- ===== src/Agent/Upgrade.antt =====
-- internal/agent/tcp_relay.go, dialRelayUpgrade and bufferedConn: the address that is dialled, the
-- request, and the reading of the answer, after which the connection carries the relay's bytes. What
-- comes from the other side is one text.
pub mod Stream
pub mod Address
mod Tests
use Prim.Native.Char.{Char, code}
use Prim.Native.String.{◌++◌ as append}
use linkbit.Prelude.{
  ℕ, zero, suc, String, Bool, true, false, ◌&&◌, ◌||◌, Option, none, some, eqb, ◌==◌, if◌then◌else◌,
}
use linkbit.Net.{contains_char, join_host_port}
use linkbit.Agent.Client.{HttpRegistrationClient, lacks_address}
use linkbit.Agent.Outcome.{Outcome, value, failure}

-- `base.Host`, or that with the port of the scheme.
unfoldable pub dial_address : String → String → String
unfolding contains_char join_host_port
dial_address scheme host =
    if contains_char b':' host
    then host
    else join_host_port host (if scheme == "https" then "443" else "80")

-- fmt.Sprintf with the path, the host, and the two headers.
unfoldable pub upgrade_request : HttpRegistrationClient → String → String → String
upgrade_request c request_path host = append "GET " (
    append request_path (
      append " HTTP/1.1\r\nHost: " (
        append host (
          append "\r\nConnection: Upgrade\r\nUpgrade: linkbit-relay\r\nX-Linkbit-Device-ID: " (
            append c.device_id
              (append "\r\nX-Linkbit-Device-Token: " (append c.device_token "\r\n\r\n")))))))

-- `url.PathEscape` and `url.QueryEscape` are arguments.
unfoldable pub attach_path : String → String → String → String
attach_path side session_id query = append "/api/v1/relay/" (append side (append session_id query))

unfoldable pub client_path :
    (String → String) → (String → String) → HttpRegistrationClient → String → String
unfolding attach_path
client_path path_escape query_escape c session_id =
    attach_path "client/" (path_escape session_id)
      (append "?sourceDeviceId=" (query_escape c.device_id))

unfoldable pub agent_path :
    (String → String) → (String → String) → HttpRegistrationClient → String → String
unfolding attach_path
agent_path path_escape query_escape c session_id =
    attach_path "agent/" (path_escape session_id) (append "?deviceId=" (query_escape c.device_id))

-- `reader.ReadString('\n')`: the text up to a line feed and with it, and what follows; none at the end
-- of the stream.
unfoldable pub read_string : String → Option (String × String)
read_string String.[] = none
read_string (String.◌∷◌ c s) =
    let later = read_string s in
    if eqb (code c) 10
    then some (String.◌∷◌ c String.[], s)
    else elim later [ none ↦ none | some (line, rest) ↦ some (String.◌∷◌ c line, rest) ]

-- strings.Contains
abbrev pub starts_with : String → String → Bool
starts_with String.[] s = true
starts_with (String.◌∷◌ c p) String.[] = false
starts_with (String.◌∷◌ c p) (String.◌∷◌ d s) = eqb (code c) (code d) && starts_with p s

unfoldable pub contains_text : String → String → Bool
contains_text p String.[] = starts_with p String.[]
contains_text p (String.◌∷◌ c s) = starts_with p (String.◌∷◌ c s) || contains_text p s

-- The loop over the headers. `fuel` bounds the number of lines, which is that of the text at most.
unfoldable pub skip_headers : ℕ → String → Option String
unfolding read_string
skip_headers zero s = none
skip_headers (suc fuel) s = elim (read_string s) [
  | none ↦ none
  | some (line, rest) ↦
      let later = skip_headers fuel rest in if line == "\r\n" then some rest else later
]

abbrev pub text_length : String → ℕ
text_length String.[] = 0
text_length (String.◌∷◌ c s) = suc (text_length s)

pub data UpgradeError : Type 0 where
  credentials_required url_invalid dial_failed write_failed stream_ended not_upgraded : UpgradeError

-- What follows the writing of the request: the bytes that the connection has from then on.
unfoldable pub read_answer : String → Outcome UpgradeError String
unfolding read_string contains_text skip_headers
read_answer stream = elim (read_string stream) [
  | none ↦ failure stream_ended
  | some (status_line, rest) ↦
      if contains_text "101" status_line
      then elim (skip_headers (text_length rest) rest) [
        | none ↦ failure stream_ended
        | some bytes ↦ value bytes
      ]
      else failure not_upgraded
]

-- The url is none where it does not parse, else its scheme and host. `dial` tells whether the address
-- answers (and, for https, shakes hands), `write` whether the request is written, and `stream` is what
-- is then sent.
unfoldable pub dial_relay_upgrade :
    Option (String × String)
    → (String → Bool)
    → (String → Bool)
    → String
    → HttpRegistrationClient
    → String
    → Outcome UpgradeError String
unfolding dial_address upgrade_request read_answer
dial_relay_upgrade url dial write stream c request_path =
    if lacks_address c then failure credentials_required else elim url [
      | none ↦ failure url_invalid
      | some (scheme, host) ↦
          if dial (dial_address scheme host)
          then (if write (upgrade_request c request_path host)
              then read_answer stream
              else failure write_failed)
          else failure dial_failed
    ]

-- The reader's buffer, and what the connection has not given to it.
pub record BufferedConn : Type 0 where
  pub buffered : String
  pub conn : String

-- Up to `n` bytes from the front of a text, and the rest.
abbrev pub cut : ℕ → String → String × String
cut zero s = (String.[], s)
cut (suc n) String.[] = (String.[], String.[])
cut (suc n) (String.◌∷◌ c s) = let (taken, rest) = cut n s in (String.◌∷◌ c taken, rest)

-- `p` has room for `n` bytes.
unfoldable pub read : ℕ → BufferedConn → String × BufferedConn
read n c =
    if eqb (text_length c.buffered) 0
    then (let (taken, rest) = cut n c.conn in (taken, record c { conn = rest }))
    else (let (taken, rest) = cut n c.buffered in (taken, record c { buffered = rest }))
