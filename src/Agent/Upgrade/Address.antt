-- ===== src/Agent/Upgrade/Address.antt =====
-- internal/agent/tcp_relay.go: the address that is dialled for the controller's URL.
use linkbit.Prelude.{
  ◌≡◌, refl, ap, ◌∙◌, String, false, some, inl, inr, ◌==◌, Bool-cases, if◌then◌else◌,
}
use linkbit.Net.{contains_char, split_host_port, join_host_port}
use linkbit.Net.Laws.{IsPlain, split-join}
use linkbit.Agent.Upgrade.{dial_address}

abbrev pub default_port : String → String
default_port scheme = if scheme == "https" then "443" else "80"

address-joined :
    (scheme host : String)
    → contains_char b':' host ≡ false
    → dial_address scheme host ≡ join_host_port host (default_port scheme)
unfolding dial_address
address-joined scheme host n = rw (dial_address, n) refl

port-IsPlain :
    (scheme : String)
    → IsPlain (default_port scheme) × (contains_char b':' (default_port scheme) ≡ false)
unfolding contains_char
port-IsPlain scheme = elim (Bool-cases (scheme == "https")) [
  | inl e ↦ rw e (record { opening = refl; closing = refl }, refl)
  | inr e ↦ rw e (record { opening = refl; closing = refl }, refl)
]

-- A host without a colon and without square brackets is dialled at the port of its scheme.
pub dial_address-split :
    (scheme host : String)
    → contains_char b':' host ≡ false
    → IsPlain host
    → split_host_port (dial_address scheme host) ≡ some (host, default_port scheme)
dial_address-split scheme host n p =
    ap split_host_port (address-joined scheme host n)
    ∙ split-join host (default_port scheme) p (port-IsPlain scheme).0 (port-IsPlain scheme).1
