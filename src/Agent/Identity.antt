-- ===== src/Agent/Identity.antt =====
-- internal/agent/state.go, EnsureIdentity: the keys of a device, from the command line, from its state
-- file, or new. Base64, SHA-256 and Curve25519 are parameters.
pub mod Choice
pub mod Laws
pub mod Pairs
mod Tests
use Prim.Native.String.{◌++◌ as append}
use linkbit.Prelude.{
  ℕ, zero, suc, String, Option, none, some, List, [], ◌∷◌, length, eqb, ◌==◌, if◌then◌else◌,
}
use linkbit.Agent.Outcome.{Outcome, value, failure}
use linkbit.Agent.State.{
  StateError, key_failed, AgentState, StateCodec, Disk, DiskFault, zero_state, or_zero,
  read_agent_state, write_agent_state,
}

pub record Identity : Type 0 where
  pub private_key : String
  pub public_key : String
  pub fingerprint : String

-- `encode` and `decode` are base64.StdEncoding, `encode_raw_url` is base64.RawURLEncoding, and
-- `x25519` multiplies the base point by a scalar.
pub record Crypto : Type 0 where
  pub encode : List ℕ → String
  pub decode : String → Option (List ℕ)
  pub encode_raw_url : List ℕ → String
  pub sum256 : String → List ℕ
  pub x25519 : List ℕ → Option (List ℕ)

abbrev pub first_non_empty : List String → String
first_non_empty [] = ""
first_non_empty (v ∷ vs) = let rest = first_non_empty vs in if v == "" then rest else v

abbrev pub take {ℓ} : {A : Type ℓ} → ℕ → List A → List A
take n [] = []
take zero (x ∷ xs) = []
take (suc n) (x ∷ xs) = x ∷ take n xs

abbrev pub with_identity : Identity → AgentState → AgentState
with_identity i s = record s {
  wire_guard_private_key = i.private_key;
  wire_guard_public_key = i.public_key;
  fingerprint = i.fingerprint;
}

module _ (k : Crypto) where
  -- The bytes drawn are none where the random source fails.
  unfoldable pub generate_wire_guard_private_key : Option (List ℕ) → Outcome StateError String
  generate_wire_guard_private_key none = failure key_failed
  generate_wire_guard_private_key (some bytes) = value (k.encode bytes)

  unfoldable pub wire_guard_public_key : String → Outcome StateError String
  wire_guard_public_key private_key = elim (k.decode private_key) [
    | none ↦ failure key_failed
    | some bytes ↦
        if eqb (length bytes) 32
        then elim (k.x25519 bytes) [
          | none ↦ failure key_failed
          | some public_bytes ↦ value (k.encode public_bytes)
        ]
        else failure key_failed
  ]

  unfoldable pub fingerprint_from_public_key : String → String
  fingerprint_from_public_key public_key =
      append "lb-" (k.encode_raw_url (take 6 (k.sum256 public_key)))

  -- The private key that is used, then the public key, then the fingerprint.
  unfoldable pub choose_private : Option (List ℕ) → String → Outcome StateError String
  unfolding generate_wire_guard_private_key
  choose_private random first =
      if first == "" then generate_wire_guard_private_key random else value first

  unfoldable pub choose_public : String → String → Outcome StateError String
  unfolding wire_guard_public_key
  choose_public private_key first =
      if first == "" then wire_guard_public_key private_key else value first

  unfoldable pub choose_identity :
      Option (List ℕ) → Identity → AgentState → Outcome StateError Identity
  unfolding choose_private choose_public fingerprint_from_public_key
  choose_identity random given s =
      elim (choose_private random
        (first_non_empty (given.private_key ∷ s.wire_guard_private_key ∷ []))) [
          | failure e ↦ failure e
          | value private_key ↦
              elim (choose_public private_key
                (first_non_empty (given.public_key ∷ s.wire_guard_public_key ∷ []))) [
                  | failure e ↦ failure e
                  | value public_key ↦
                      let first = first_non_empty (given.fingerprint ∷ s.fingerprint ∷ []) in
                      value (record {
                        private_key = private_key;
                        public_key = public_key;
                        fingerprint =
                            if first == "" then fingerprint_from_public_key public_key else first;
                      })
                ]
        ]

  module _ (c : StateCodec) where
    -- The last write, which an empty path leaves out.
    unfoldable pub keep_identity :
        DiskFault
        → String
        → ℕ
        → AgentState
        → Identity
        → Disk c.Document
        → Outcome StateError Identity × Disk c.Document
    unfolding write_agent_state
    keep_identity f path now s i d =
        if path == ""
        then (value i, d)
        else let (e, d') = write_agent_state c f path now (with_identity i s) d in
          elim e [ none ↦ (value i, d') | some x ↦ (failure x, d') ]

    -- The state that is there before, the zero state where there is no path or no file.
    unfoldable pub initial_state :
        DiskFault → String → Disk c.Document → Outcome StateError AgentState
    unfolding read_agent_state or_zero
    initial_state f path d =
        if path == "" then value zero_state else or_zero (read_agent_state c f d)

    unfoldable pub ensure_identity :
        DiskFault
        → Option (List ℕ)
        → ℕ
        → String
        → Identity
        → Disk c.Document
        → Outcome StateError Identity × Disk c.Document
    unfolding initial_state choose_identity keep_identity
    ensure_identity f random now path given d = elim (initial_state f path d) [
      | failure e ↦ (failure e, d)
      | value s ↦ elim (choose_identity random given s) [
        | failure e ↦ (failure e, d)
        | value i ↦ keep_identity f path now s i d
      ]
    ]
