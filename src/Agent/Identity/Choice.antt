-- ===== src/Agent/Identity/Choice.antt =====
-- internal/agent/state.go: the keys that EnsureIdentity chooses, and that they are chosen again.
use Prim.Native.String.{◌++◌ as append}
use text.Mathlib.TextLemmas.{cons-append}
use linkbit.Prelude.Text.{is_empty}
use linkbit.Prelude.{
  ℕ, String, length, eqb, ◌≡◌, ◌≢◌, refl, sym, ap, ◌∙◌, inl, inr, true, false, Option, none, some,
  List, [], ◌∷◌, ◌==◌, if◌then◌else◌, Option-cases, Bool-cases, arith, eq_iff,
}
use linkbit.Agent.Outcome.{value, failure, value-failure}
use linkbit.Agent.State.{key_failed, AgentState}
use linkbit.Agent.Identity.{
  Identity, Crypto, take, first_non_empty, wire_guard_public_key, fingerprint_from_public_key,
  choose_private, choose_public, choose_identity, with_identity,
}

-- What base64 and Curve25519 promise: bytes have a text, and a point has bytes.
pub record CryptoLaws (k : Crypto) : Type 0 where
  pub encode-nonempty : (b : ℕ) (bytes : List ℕ) → k.encode (b ∷ bytes) == "" ≡ false
  pub x25519-nonempty : (bytes : List ℕ) → k.x25519 bytes ≢ some []

true-false : ¬ (true ≡ false)
true-false h = cc

module _ (k : Crypto) where
  choose_private-again :
      CryptoLaws k
      → (random random' : Option (List ℕ)) (given stored p : String) → random ≢ some []
      → choose_private k random (first_non_empty (given ∷ stored ∷ [])) ≡ value p
      → (first_non_empty (given ∷ p ∷ []) ≡ p) × (p == "" ≡ false)
  unfolding choose_private
  choose_private-again L none random' given stored p n h = ground arith
  choose_private-again L (some []) random' given stored p n h = absurd (n refl)
  choose_private-again L (some (b ∷ bytes)) random' given stored p n h =
      ground (arith, L.encode-nonempty b bytes)

  public-nonempty :
      CryptoLaws k → (p q : String) → wire_guard_public_key k p ≡ value q → q == "" ≡ false
  unfolding wire_guard_public_key
  public-nonempty L p q h = elim (Option-cases (k.decode p)) [
    | inl e ↦ absurd (value-failure (sym (rw (wire_guard_public_key, e) at h)))
    | inr (bytes, e) ↦ elim (Bool-cases (eqb (length bytes) 32)) [
      | inr n ↦ absurd (value-failure (sym (rw (wire_guard_public_key, e, n) at h)))
      | inl n ↦ encoded bytes (k.x25519 bytes) refl (rw (wire_guard_public_key, e, n) at h)
    ]
  ]
    where
      encoded :
          (bytes : List ℕ) (o : Option (List ℕ))
          → k.x25519 bytes ≡ o
          → elim o [ none ↦ failure key_failed | some out ↦ value (k.encode out) ] ≡ value q
          → q == "" ≡ false
      encoded bytes none x e = absurd (value-failure (sym e))
      encoded bytes (some []) x e = absurd (L.x25519-nonempty bytes x)
      encoded bytes (some (b ∷ bs)) x e = ground (arith, L.encode-nonempty b bs)

  choose_public-again :
      CryptoLaws k
      → (p given stored q : String)
      → choose_public k p (first_non_empty (given ∷ stored ∷ [])) ≡ value q
      → (first_non_empty (given ∷ q ∷ []) ≡ q) × (q == "" ≡ false)
  unfolding choose_public
  choose_public-again L p given stored q h = ground (arith, public-nonempty L p q)

  append-nonempty : (s : String) → append "lb-" s == "" ≡ false
  append-nonempty s = elim (Bool-cases (append "lb-" s == "")) [
    | inr e ↦ e
    | inl e ↦
        let empty : is_empty (append "lb-" s) ≡ true = ap is_empty ((eq_iff _ "").0 e) in
        let head : is_empty (append "lb-" s) ≡ false = ap is_empty (cons-append "l" "b-" s) in
        absurd (true-false (sym empty ∙ head))
  ]

  -- The fingerprint of `choose_identity`.
  abbrev pub choose_fingerprint : String → String → String → String
  choose_fingerprint given stored q =
      let first = first_non_empty (given ∷ stored ∷ []) in
      if first == "" then fingerprint_from_public_key k q else first

  choose_fingerprint-again :
      (given stored q : String)
      → (first_non_empty (given ∷ choose_fingerprint given stored q ∷ [])
          ≡ choose_fingerprint given stored q)
        × (choose_fingerprint given stored q == "" ≡ false)
  unfolding fingerprint_from_public_key
  choose_fingerprint-again given stored q =
      ground (arith, append-nonempty (k.encode_raw_url (take 6 (k.sum256 q))))

  -- The three choices that an identity is made of.
  pub choose-parts :
      (random : Option (List ℕ)) (given i : Identity) (s : AgentState)
      → choose_identity k random given s ≡ value i
      → (choose_private k random
            (first_non_empty (given.private_key ∷ s.wire_guard_private_key ∷ []))
          ≡ value i.private_key)
        × (choose_public k i.private_key
              (first_non_empty (given.public_key ∷ s.wire_guard_public_key ∷ []))
            ≡ value i.public_key)
        × (choose_fingerprint given.fingerprint s.fingerprint i.public_key ≡ i.fingerprint)
  unfolding choose_identity
  choose-parts random given i s h = ground arith

  choose-fixed :
      (random : Option (List ℕ)) (given i : Identity) (s : AgentState)
      → ((first_non_empty (given.private_key ∷ i.private_key ∷ []) ≡ i.private_key)
          × (i.private_key == "" ≡ false))
      → ((first_non_empty (given.public_key ∷ i.public_key ∷ []) ≡ i.public_key)
          × (i.public_key == "" ≡ false))
      → ((first_non_empty (given.fingerprint ∷ i.fingerprint ∷ []) ≡ i.fingerprint)
          × (i.fingerprint == "" ≡ false))
      → choose_identity k random given (with_identity i s) ≡ value i
  unfolding choose_identity choose_private choose_public
  choose-fixed random given i s (a, a') (b, b') (c, c') = ground arith

  -- What was chosen once is chosen again from the state that holds it, whatever the random source
  -- gives.
  pub choose-again :
      CryptoLaws k
      → (random random' : Option (List ℕ)) (given i : Identity) (s : AgentState) → random ≢ some []
      → choose_identity k random given s ≡ value i
      → choose_identity k random' given (with_identity i s) ≡ value i
  choose-again L random random' given i s n h =
      let (x, y, z) = choose-parts random given i s h in
      choose-fixed random' given i s
        (choose_private-again L random random' given.private_key s.wire_guard_private_key
          i.private_key n x)
        (choose_public-again L i.private_key given.public_key s.wire_guard_public_key i.public_key
          y)
        (rw (← z) (choose_fingerprint-again given.fingerprint s.fingerprint i.public_key))
