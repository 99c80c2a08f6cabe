-- ===== src/Store/Rows/Laws.antt =====
-- The columns and the rows, read back.
use linkbit.Prelude.{
  ℕ, ◌<◌, ◌≡◌, ◌≢◌, refl, String, Bool, true, false, Option, List, [], ◌∷◌, All, eq_iff, eqb, inl,
  inr, Bool-cases, arith,
}
use linkbit.Models.{User, DeviceGroup, RelayNode, Invitation, ApiKey, Device, NetworkPolicy}
use linkbit.Store.{Codec, ok}
use linkbit.Store.Rows.{
  CodecLaws, IsRead, bool_int, year_10000, format_time, parse_time, user_row, scan_user, group_row,
  scan_group, relay_row, scan_relay, invitation_row, scan_invitation, api_key_row, scan_api_key,
  device_row, scan_device, policy_row, scan_policy,
}

flag : (b : Bool) → eqb (bool_int b) 1 ≡ b
flag true = refl
flag false = refl

parse-read :
    (codec : Codec) (t : ℕ)
    → IsRead codec t
    → codec.format t ≢ ""
    → parse_time codec (format_time codec t) ≡ t
unfolding parse_time format_time
parse-read codec t read given = elim (Bool-cases (eqb t 0)) [
  | inl e ↦ rw e (ground arith)
  | inr e ↦ rw e (ground (arith, read, given, eq_iff (codec.format t) ""))
]

parse-early :
    (codec : Codec)
    → CodecLaws codec
    → (t : ℕ) → t < year_10000
    → parse_time codec (format_time codec t) ≡ t
parse-early codec laws t early =
    parse-read codec t (laws.parse-format t early) (laws.format-ne-empty t)

module _ (codec : Codec) (laws : CodecLaws codec) where
  -- Such a time survives its column, the zero time as the empty text.
  pub parse-format_time : (t : ℕ) → IsRead codec t → parse_time codec (format_time codec t) ≡ t
  parse-format_time t read = parse-read codec t read (laws.format-ne-empty t)

  pub scan-device_row :
      (device : Device ℕ)
      → IsRead codec device.last_seen_at
      → IsRead codec device.created_at
      → scan_device codec (device_row codec device) ≡ record device { device_token = "" }
  unfolding scan_device device_row
  scan-device_row device seen made =
      simp (parse-format_time device.last_seen_at seen, parse-format_time device.created_at made)

-- What is written to a row and read back is the same, its flags and its ports included, for times before
-- the year 10000, but for the three plain secrets, which are not stored: the token of an invitation,
-- the API key, and the token of a device.
pub scan-row :
    (codec : Codec)
    → CodecLaws codec
    → (u : User ℕ) (g : DeviceGroup ℕ) (r : RelayNode ℕ) (i : Invitation ℕ) (k : ApiKey ℕ)
      (d : Device ℕ) (p : NetworkPolicy ℕ (Option (List String)))
    → All
        (λ t. t < year_10000)
        (u.created_at ∷ g.created_at ∷ r.last_seen_at ∷ r.registered ∷ i.expires_at ∷ i.used_at
          ∷ i.created_at ∷ k.created_at ∷ k.last_used_at ∷ k.revoked_at ∷ d.last_seen_at
          ∷ d.created_at ∷ p.created_at ∷ p.updated_at ∷ [])
    → (scan_user codec (user_row codec u) ≡ u)
      × (scan_group codec (group_row codec g) ≡ g)
      × (scan_relay codec (relay_row codec r) ≡ r)
      × (scan_invitation codec (invitation_row codec i) ≡ record i { plaintext_token = "" })
      × (scan_api_key codec (api_key_row codec k) ≡ record k { plaintext_key = "" })
      × (scan_device codec (device_row codec d) ≡ record d { device_token = "" })
      × (scan_policy codec (policy_row codec p) ≡ ok p)
unfolding scan_user user_row scan_group group_row scan_relay relay_row scan_invitation
    invitation_row scan_api_key api_key_row scan_device device_row scan_policy policy_row
scan-row codec laws u g r i k d p
      (t0, (t1, (t2, (t3, (t4, (t5, (t6, (t7, (t8, (t9, (ta, (tb, (tc, (td, z)))))))))))))) =
    let read : (t : ℕ) → t < year_10000 → parse_time codec (format_time codec t) ≡ t =
      parse-early codec laws in
    (
      simp (read u.created_at t0),
      simp (read g.created_at t1),
      simp (read r.last_seen_at t2, read r.registered t3),
      simp (read i.expires_at t4, read i.used_at t5, read i.created_at t6, flag i.reusable),
      simp (read k.created_at t7, read k.last_used_at t8, read k.revoked_at t9),
      simp (read d.last_seen_at ta, read d.created_at tb),
      rw (laws.unmarshal-marshal p.ports, scan_policy)
          (simp (read p.created_at tc, read p.updated_at td, flag p.enabled)),
    )
