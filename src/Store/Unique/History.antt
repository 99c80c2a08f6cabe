-- ===== src/Store/Unique/History.antt =====
-- Every history of writes keeps the keys.
use linkbit.Prelude.{List, [], ◌∷◌}
use linkbit.Store.{Codec, Db, Fault}
use linkbit.Store.Write.{
  Write, migrates, creates_user, creates_group, creates_api_key, touches_api_key, revokes_api_key,
  creates_invitation, marks_invitation, upserts_relay, deletes_relay, heartbeats_relay,
  creates_device, deletes_device, updates_device, creates_policy, deletes_policy, write, writes,
}
use linkbit.Store.Unique.{IsKeyed}
use linkbit.Store.Unique.Accounts.{
  migrate-IsKeyed, create_user-IsKeyed, create_group-IsKeyed, create_api_key-IsKeyed,
  touch_api_key-IsKeyed, revoke_api_key-IsKeyed, create_invitation-IsKeyed,
  mark_invitation_used-IsKeyed,
}
use linkbit.Store.Unique.Network.{
  upsert_relay-IsKeyed, delete_relay-IsKeyed, heartbeat_relay-IsKeyed, create_device-IsKeyed,
  delete_device-IsKeyed, update_device_health-IsKeyed, create_policy-IsKeyed, delete_policy-IsKeyed,
}

module _ (codec : Codec) (fault : Fault) where
  -- Whichever statements fail, no method that writes gives two rows of a table one primary key, two
  -- invitations or API keys one digest, or two devices one virtual IP, if none is so at the start.
  pub write-IsKeyed : (w : Write) (db : Db) → IsKeyed db → IsKeyed (write codec fault w db)
  unfolding write
  write-IsKeyed (migrates now) = migrate-IsKeyed codec fault now
  write-IsKeyed (creates_user u) = create_user-IsKeyed codec fault u
  write-IsKeyed (creates_group g) = create_group-IsKeyed codec fault g
  write-IsKeyed (creates_api_key k) = create_api_key-IsKeyed codec fault k
  write-IsKeyed (touches_api_key id now) = touch_api_key-IsKeyed codec fault id now
  write-IsKeyed (revokes_api_key id now) = revoke_api_key-IsKeyed codec fault id now
  write-IsKeyed (creates_invitation i) = create_invitation-IsKeyed codec fault i
  write-IsKeyed (marks_invitation id now) = mark_invitation_used-IsKeyed codec fault id now
  write-IsKeyed (upserts_relay r) = upsert_relay-IsKeyed codec fault r
  write-IsKeyed (deletes_relay id) = delete_relay-IsKeyed codec fault id
  write-IsKeyed (heartbeats_relay id load now) = heartbeat_relay-IsKeyed codec fault id load now
  write-IsKeyed (creates_device d) = create_device-IsKeyed codec fault d
  write-IsKeyed (deletes_device id) = delete_device-IsKeyed codec fault id
  write-IsKeyed (updates_device id token report now) =
      update_device_health-IsKeyed codec fault id token report now
  write-IsKeyed (creates_policy p) = create_policy-IsKeyed codec fault p
  write-IsKeyed (deletes_policy id) = delete_policy-IsKeyed codec fault id

-- Whichever statements fail, no history of writes gives two rows of a table one primary key, two
-- invitations or API keys one digest, or two devices one virtual IP, if none is so at the start.
pub writes-IsKeyed :
    (codec : Codec) (ws : List (Fault × Write)) (db : Db)
    → IsKeyed db
    → IsKeyed (writes codec ws db)
unfolding writes
writes-IsKeyed codec [] db k = k
writes-IsKeyed codec ((fault, w) ∷ ws) db k =
    writes-IsKeyed codec ws (write codec fault w db) (write-IsKeyed codec fault w db k)
