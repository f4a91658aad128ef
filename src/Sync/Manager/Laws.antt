-- ===== src/Sync/Manager/Laws.antt =====
-- aw-sync-rust/src/manager.rs and endpoints.rs: what two devices have after they paired.
use Prim.{tt}
use aw_server_plus.Prelude.{
  ◌≡◌, refl, sym, ap, ◌∙◌, subst, String, Option, none, some, List, ◌==◌, string_eq, true, false,
  ◌||◌, lookup, lookup-put, Bool-cases, Option-cases, inl, inr,
}
use aw_server_plus.Sync.Storage.{
  Device, DeviceRow, SyncDb, Clock, find_device, update_device, upsert_row,
}
use aw_server_plus.Sync.Storage.Devices.{
  option_map, row_to_device, device_row, device_updated, upsert_device, get_device,
  get_device_secret, set_device_secret, set_paired,
}
use aw_server_plus.Sync.Storage.Tables.{
  find_device-upsert_row, upsert_at, find_device-update_device, change_at,
}
use aw_server_plus.Sync.Discovery.Laws.{Has, Has-upsert_row}
use aw_server_plus.Sync.Manager.{
  SyncManager, secret_ok, adopt_incoming_secret, absorb_secret_from, save_device, with_existing,
  refresh_peer_from_handshake, absorb_device, absorb_peer_from, mark_paired, with_outgoing_secret,
  pair_confirm, confirm_pair_with,
}

-- A row that was upserted is there.
Has-upserted :
    (rows : List DeviceRow) (inserted : DeviceRow) (f : DeviceRow → DeviceRow) (id : String)
    → ((r : DeviceRow) → (f r).id ≡ r.id)
    → inserted.id ≡ id
    → Has (upsert_row rows inserted f) id (λ _. Unit)
Has-upserted rows inserted f id same e =
    subst (λ k. Has (upsert_row rows inserted f) k (λ _. Unit)) e
      (elim (Option-cases (find_device rows inserted.id)) [
        | inl unknown ↦ (
          inserted,
          (
            find_device-upsert_row rows inserted f inserted.id same
                ∙ rw (upsert_at, (string_eq.beq_iff inserted.id inserted.id).1 refl, unknown) refl,
            tt,
          ),
        )
        | inr (row, known) ↦ (
          f row,
          (
            find_device-upsert_row rows inserted f inserted.id same
                ∙ rw (upsert_at, (string_eq.beq_iff inserted.id inserted.id).1 refl, known) refl,
            tt,
          ),
        )
      ])

Has-paired :
    (rows : List DeviceRow) (id : String)
    → Has rows id (λ _. Unit)
    → Has (update_device rows id (λ row. record row { paired = true })) id (λ r. r.paired ≡ true)
Has-paired rows id (row, (found, _)) = (
  record row { paired = true },
  (
    find_device-update_device rows id (λ r. record r { paired = true }) id (λ r. refl)
        ∙ rw (change_at, (string_eq.beq_iff id id).1 refl, found) refl,
    refl,
  ),
)

with_existing-id : (o : Option Device) (d : Device) → (with_existing o d).id ≡ d.id
unfolding with_existing
with_existing-id none d = refl
with_existing-id (some existing) d = refl

Has-refresh :
    (clock : Clock) (dev : Device) (m : SyncManager)
    → Has (refresh_peer_from_handshake clock dev m).db.devices dev.id (λ _. Unit)
unfolding refresh_peer_from_handshake save_device upsert_device device_row device_updated
Has-refresh clock dev m =
    let d =
      with_existing (get_device m.db dev.id)
        (record dev { is_self = false; device_secret = none }) in
    Has-upserted m.db.devices (device_row clock d) (device_updated clock d) dev.id (λ r. refl)
      (with_existing-id (get_device m.db dev.id)
        (record dev { is_self = false; device_secret = none }))

-- Whoever confirms a pairing is paired, and shares with this device the key of the answer.
pub pair_confirm_lem :
    (clock : Clock) (generated : String) (machine : Option String) (self_device dev : Device)
    (m : SyncManager)
    → (get_device_secret (pair_confirm clock generated machine self_device dev m).1.db dev.id
        ≡ (pair_confirm clock generated machine self_device dev m).0.device_secret)
      × Has
          (pair_confirm clock generated machine self_device dev m).1.db.devices
          dev.id
          (λ r. r.paired ≡ true)
unfolding pair_confirm adopt_incoming_secret mark_paired set_paired set_device_secret
    get_device_secret
pair_confirm_lem clock generated machine self_device dev m = (
  lookup-put
      (refresh_peer_from_handshake clock (record dev { device_secret = none; is_self = false })
        m).db.secrets
      dev.id _,
  Has-paired _ dev.id (Has-refresh clock (record dev { device_secret = none; is_self = false }) m),
)

adopted-secret_ok :
    (generated peer_id : String) (offered : Option String) (m : SyncManager)
    → secret_ok generated ≡ true
    → secret_ok (adopt_incoming_secret generated peer_id offered m).0 ≡ true
unfolding adopt_incoming_secret
adopted-secret_ok generated peer_id none m h = h
adopted-secret_ok generated peer_id (some s) m h = elim (Bool-cases (secret_ok s)) [
  | inl valid ↦ rw (valid) valid
  | inr invalid ↦ rw (invalid) h
]

absorb_device-secrets :
    (clock : Clock) (o : Option Device) (m : SyncManager)
    → (absorb_device clock o m).db.secrets ≡ m.db.secrets
unfolding absorb_device refresh_peer_from_handshake save_device upsert_device
absorb_device-secrets clock none m = refl
absorb_device-secrets clock (some dev) m = elim (Bool-cases (dev.id == "" || dev.id == m.self_id)) [
  | inl skipped ↦ rw (absorb_device, skipped) refl
  | inr taken ↦ rw (absorb_device, taken) refl
]

Has-absorb_device :
    (clock : Clock) (o : Option Device) (m : SyncManager) (id : String)
    → Has m.db.devices id (λ _. Unit)
    → Has (absorb_device clock o m).db.devices id (λ _. Unit)
unfolding absorb_device refresh_peer_from_handshake save_device upsert_device device_row
    device_updated
Has-absorb_device clock none m id h = h
Has-absorb_device clock (some dev) m id h =
    elim (Bool-cases (dev.id == "" || dev.id == m.self_id)) [
      | inl skipped ↦ rw (absorb_device, skipped) h
      | inr taken ↦
          let d =
            with_existing (get_device m.db dev.id)
              (record dev { is_self = false; device_secret = none }) in
          rw (absorb_device, taken)
            (Has-upsert_row (λ _. Unit) m.db.devices (device_row clock d) id
              (device_updated clock d) (λ r. refl) (λ _ _ u. u) h)
    ]

absorb_secret_from_valid :
    (peer_id s : String) (m : SyncManager)
    → secret_ok s ≡ true
    → absorb_secret_from peer_id (some s) m ≡ record m { db = set_device_secret peer_id s m.db }
unfolding absorb_secret_from
absorb_secret_from_valid peer_id s m h = rw (absorb_secret_from, h) refl

Has-get_device :
    (id : String) (known : Device) (db : SyncDb)
    → get_device db id ≡ some known
    → Has db.devices id (λ _. Unit)
unfolding get_device
Has-get_device id known db found = elim (Option-cases (find_device db.devices id)) [
  | inl unknown ↦ cc (sym (ap (option_map row_to_device) unknown) ∙ found)
  | inr (row, here) ↦ (row, (here, tt))
]

-- What a manager has after it read an answer with a usable key from a device that it knows.
confirm_pair_with_lem :
    (clock : Clock) (peer_id s : String) (me peer : Option Device) (known : Device)
    (m : SyncManager)
    → get_device m.db peer_id ≡ some known
    → secret_ok s ≡ true
    → let after =
        confirm_pair_with clock peer_id
          (record { device_secret = some s; me = me; peer = peer })
          m in
      (get_device_secret after.db peer_id ≡ some s)
      × Has after.db.devices peer_id (λ r. r.paired ≡ true)
unfolding confirm_pair_with absorb_peer_from mark_paired set_paired set_device_secret
    get_device_secret get_device
confirm_pair_with_lem clock peer_id s me peer known m found valid =
    let keyed : SyncManager = record m { db = set_device_secret peer_id s m.db } in
    let had : Has m.db.devices peer_id (λ _. Unit) = Has-get_device peer_id known m.db found in
    rw (confirm_pair_with, found, absorb_secret_from_valid peer_id s m valid)
      (
        ap (λ secrets. lookup secrets peer_id)
              (absorb_device-secrets clock peer (absorb_device clock me keyed)
                ∙ absorb_device-secrets clock me keyed)
            ∙ lookup-put m.db.secrets peer_id s,
        Has-paired _ peer_id (
            Has-absorb_device clock peer (absorb_device clock me keyed) peer_id
              (Has-absorb_device clock me keyed peer_id had)),
      )

-- When a device confirms a pairing with one that it knows, whatever was before on either side, both
-- have the same key for each other, and each has the other paired, by the ids that they say: where
-- the generator gives keys that are well formed.
pub confirm_pair_with-pair_confirm :
    (clock : Clock) (generated : String) (machine other_machine : Option String)
    (mine theirs known : Device) (b a : SyncManager)
    → secret_ok generated ≡ true
    → get_device b.db theirs.id ≡ some known
    → let (answer, a_after) =
        pair_confirm clock generated machine theirs (with_outgoing_secret other_machine mine b) a in
      let b_after = confirm_pair_with clock theirs.id answer b in
      (key : String) × ((get_device_secret a_after.db mine.id ≡ some key)
        × ((get_device_secret b_after.db theirs.id ≡ some key)
            × (Has a_after.db.devices mine.id (λ r. r.paired ≡ true)
                × Has b_after.db.devices theirs.id (λ r. r.paired ≡ true))))
unfolding pair_confirm with_outgoing_secret
confirm_pair_with-pair_confirm clock generated machine other_machine mine theirs known b a ok
      found =
    let wire = with_outgoing_secret other_machine mine b in
    let confirmed = pair_confirm_lem clock generated machine theirs wire a in
    let refreshed =
      refresh_peer_from_handshake clock (record wire { device_secret = none; is_self = false }) a in
    let key = (adopt_incoming_secret generated mine.id wire.device_secret refreshed).0 in
    let read =
      confirm_pair_with_lem clock theirs.id key
        (pair_confirm clock generated machine theirs wire a).0.me none known b found
        (adopted-secret_ok generated mine.id wire.device_secret refreshed ok) in
    (key, (confirmed.0, (read.0, (confirmed.1, read.1))))
