-- ===== src/Tests/Pairing.antt =====
-- Two devices that pair, over the tables of Storage.
use aw_server_plus.Prelude.{◌≡◌, refl, String, none, some, [], ◌∷◌, true, false}
use aw_server_plus.Sync.Storage.{Device, find_device}
use aw_server_plus.Sync.Storage.Devices.{get_device, get_device_secret, row_to_device}
use aw_server_plus.Sync.Discovery.Laws.{Has}
use aw_server_plus.Sync.Manager.{
  SyncManager, secret_ok, with_outgoing_secret, pair_confirm, confirm_pair_with,
  has_inbound_pair_request,
}
use aw_server_plus.Sync.Manager.Laws.{confirm_pair_with-pair_confirm}
use aw_server_plus.Tests.Storage.{clock, laptop, new_row, db}

abbrev generated : String
generated = "0123456789abcdef0123456789abcdef0123456789abcdef0123456789abcdef"

-- The device that confirms knows the laptop, which knows nobody.
abbrev desk : SyncManager
desk = record { self_id = "desk"; db = db; inbound_pair_requests = ("new", laptop) ∷ [] }

abbrev away : SyncManager
away = record {
  self_id = "new";
  db = record { devices = []; secrets = []; aliases = []; codes = [] };
  inbound_pair_requests = [];
}

abbrev desk_device : Device
desk_device = record laptop { id = "desk"; is_self = true; paired = false }

-- A key that is not of 64 hexadecimal digits is refused, and the other device did not ask.
short_run : secret_ok "0123" ≡ false
unfolding secret_ok
short_run = refl

unasked_run : has_inbound_pair_request "desk" away ≡ false
unfolding has_inbound_pair_request
unasked_run = refl

confirm_pair_with-pair_confirm_example :
    let (answer, a_after) =
      pair_confirm clock generated none laptop (with_outgoing_secret none desk_device desk) away in
    let b_after = confirm_pair_with clock "new" answer desk in
    (key : String) × ((get_device_secret a_after.db "desk" ≡ some key)
      × ((get_device_secret b_after.db "new" ≡ some key)
          × (Has a_after.db.devices "desk" (λ r. r.paired ≡ true)
              × Has b_after.db.devices "new" (λ r. r.paired ≡ true))))
unfolding secret_ok get_device find_device row_to_device
confirm_pair_with-pair_confirm_example =
    confirm_pair_with-pair_confirm clock generated none none desk_device laptop
      (row_to_device new_row) desk away refl refl
