-- ===== src/Sync/Storage/Registry/Refinement.antt =====
-- The tables of sync.db implement the registry of devices, keys and aliases.
use aw_server_plus.Prelude.{◌≡◌, refl, ap, ◌∙◌, List, [], ◌∷◌, string_eq}
use mathlib.Core.Path.{ap₂}
use aw_server_plus.Sync.Storage.{SyncDb, Clock}
use aw_server_plus.Sync.Storage.Tables.{IsKeyed}
use aw_server_plus.Sync.Storage.Registry.{SyncOp, perform, registry, perform_all, specify_all}
use aw_server_plus.Sync.Storage.Registry.Steps.{perform-specify}
use aw_server_plus.Sync.Storage.Registry.Keyed.{IsKeyed-perform}

-- In tables where each id has one row, any run of the operations on the device, key or alias of an id
-- and of the deletion of all, which does not contain the two purges by time, gives the
-- answers of the registry, and leaves tables that say what the registry says after it.
pub perform_all-refines :
    (clock : Clock) (ops : List SyncOp) (db : SyncDb)
    → IsKeyed db.devices
    → ((perform_all clock ops db).0 ≡ (specify_all clock ops (registry db)).0)
      × (registry (perform_all clock ops db).1 ≡ (specify_all clock ops (registry db)).1)
unfolding perform_all specify_all
perform_all-refines clock [] db keyed = (refl, refl)
perform_all-refines clock (op ∷ ops) db keyed =
    let step = perform-specify clock op db keyed in
    let rest =
      perform_all-refines clock ops (perform clock op db).1 (IsKeyed-perform clock op db keyed) in
    (
      ap₂ (λ a rest_answers. a ∷ rest_answers) (ap (λ p. p.0) step)
          (rest.0 ∙ ap (λ p. (specify_all clock ops p.1).0) step),
      rest.1 ∙ ap (λ p. (specify_all clock ops p.1).1) step,
    )
