-- ===== src/Rid/Application/Areas.antt =====
-- pkg/rid/application/isa.go
use inter_uss_platform.Base.{String, not, Option, none, some, List, str_eq, is_some, if◌then◌else◌}
use inter_uss_platform.Base.Action.{
  Result, ok, err, Action, pure, fail_if, lift, transact, ◌>>=◌, ◌>>◌,
}
use inter_uss_platform.Errors.{Code, Fault, coded}
use inter_uss_platform.Models.Times.{Time, before}
use inter_uss_platform.Models.Platform.{Platform, CellUnion}
use inter_uss_platform.Models.Versions.{Version, matches}
use inter_uss_platform.Rid.Models.{IdentificationServiceArea, Subscription, adjust_isa_time_range}
use inter_uss_platform.Rid.Store.{Db, Tx}
use inter_uss_platform.Rid.Store.Areas.{get_isa, insert_isa, update_isa, delete_isa, search_isas}
use inter_uss_platform.Rid.Store.Subscriptions.{update_notification_idxs_in_cells}

-- The area that has to be there.
unfoldable pub found : Option IdentificationServiceArea → Result Fault IdentificationServiceArea
found none = err (coded Code.not_found)
found (some isa) = ok isa

-- The checks of a deletion, in their order.
unfoldable pub check_deletable :
    Option Version → String → IdentificationServiceArea → Action Db Fault (Unit {0})
check_deletable version owner old =
    fail_if (not (matches version old.version)) (coded Code.version_mismatch)
    >> fail_if (not (str_eq old.owner owner)) (coded Code.permission_denied)

-- The checks of an update, in their order.
unfoldable pub check_updatable :
    IdentificationServiceArea → IdentificationServiceArea → Action Db Fault (Unit {0})
check_updatable isa old =
    fail_if (not (str_eq old.owner isa.owner)) (coded Code.permission_denied)
    >> fail_if (not (matches old.version isa.version)) (coded Code.version_mismatch)

-- `earliest` is not before the present.
unfoldable pub earliest_from : Time → Option Time → Time
earliest_from now none = now
earliest_from now (some t) = if before t now then now else t

-- `SearchISAs`
unfoldable pub search_isas_from :
    Time → CellUnion → Option Time → Option Time → Action Db Fault (List IdentificationServiceArea)
search_isas_from now cells earliest latest = search_isas cells (earliest_from now earliest) latest

module _ (env : Platform) (tx : Tx) where
  -- The action of the transaction of `DeleteISA`.
  unfoldable pub delete_isa_action :
      String
      → String
      → Option Version
      → Action Db Fault (Option IdentificationServiceArea × List Subscription)
  delete_isa_action id owner version = do
    read ← get_isa id
    old ← lift (found read)
    check_deletable version owner old
    ret ← delete_isa old
    subs ← update_notification_idxs_in_cells tx old.cells
    pure (ret, subs)

  -- The action of the transaction of `InsertISA`, with the time range adjusted.
  unfoldable pub insert_isa_action :
      IdentificationServiceArea
      → Action Db Fault (Option IdentificationServiceArea × List Subscription)
  insert_isa_action isa = do
    old ← get_isa isa.id
    fail_if (is_some old) (coded Code.already_exists)
    subs ← update_notification_idxs_in_cells tx isa.cells
    ret ← insert_isa env tx isa
    pure (ret, subs)

  -- `InsertISA`
  unfoldable pub insert_isa_app :
      Time
      → IdentificationServiceArea
      → Action Db Fault (Option IdentificationServiceArea × List Subscription)
  insert_isa_app now isa = do
    adjusted ← lift (adjust_isa_time_range now none isa)
    transact (insert_isa_action adjusted)

  -- The action of the transaction of `UpdateISA`. The cells to notify are those before and after,
  -- brought to one level by `geo.Levelify`.
  unfoldable pub update_isa_action :
      Time
      → IdentificationServiceArea
      → Action Db Fault (Option IdentificationServiceArea × List Subscription)
  update_isa_action now isa = do
    read ← get_isa isa.id
    old ← lift (found read)
    check_updatable isa old
    adjusted ← lift (adjust_isa_time_range now (some old) isa)
    ret ← update_isa env tx adjusted
    subs ←
        update_notification_idxs_in_cells tx (env.denormalize (env.cell_union old.cells isa.cells))
    pure (ret, subs)

  -- `UpdateISA`
  unfoldable pub update_isa_app :
      Time
      → IdentificationServiceArea
      → Action Db Fault (Option IdentificationServiceArea × List Subscription)
  update_isa_app now isa = transact (update_isa_action now isa)

  -- `DeleteISA`
  unfoldable pub delete_isa_app :
      String
      → String
      → Option Version
      → Action Db Fault (Option IdentificationServiceArea × List Subscription)
  delete_isa_app id owner version = transact (delete_isa_action id owner version)
