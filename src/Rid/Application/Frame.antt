-- ===== src/Rid/Application/Frame.antt =====
-- Which statements only read, and which leave the subscriptions alone.
use inter_uss_platform.Base.{refl, String, Option, List, arith}
use inter_uss_platform.Base.Action.Leaves.{Leaves, leaves_rules}
use inter_uss_platform.Models.Platform.{Platform, CellUnion}
use inter_uss_platform.Models.Versions.{Version}
use inter_uss_platform.Rid.Models.{IdentificationServiceArea, Subscription}
use inter_uss_platform.Rid.Store.{SubscriptionRow, Db, Tx}
use inter_uss_platform.Rid.Store.Areas.{get_isa, insert_isa, update_isa, delete_isa}
use inter_uss_platform.Rid.Store.Subscriptions.{
  get_subscription, max_subscription_count_in_cells_by_owner,
}
use inter_uss_platform.Rid.Application.Subscriptions.{check_changeable, check_count}
use inter_uss_platform.Rid.Application.Areas.{check_deletable, check_updatable}

abbrev pub everything : Db → Db
everything db = db

abbrev pub subscriptions_of : Db → List SubscriptionRow
subscriptions_of db = db.subscriptions

module _ {T : Type 0} {part : Db → T} where
  pub get_subscription-Leaves : (id : String) → Leaves part (get_subscription id)
  unfolding get_subscription
  get_subscription-Leaves id = record { at = λ db. refl }

  pub get_isa-Leaves : (id : String) → Leaves part (get_isa id)
  unfolding get_isa
  get_isa-Leaves id = record { at = λ db. refl }

  pub max_count-Leaves :
      (tx : Tx) (cells : CellUnion) (owner : String)
      → Leaves part (max_subscription_count_in_cells_by_owner tx cells owner)
  unfolding max_subscription_count_in_cells_by_owner
  max_count-Leaves tx cells owner = search leaves_rules

  pub check_changeable-Leaves :
      (version : Option Version) (owner : String) (old : Subscription)
      → Leaves part (check_changeable version owner old)
  unfolding check_changeable
  check_changeable-Leaves version owner old = search leaves_rules

  pub check_deletable-Leaves :
      (version : Option Version) (owner : String) (old : IdentificationServiceArea)
      → Leaves part (check_deletable version owner old)
  unfolding check_deletable
  check_deletable-Leaves version owner old = search leaves_rules

  pub check_updatable-Leaves :
      (isa old : IdentificationServiceArea) → Leaves part (check_updatable isa old)
  unfolding check_updatable
  check_updatable-Leaves isa old = search leaves_rules

module _ {T : Type 0} {part : Db → T} (env : Platform) (tx : Tx) where
  pub check_count-Leaves : (s : Subscription) → Leaves part (check_count env tx s)
  unfolding check_count
  check_count-Leaves s = search (leaves_rules, max_count-Leaves)

module _ (env : Platform) (tx : Tx) where
  pub insert_isa-Leaves :
      (i : IdentificationServiceArea) → Leaves subscriptions_of (insert_isa env tx i)
  unfolding insert_isa
  insert_isa-Leaves i = record { at = λ db. ground arith }

  pub update_isa-Leaves :
      (i : IdentificationServiceArea) → Leaves subscriptions_of (update_isa env tx i)
  unfolding update_isa
  update_isa-Leaves i = record { at = λ db. ground arith }

pub delete_isa-Leaves : (i : IdentificationServiceArea) → Leaves subscriptions_of (delete_isa i)
unfolding delete_isa
delete_isa-Leaves i = record { at = λ db. refl }
