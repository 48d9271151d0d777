-- ===== src/Scd/Store/Frame.antt =====
-- Which statements only read, and what the others leave alone.
use inter_uss_platform.Base.{refl, String, Option, none, some, List, [], ◌∷◌, arith}
use inter_uss_platform.Base.Action.Leaves.{Leaves, leaves_rules}
use inter_uss_platform.Models.Platform.{Platform, CellUnion}
use inter_uss_platform.Scd.Models.Subscriptions.{Subscription}
use inter_uss_platform.Models.Volumes.{Volume3D, Volume4D, Geometry}
use inter_uss_platform.Scd.Store.{OperationRow, ConstraintRow, AvailabilityRow, Db, Tx}
use inter_uss_platform.Scd.Store.Subscriptions
use inter_uss_platform.Scd.Store.Subscriptions.{
  get_subscription, upsert_subscription, search_subscriptions, increment_notification_indices,
  lock_subscriptions_on_cells,
}
use inter_uss_platform.Scd.Store.OperationalIntents
use inter_uss_platform.Scd.Store.OperationalIntents.{
  get_operational_intent, search_operational_intents, get_dependent_operational_intents,
  search_footprint, search_spatial,
}
use inter_uss_platform.Scd.Store.Constraints
use inter_uss_platform.Scd.Store.Constraints.{search_constraints}

abbrev pub everything : Db → Db
everything db = db

-- The tables that no statement on subscriptions writes, but for the removal of one.
abbrev pub others : Db → List OperationRow × List ConstraintRow × List AvailabilityRow
others db = (db.operations, db.constraints, db.availabilities)

module _ (env : Platform) where
  pub get_subscription-Leaves :
      {T : Type 0} {part : Db → T} (id : String) → Leaves part (get_subscription env id)
  unfolding get_subscription
  get_subscription-Leaves id = record { at = λ db. refl }

  pub get_operational_intent-Leaves :
      {T : Type 0} {part : Db → T} (id : String) → Leaves part (get_operational_intent env id)
  unfolding get_operational_intent
  get_operational_intent-Leaves id = record { at = λ db. refl }

  pub get_dependent-Leaves :
      {T : Type 0} {part : Db → T} (id : String)
      → Leaves part (get_dependent_operational_intents env id)
  unfolding get_dependent_operational_intents
  get_dependent-Leaves id = search leaves_rules

  sub_rows-Leaves :
      {T : Type 0} {part : Db → T} (v : Volume4D) (cells : CellUnion)
      → Leaves part (Subscriptions.search_rows env v cells)
  unfolding Subscriptions.search_rows
  sub_rows-Leaves v [] = search leaves_rules
  sub_rows-Leaves v (c ∷ cells) = search leaves_rules

  pub search_subscriptions-Leaves :
      {T : Type 0} {part : Db → T} (v : Volume4D) → Leaves part (search_subscriptions env v)
  unfolding search_subscriptions
  search_subscriptions-Leaves v = search (leaves_rules, sub_rows-Leaves)

  constraint_rows-Leaves :
      {T : Type 0} {part : Db → T} (v : Volume4D) (cells : CellUnion)
      → Leaves part (Constraints.search_rows env v cells)
  unfolding Constraints.search_rows
  constraint_rows-Leaves v [] = search leaves_rules
  constraint_rows-Leaves v (c ∷ cells) = search leaves_rules

  pub search_constraints-Leaves :
      {T : Type 0} {part : Db → T} (v : Volume4D) → Leaves part (search_constraints env v)
  unfolding search_constraints
  search_constraints-Leaves v = search (leaves_rules, constraint_rows-Leaves)

  oir_rows-Leaves :
      {T : Type 0} {part : Db → T} (w : Volume3D) (v : Volume4D) (cells : CellUnion)
      → Leaves part (OperationalIntents.search_rows env w v cells)
  unfolding OperationalIntents.search_rows
  oir_rows-Leaves w v [] = search leaves_rules
  oir_rows-Leaves w v (c ∷ cells) = search leaves_rules

  oir_footprint-Leaves :
      {T : Type 0} {part : Db → T} (v : Volume4D) (w : Volume3D) (g : Option Geometry)
      → Leaves part (search_footprint env v w g)
  unfolding search_footprint
  oir_footprint-Leaves v w none = search leaves_rules
  oir_footprint-Leaves v w (some g) = search (leaves_rules, oir_rows-Leaves)

  oir_spatial-Leaves :
      {T : Type 0} {part : Db → T} (v : Volume4D) (w : Option Volume3D)
      → Leaves part (search_spatial env v w)
  unfolding search_spatial
  oir_spatial-Leaves v none = search leaves_rules
  oir_spatial-Leaves v (some w) = oir_footprint-Leaves v w w.footprint

  pub search_operational_intents-Leaves :
      {T : Type 0} {part : Db → T} (v : Volume4D) → Leaves part (search_operational_intents env v)
  unfolding search_operational_intents
  search_operational_intents-Leaves v = oir_spatial-Leaves v v.spatial_volume

  -- Writing a subscription leaves the operational intents as they are.
  pub upsert_subscription-Leaves :
      (tx : Tx) (s : Subscription) → Leaves others (upsert_subscription env tx s)
  unfolding upsert_subscription
  upsert_subscription-Leaves tx s = record { at = λ db. ground arith }

pub increment-Leaves :
    (tx : Tx) (ids : List String) → Leaves others (increment_notification_indices tx ids)
unfolding increment_notification_indices
increment-Leaves tx ids = record { at = λ db. ground arith }

pub lock-Leaves :
    {T : Type 0} {part : Db → T} (cells : CellUnion)
    → Leaves part (lock_subscriptions_on_cells cells)
unfolding lock_subscriptions_on_cells
lock-Leaves cells = search leaves_rules

pub ruleset reads = (
  leaves_rules, get_subscription-Leaves, get_operational_intent-Leaves, get_dependent-Leaves,
  search_subscriptions-Leaves, search_constraints-Leaves, search_operational_intents-Leaves,
  lock-Leaves,
)
