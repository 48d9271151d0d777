-- ===== src/Tests/Upkeep.antt =====
-- An eviction, and the validation of scopes.
use inter_uss_platform.Base.{
  ◌≡◌, ◌↔◌, ◌⊎◌, refl, sym, ap, ◌∙◌, inl, inr, true, false, [], ◌∷◌, Mem, some,
}
use inter_uss_platform.Base.Lists.{filter, any, take}
use inter_uss_platform.Base.Tests.{str_eq, str_eq-true, str_eq-false}
use inter_uss_platform.Base.Tables.{delete_where}
use inter_uss_platform.Base.Action.{ok, ◌>>=◌}
use inter_uss_platform.Auth.{AuthorizationOption, validate_scopes, pass}
use inter_uss_platform.Auth.Options.{Satisfies, validate_scopes-pass}
use inter_uss_platform.Scd.Store.{OperationRow, SubscriptionRow, Db}
use inter_uss_platform.Scd.Store.Subscriptions.{subscription_of, delete_subscription}
use inter_uss_platform.Scd.Store.OperationalIntents.{
  operational_intent_of, depends_on, delete_operational_intent,
}
use inter_uss_platform.Scd.Store.Expired.{
  has_expired, list_expired_subscriptions, list_expired_operational_intents,
}
use inter_uss_platform.Cleanup.{
  Flags, delete_operational_intents, delete_subscriptions, evict_operational_intents,
  evict_subscriptions, evict_action,
}
use inter_uss_platform.Cleanup.Kept.{DistinctIds, evict_keeps}
use inter_uss_platform.Tests.Samples.{
  platform, implicit_row, explicit_row, first_row, second_row, db,
}

abbrev flags : Flags
flags = record { list_scd_oirs = true; list_scd_subs = true; delete_expired = true }

-- The second operational intent and its subscription end later.
abbrev lasting_row : OperationRow
lasting_row = record second_row { ends_at = some 90 }

abbrev lasting_subscription : SubscriptionRow
lasting_subscription = record explicit_row { ends_at = some 90 }

abbrev full_db : Db
full_db = record db {
  subscriptions = implicit_row ∷ lasting_subscription ∷ [];
  operations = first_row ∷ lasting_row ∷ [];
}

abbrev evicted_db : Db
evicted_db = record db { subscriptions = lasting_subscription ∷ []; operations = lasting_row ∷ [] }

evict-run : evict_action platform flags 50 full_db ≡ (
  ok (operational_intent_of platform [] first_row ∷ [], subscription_of platform implicit_row ∷ []),
  evicted_db,
)
unfolding evict_action ◌>>=◌ evict_operational_intents list_expired_operational_intents
    delete_operational_intents take filter has_expired delete_operational_intent any str_eq
    operational_intent_of evict_subscriptions list_expired_subscriptions delete_subscriptions
    delete_subscription subscription_of delete_where depends_on
    inter_uss_platform.Scd.Models.Ovns.new_ovn_from_time
    inter_uss_platform.Scd.Store.OperationalIntents.availability_of
evict-run = refl

two_ids-DistinctIds : DistinctIds full_db.operations
two_ids-DistinctIds a b (inl e) (inl f) h = e ∙ sym f
two_ids-DistinctIds a b (inl e) (inr (inl f)) h =
    absurd (
      str_eq-false "o1" "o2" (unfold str_eq in refl)
        (sym (ap (λ r. r.id) e) ∙ h ∙ ap (λ r. r.id) f))
two_ids-DistinctIds a b (inr (inl e)) (inl f) h =
    absurd (
      str_eq-false "o2" "o1" (unfold str_eq in refl)
        (sym (ap (λ r. r.id) e) ∙ h ∙ ap (λ r. r.id) f))
two_ids-DistinctIds a b (inr (inl e)) (inr (inl f)) h = e ∙ sym f
two_ids-DistinctIds a b (inr (inr never)) n h = elim never [ ]
two_ids-DistinctIds a b m (inr (inr never)) h = elim never [ ]

lasting-run : has_expired 50 lasting_row.ends_at lasting_row.updated_at ≡ false
unfolding has_expired
lasting-run = refl

subscription_lasts :
    (s : SubscriptionRow)
    → Mem s full_db.subscriptions
    → depends_on s.id lasting_row ≡ true
    → has_expired 50 s.ends_at s.updated_at ≡ false
unfolding has_expired depends_on str_eq
subscription_lasts s (inl e) h =
    absurd (str_eq-false "s2" "s1" refl (str_eq-true "s2" s.id h ∙ ap (λ r. r.id) e))
subscription_lasts s (inr (inl e)) h = ap (λ r. has_expired 50 r.ends_at r.updated_at) e
subscription_lasts s (inr (inr never)) h = elim never [ ]

evict_keeps_example : Mem lasting_row evicted_db.operations
evict_keeps_example =
    evict_keeps platform flags 50 full_db evicted_db _ lasting_row evict-run two_ids-DistinctIds
      lasting-run subscription_lasts (inr (inl refl))

abbrev option : AuthorizationOption
option = ("Authority", "utm.strategic_coordination" ∷ []) ∷ []

validate_scopes-pass_example :
    validate_scopes (option ∷ []) ("utm.strategic_coordination" ∷ []) ≡ pass ↔ (
      (option ∷ [] ≡ [])
      ⊎ ((o : AuthorizationOption) × Mem o (option ∷ [])
          × Satisfies ("utm.strategic_coordination" ∷ []) o))
validate_scopes-pass_example =
    validate_scopes-pass (option ∷ []) ("utm.strategic_coordination" ∷ [])
