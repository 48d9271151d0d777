-- ===== src/Tests/Queries.antt =====
-- A query of operational intents, and the theorem at this run.
use inter_uss_platform.Base.{Mem, ◌≡◌, refl, some, [], ◌∷◌}
use inter_uss_platform.Base.Action.{ok}
use inter_uss_platform.Api.{OperationalIntentReference}
use inter_uss_platform.Base.Action.{◌>>=◌}
use inter_uss_platform.Scd.Store.OperationalIntents.{
  operational_intent_of, availability_of, search_operational_intents, search_spatial,
  search_footprint,
}
use inter_uss_platform.Base.Lists.{filter, any, take}
use inter_uss_platform.Base.Tests.{str_eq}
use inter_uss_platform.Models.Volumes.{geometry_covering}
use inter_uss_platform.Scd.Store.{no_later, no_higher, overlap}
use inter_uss_platform.Scd.OperationalIntents.Key.{scrubbed}
use inter_uss_platform.Scd.OperationalIntents.Key.Missing.{Tells}
use inter_uss_platform.Scd.OperationalIntents.Read.{query_action}
use inter_uss_platform.Scd.OperationalIntents.Read.Scrubbed.{query_scrubbed}
use inter_uss_platform.Tests.Samples.{platform, db, volume, deleted_reply}

abbrev pub own_reference : OperationalIntentReference
own_reference = deleted_reply.operational_intent_reference

abbrev pub other_reference : OperationalIntentReference
other_reference = record own_reference {
  id = "o2";
  manager = "uss2";
  ovn = some "Available from USS";
  uss_base_url = "https://uss2";
  subscription_id = "s2";
}

query-run : query_action platform "uss1" volume db ≡ (ok (own_reference ∷ other_reference ∷ []), db)
unfolding query_action ◌>>=◌ filter str_eq any take operational_intent_of availability_of overlap
    no_later no_higher search_operational_intents search_spatial search_footprint geometry_covering
    scrubbed inter_uss_platform.Scd.Store.OperationalIntents.search_rows
    inter_uss_platform.Scd.Store.OperationalIntents.in_volume
    inter_uss_platform.Scd.Models.OperationalIntents.to_rest
    inter_uss_platform.Scd.Models.Availability.to_rest
query-run = refl

query_scrubbed_example :
    (db ≡ db)
    × ((ref : OperationalIntentReference)
        → Mem ref (own_reference ∷ other_reference ∷ [])
        → Tells platform "uss1" ref)
query_scrubbed_example =
    query_scrubbed platform "uss1" db db volume (own_reference ∷ other_reference ∷ []) query-run
