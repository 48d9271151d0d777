-- ===== src/Tests/Samples.antt =====
-- The airspace of the tests: two operational intents and two subscriptions on one cell.
use inter_uss_platform.Base.{true, false, some, [], ◌∷◌, ◌++◌}
use inter_uss_platform.Base.Int.{pos}
use inter_uss_platform.Api.{ChangeOperationalIntentReferenceResponse}
use inter_uss_platform.Models.Platform.{Platform}
use inter_uss_platform.Models.Volumes.{Volume3D, Volume4D, geometry_func}
use inter_uss_platform.Scd.Store.{SubscriptionRow, OperationRow, Db, Tx}
use inter_uss_platform.Scd.OperationalIntents.Params.{ValidOirParams}

abbrev pub platform : Platform
platform = record {
  parse_uuid = λ s. some (record { text = s; is_rfc4122 = true; version = 4; time = 0 });
  url_scheme = λ s. some "https";
  to_lower = λ s. s;
  parse_time = λ s. some 15;
  format_time = λ t. "";
  digest = λ s. s;
  float32 = λ x. x;
  mul_float32 = λ x y. y;
  circle_covering = λ lat lng radius. 1 ∷ [];
  add_float = λ x y. x;
  mul_float = λ x y. x;
  div_float = λ x y. x;
  vector_of = λ (x, y). (x, y, pos 0);
  cross = λ u v. u;
  normalize = λ v. v;
  dot = λ u v. pos 1;
  angle = λ u v. pos 0;
  loop_is_valid = λ points. true;
  loop_is_empty = λ points. false;
  loop_area = λ points. pos 1;
  loop_covering = λ points. 1 ∷ [];
  polyline_covering = λ points. 1 ∷ [];
  contains = λ a b. true;
  cell_union = λ a b. a ++ b;
  denormalize = λ a. a;
  cell_level = λ c. 13;
}

abbrev pub tx : Tx
tx = record { timestamp = 7; new_uuid = "s3"; returning = λ indices. indices }

-- An implicit subscription of the first user, and one of the second user.
abbrev pub implicit_row : SubscriptionRow
implicit_row = record {
  id = "s1";
  owner = "uss1";
  url = "https://uss1";
  notification_index = 0;
  notify_for_operations = true;
  notify_for_constraints = false;
  implicit = true;
  starts_at = some 10;
  ends_at = some 20;
  cells = 1 ∷ [];
  updated_at = 3;
}

abbrev pub explicit_row : SubscriptionRow
explicit_row = record implicit_row {
  id = "s2";
  owner = "uss2";
  url = "https://uss2";
  implicit = false;
}

abbrev pub first_row : OperationRow
first_row = record {
  id = "o1";
  owner = "uss1";
  version = 1;
  url = "https://uss1";
  altitude_lower = some (pos 0);
  altitude_upper = some (pos 9);
  starts_at = some 10;
  ends_at = some 20;
  subscription_id = some "s1";
  updated_at = 3;
  state = "Accepted";
  cells = 1 ∷ [];
  uss_requested_ovn = some "A";
  past_ovns = [];
}

abbrev pub second_row : OperationRow
second_row = record first_row {
  id = "o2";
  owner = "uss2";
  url = "https://uss2";
  subscription_id = some "s2";
  uss_requested_ovn = some "C";
}

abbrev pub db : Db
db = record {
  subscriptions = implicit_row ∷ explicit_row ∷ [];
  operations = first_row ∷ second_row ∷ [];
  constraints = [];
  availabilities = [];
}

abbrev pub volume3d : Volume3D
volume3d = record {
  footprint = some (geometry_func (1 ∷ []));
  altitude_lo = some (pos 0);
  altitude_hi = some (pos 9);
}

abbrev pub volume : Volume4D
volume = record { spatial_volume = some volume3d; start_time = some 12; end_time = some 22 }

-- The first operational intent becomes active, with a new implicit subscription.
abbrev pub params : ValidOirParams
params = record {
  id = "o1";
  ovn = "A";
  new_ovn = "B";
  state = "Activated";
  u_extent = volume;
  cells = 1 ∷ [];
  subscription_id = "";
  uss_base_url = "https://uss1";
  implicit_subscription = record {
    requested = true;
    base_url = "https://uss1";
    for_constraints = false;
  };
  key = "C" ∷ [];
}

-- What the change leaves, and the reply to it.
abbrev pub explicit_row_notified : SubscriptionRow
explicit_row_notified = record explicit_row { notification_index = 1 }

abbrev pub changed_row : OperationRow
changed_row = record first_row {
  version = 2;
  starts_at = some 12;
  ends_at = some 22;
  subscription_id = some "s3";
  updated_at = 7;
  state = "Activated";
  uss_requested_ovn = some "B";
  past_ovns = "A" ∷ [];
}

abbrev pub changed_db : Db
changed_db = record {
  subscriptions =
      explicit_row_notified
      ∷ record implicit_row {
        id = "s3";
        notification_index = 1;
        starts_at = some 12;
        ends_at = some 22;
        updated_at = 7;
      }
      ∷ [];
  operations = second_row ∷ changed_row ∷ [];
  constraints = [];
  availabilities = [];
}

abbrev pub changed_reply : ChangeOperationalIntentReferenceResponse
changed_reply = record {
  subscribers =
      record {
        subscriptions = record { subscription_id = "s2"; notification_index = 1 } ∷ [];
        uss_base_url = "https://uss2";
      }
      ∷ record {
        subscriptions = record { subscription_id = "s3"; notification_index = 1 } ∷ [];
        uss_base_url = "https://uss1";
      }
      ∷ [];
  operational_intent_reference = record {
    id = "o1";
    manager = "uss1";
    uss_availability = "Unknown";
    version = 2;
    state = "Activated";
    ovn = some "B";
    time_start = some (record { value = ""; format = "RFC3339" });
    time_end = some (record { value = ""; format = "RFC3339" });
    uss_base_url = "https://uss1";
    subscription_id = "s3";
  };
}

-- What the deletion of the first operational intent leaves, and the reply to it.
abbrev pub deleted_db : Db
deleted_db = record {
  subscriptions = explicit_row_notified ∷ [];
  operations = second_row ∷ [];
  constraints = [];
  availabilities = [];
}

abbrev pub deleted_reply : ChangeOperationalIntentReferenceResponse
deleted_reply = record {
  subscribers =
      record {
        subscriptions = record { subscription_id = "s1"; notification_index = 1 } ∷ [];
        uss_base_url = "https://uss1";
      }
      ∷ record {
        subscriptions = record { subscription_id = "s2"; notification_index = 1 } ∷ [];
        uss_base_url = "https://uss2";
      }
      ∷ [];
  operational_intent_reference = record changed_reply.operational_intent_reference {
    version = 1;
    state = "Accepted";
    ovn = some "A";
    subscription_id = "s1";
  };
}
