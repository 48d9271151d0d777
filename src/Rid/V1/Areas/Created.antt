-- ===== src/Rid/V1/Areas/Created.antt =====
-- A service area that was created, and its deletion with the version that the creation replied with.
use inter_uss_platform.Base.{
  ◌≡◌, ◌≤◌, ◌<◌, ◌+◌, refl, sym, ap, ◌∙◌, String, Bool, true, false, Option, none, some, List, [],
  ◌∷◌, ◌++◌, ◌&&◌, leb, str_eq_of_eq, filter-append_new, any_of_weaker, arith,
}
use mathlib.Core.Path.{subst}
use inter_uss_platform.Base.Lists.{filter, any}
use inter_uss_platform.Base.Tables.{delete_where, delete_where-append_new}
use inter_uss_platform.Base.Action.{ok, ok-injective, lift, bind_step, bind_elim}
use inter_uss_platform.Base.Action.Leaves.{Leaves-lift}
use inter_uss_platform.Base.Action.Runs.{read_elim, transact_commits}
use inter_uss_platform.Errors.{Code, some-injective}
use inter_uss_platform.Models.Times.{Time}
use inter_uss_platform.Models.Platform.{Platform}
use inter_uss_platform.Models.Ids.{id_from_string}
use inter_uss_platform.Models.Versions.{
  unix_epoch, two_63, Version, version_from_time, version_from_string, matches,
}
use inter_uss_platform.Models.Versions.Texts.{version_from_string-version_from_time}
use inter_uss_platform.Scd.Store.{max_int4}
use inter_uss_platform.Scd.Server.{success, reply, reply_success}
use inter_uss_platform.Rid.Api.{ChangeIdentificationServiceAreaResponse}
use inter_uss_platform.Rid.Models.{IdentificationServiceArea, Subscription, set_isa_extents}
use inter_uss_platform.Rid.Store.{AreaRow, Db, Tx}
use inter_uss_platform.Rid.Store.Areas.{has_id, is_version, row_of, area_of}
use inter_uss_platform.Rid.Store.Subscriptions.{in_cells}
use inter_uss_platform.Rid.Application.Areas.{insert_isa_app, delete_isa_app}
use inter_uss_platform.Rid.Application.Changes.{own_version}
use inter_uss_platform.Rid.Application.Inserted.{insert_isa_app_run}
use inter_uss_platform.Rid.Application.Success.{version_has_id, delete_isa_run}
use inter_uss_platform.Rid.V1.Conversions.{to_identification_service_area, text_of_version}
use inter_uss_platform.Rid.V1.Params.{Request, area_of_request, bare_area}
use inter_uss_platform.Rid.V1.Areas.{
  change_response, create_for, create_client, create_authorized, create_status,
  create_identification_service_area, delete_for, delete_parsed, delete_client, delete_authorized,
  delete_identification_service_area,
}

-- The request that asks for the deletion of the area of a request, with a version.
abbrev pub deletion : Request → String → Request
deletion req version = record { auth = req.auth; id = req.id; version = version; body = none }

module _ (env : Platform) (tx : Tx) (now : Time) (locality : String) (allow_http : Bool) where
  -- The client of a creation that succeeded.
  created_for :
      (req : Request) (c : Option String) (db db' : Db)
      (resp : ChangeIdentificationServiceAreaResponse)
      → create_client env tx now locality allow_http c req db ≡ (success resp, db')
      → (client : String) × (c ≡ some client)
        × (create_for env tx now locality allow_http client req db ≡ (ok resp, db'))
  unfolding create_client
  created_for req none db db' resp h = absurd (cc)
  created_for req (some client) db db' resp h = (
    client,
    refl,
    λ i. (reply_success create_status _ resp (ap (λ x. x.0) h) i, (ap (λ x. x.1) h) i),
  )

  authorized :
      (req : Request) (e : Option Code) (db db' : Db)
      (resp : ChangeIdentificationServiceAreaResponse)
      → create_authorized env tx now locality allow_http e req db ≡ (success resp, db')
      → (e ≡ none)
        × (create_client env tx now locality allow_http req.auth.client_id req db
            ≡ (success resp, db'))
  unfolding create_authorized
  authorized req none db db' resp h = (refl, h)
  authorized req (some code) db db' resp h = absurd (cc)

  described :
      (client : String) (req : Request) (i : IdentificationServiceArea)
      → area_of_request env allow_http locality client none req ≡ ok i
      → (id_from_string env req.id ≡ ok i.id) × (i.owner ≡ client)
  unfolding area_of_request set_isa_extents bare_area
  described client req i h = ground arith

  response_version :
      (a : IdentificationServiceArea) (r : Option IdentificationServiceArea × List Subscription)
      (resp : ChangeIdentificationServiceAreaResponse)
      → r.0 ≡ some (area_of (row_of tx a))
      → change_response env r ≡ ok resp
      → resp.service_area.version ≡ (version_from_time tx.timestamp).s
  unfolding change_response to_identification_service_area text_of_version area_of row_of
  response_version a (some b, subs) resp e h =
      sym (ap (λ x. x.service_area.version) (ok-injective h))
      ∙ ap (λ x. text_of_version env x.version) (some-injective e)
  response_version a (none, subs) resp e h = absurd (cc)

module _ (env : Platform) (later : Tx) where
  -- The deletion of an area by its owner with its version.
  deleted :
      (client id : String) (version : Version) (db : Db) (row : AreaRow)
      → filter (has_id id) db.areas ≡ row ∷ []
      → row.id ≡ id
      → row.owner ≡ client
      → matches (some version) (some (version_from_time row.updated_at)) ≡ true
      → any (λ r. leb max_int4 r.notification_index) db.subscriptions ≡ false
      → (resp : ChangeIdentificationServiceAreaResponse) × (db' : Db) × (delete_for env later client
            version id db
          ≡ (ok resp, db'))
        × (db'.areas ≡ delete_where (is_version row.id row.updated_at) db.areas)
  unfolding delete_for delete_isa_app change_response
  deleted client id version db row one i o v below =
      let few =
        any_of_weaker (λ r. in_cells row.cells later.clock r && leb max_int4 r.notification_index)
          (λ r. leb max_int4 r.notification_index) db.subscriptions (λ r h. ground arith) below in
      let run = delete_isa_run env later id client (some version) db row one i o v few in
      (
        _,
        _,
        bind_step (delete_isa_app env later id client (some version)) _ db _ _
            (transact_commits _ db _ _ run),
        refl,
      )

  handled :
      (req : Request) (client id text : String) (version : Version) (db db' : Db)
      (resp : ChangeIdentificationServiceAreaResponse)
      → req.auth.error ≡ none
      → req.auth.client_id ≡ some client
      → version_from_string text ≡ ok version
      → id_from_string env req.id ≡ ok id
      → delete_for env later client version id db ≡ (ok resp, db')
      → delete_identification_service_area env later (deletion req text) db ≡ (success resp, db')
  unfolding delete_identification_service_area delete_authorized delete_client delete_parsed reply
  handled req client id text version db db' resp e c v i run = rw (e, c, v, i, run) refl

module _ (env : Platform) (tx later : Tx) (now : Time) (locality : String) (allow_http : Bool) where
  unchanged :
      (id : String) (row : AreaRow) (areas : List AreaRow)
      → row.id ≡ id
      → any (has_id id) areas ≡ false
      → delete_where (is_version row.id row.updated_at) (areas ++ row ∷ []) ≡ areas
  unchanged id row areas i fresh =
      delete_where-append_new (is_version row.id row.updated_at) areas row
        (any_of_weaker (is_version row.id row.updated_at) (has_id id) areas
          (λ a h. subst (λ j. has_id j a ≡ true) i (version_has_id row.id row.updated_at a h))
          fresh)
        (own_version row)

  same_text : (t : Time) → matches (some (version_from_time t)) (some (version_from_time t)) ≡ true
  unfolding matches
  same_text t = str_eq_of_eq _ _ refl

  -- After a creation that succeeds at a time between the years 1678 and 2262, a deletion by the same
  -- client with the version in the reply succeeds and leaves the service areas that there were before
  -- the creation, if no subscription has the largest index.
  pub created-deleted :
      (req : Request) (db db' : Db) (resp : ChangeIdentificationServiceAreaResponse)
      → create_identification_service_area env tx now locality allow_http req db
        ≡ (success resp, db')
      → unix_epoch ≤ tx.timestamp + two_63
      → tx.timestamp < unix_epoch + two_63
      → any (λ r. leb max_int4 r.notification_index) db'.subscriptions ≡ false
      → (reply : ChangeIdentificationServiceAreaResponse) × (after : Db)
        × (delete_identification_service_area env later (deletion req resp.service_area.version) db'
            ≡ (success reply, after))
        × (after.areas ≡ db.areas)
  unfolding create_identification_service_area create_for row_of
  created-deleted req db db' resp h low high below =
      let (e, h1) = authorized env tx now locality allow_http req req.auth.error db db' resp h in
      let (client, c, h2) =
        created_for env tx now locality allow_http req req.auth.client_id db db' resp h1 in
      read_elim (lift (area_of_request env allow_http locality client none req)) _ db
        (Leaves-lift _) h2
        λ i q k. bind_elim (insert_isa_app env tx now i) _ db k λ r u q2 k2.
          let (a, (ids, owners), o, fresh, rows) = insert_isa_app_run env tx now i db u r q2 in
          let (parsed, own) =
            described env tx now locality allow_http client req i (ap (λ x. x.0) q) in
          let areas : db'.areas ≡ db.areas ++ row_of tx a ∷ [] =
            sym (ap (λ x. x.1.areas) k2) ∙ rows in
          let free : any (has_id i.id) db.areas ≡ false =
            ap (λ j. any (has_id j) db.areas) (sym ids) ∙ fresh in
          let one =
            ap (filter (has_id i.id)) areas
            ∙ filter-append_new (has_id i.id) db.areas (row_of tx a) free
                (str_eq_of_eq a.id i.id ids) in
          let version =
            response_version env tx now locality allow_http a r resp o (ap (λ x. x.0) k2) in
          let (reply, after, run, gone) =
            deleted env later client i.id (version_from_time tx.timestamp) db' (row_of tx a) one ids
              (owners ∙ own) (same_text tx.timestamp) below in
          (
            reply,
            after,
            handled env later req client i.id resp.service_area.version
                (version_from_time tx.timestamp) db' after reply e c
                (ap version_from_string version
                  ∙ version_from_string-version_from_time tx.timestamp low high)
                parsed run,
            gone
                ∙ ap (delete_where (is_version a.id tx.timestamp)) areas
                ∙ unchanged i.id (row_of tx a) db.areas ids free,
          )
