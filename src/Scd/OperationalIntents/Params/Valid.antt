-- ===== src/Scd/OperationalIntents/Params/Valid.antt =====
-- What the parameters of an upsert satisfy when they were accepted.
use inter_uss_platform.Base.{
  ◌≡◌, ◌≤◌, refl, sym, ap, ◌∙◌, String, Bool, true, false, not, ◌&&◌, Option, none, some, str_eq,
  arith,
}
use inter_uss_platform.Base.Action.{ok, ok-injective}
use inter_uss_platform.Api.{PutOperationalIntentReferenceParameters}
use inter_uss_platform.Errors.{Code, reject_if, >>=-elim}
use inter_uss_platform.Models.Times.{Time, before, after}
use inter_uss_platform.Models.Ids.{id_from_string}
use inter_uss_platform.Models.Platform.{Platform}
use inter_uss_platform.Models.Union.{union_volumes4d}
use inter_uss_platform.Models.Volumes.{calculate_spatial_covering}
use inter_uss_platform.Scd.Models.OperationalIntents.{is_valid_in_dss}
use inter_uss_platform.Scd.OperationalIntents.Params.{
  ValidOirParams, optional_id, check_base_urls, requested_implicit, missing, requested_new_ovn,
  lacks_subscription, parse_extents, validate_and_return_upsert_params,
}

rejected : (b : Bool) (c : Code) → reject_if b c ≡ ok tt → b ≡ false
rejected b c h = ground arith

missing_ok : {A : Type 0} (o : Option A) (a : A) → missing o ≡ ok a → o ≡ some a
missing_ok none a h = absurd (cc)
missing_ok (some b) a h = ap some (ok-injective h)

-- The conditions on accepted parameters.
pub record Valid (env : Platform) (now : Time) (p : ValidOirParams) : Type 0 where
  pub start : Time
  pub end : Time
  pub start_ok : p.u_extent.start_time ≡ some start
  pub end_ok : p.u_extent.end_time ≡ some end
  pub in_order : start ≤ end
  pub not_past : now ≤ end
  pub covered : calculate_spatial_covering env p.u_extent ≡ ok p.cells
  pub state_ok : is_valid_in_dss p.state ≡ true
  pub created_accepted : (str_eq p.ovn "" && not (str_eq p.state "Accepted")) ≡ false

not_after : (a b : Time) → after a b ≡ false → a ≤ b
unfolding after
not_after a b h = ground arith

module _ (env : Platform) (now : Time) (entityid ovn : String)
    (params : PutOperationalIntentReferenceParameters) (allow_http : Bool) where
  -- Parameters that are accepted keep the state and the OVN of the request, and name a volume that does
  -- not end before it starts nor before the present and whose covering they hold, and a state of the
  -- service; an operational intent is only created in the state Accepted.
  pub accepted_params-Valid :
      (p : ValidOirParams)
      → validate_and_return_upsert_params env now entityid ovn params allow_http ≡ ok p
      → (p.state ≡ params.state) × (p.ovn ≡ ovn) × Valid env now p
  unfolding validate_and_return_upsert_params
  accepted_params-Valid p h = >>=-elim (id_from_string env entityid) _ h λ id q1 h1.
      >>=-elim (reject_if (str_eq params.uss_base_url "") Code.no_code) _ h1 λ t2 q2 h2.
        >>=-elim (optional_id env params.subscription_id) _ h2 λ sub q3 h3.
          >>=-elim (requested_implicit params.subscription_id params.new_subscription) _ h3
            λ implicit q4 h4.
              >>=-elim
                (check_base_urls env allow_http params.uss_base_url params.new_subscription
                  implicit.base_url)
                _ h4
                λ t5 q5 h5.
                  >>=-elim (reject_if (not (is_valid_in_dss params.state)) Code.no_code) _ h5
                    λ t6 q6 h6. >>=-elim (parse_extents env params.extents) _ h6 λ extents q7 h7.
                      >>=-elim (union_volumes4d env extents) _ h7 λ u_extent q8 h8.
                        >>=-elim (missing u_extent.start_time) _ h8 λ start q9 h9.
                          >>=-elim (missing u_extent.end_time) _ h9 λ end q10 h10.
                            >>=-elim (reject_if (after now end) Code.no_code) _ h10 λ t11 q11 h11.
                              >>=-elim (reject_if (after start end) Code.no_code) _ h11
                                λ t12 q12 h12.
                                  >>=-elim (calculate_spatial_covering env u_extent) _ h12
                                    λ cells q13 h13.
                                      >>=-elim (reject_if (before end start) Code.no_code) _ h13
                                        λ t14 q14 h14.
                                          >>=-elim
                                            (reject_if
                                              (str_eq ovn ""
                                                && not (str_eq params.state "Accepted"))
                                              Code.no_code)
                                            _ h14
                                            λ t15 q15 h15.
                                              >>=-elim
                                                (requested_new_ovn env now id
                                                  params.requested_ovn_suffix)
                                                _ h15
                                                λ new_ovn q16 h16.
                                                  >>=-elim
                                                    (reject_if
                                                      (lacks_subscription params.state sub
                                                        params.new_subscription)
                                                      Code.no_code)
                                                    _ h16
                                                    λ t17 q17 h17.
                                                      let e = ok-injective h17 in
                                                      let vol = ap (λ x. x.u_extent) e in
                                                      let st = ap (λ x. x.state) e in
                                                      let ov = ap (λ x. x.ovn) e in
                                                      (
                                                        sym st,
                                                        sym ov,
                                                        record {
                                                          start = start;
                                                          end = end;
                                                          start_ok =
                                                            ap (λ v. v.start_time) (sym vol)
                                                            ∙ missing_ok u_extent.start_time start
                                                            q9;
                                                          end_ok =
                                                            ap (λ v. v.end_time) (sym vol)
                                                            ∙ missing_ok u_extent.end_time end q10;
                                                          in_order =
                                                            not_after start end (rejected _ _ q12);
                                                          not_past =
                                                            not_after now end (rejected _ _ q11);
                                                          covered =
                                                            ap (calculate_spatial_covering env)
                                                            (sym vol)
                                                            ∙ q13
                                                            ∙ ap ok (ap (λ x. x.cells) e);
                                                          state_ok =
                                                            ap is_valid_in_dss (sym st)
                                                            ∙ not_false
                                                            (is_valid_in_dss params.state)
                                                            (rejected _ _ q6);
                                                          created_accepted =
                                                            ap
                                                            (λ s.
                                                            str_eq p.ovn ""
                                                            && not (str_eq s "Accepted"))
                                                            (sym st)
                                                            ∙ ap
                                                            (λ o.
                                                            str_eq o ""
                                                            && not (str_eq params.state "Accepted"))
                                                            (sym ov)
                                                            ∙ rejected _ _ q15;
                                                        },
                                                      )
    where
      not_false : (b : Bool) → not b ≡ false → b ≡ true
      not_false true k = refl
      not_false false k = absurd (cc)
