-- ===== src/Verifier/Runs.antt =====
-- What all checks of a run have in common, if each judgement of a reply has it.
use arvan_ip_country_api.Prelude.{
  ◌≡◌, refl, ◌∙◌, Bool, true, false, Option, none, some, List, [], ◌∷◌, all, all-append, arith,
}
use arvan_ip_country_api.Text.{Text}
use arvan_ip_country_api.Json.{
  Json, null, boolean, number, text, array, object, Items, nil, item, Fields, end, field,
}
use arvan_ip_country_api.Verifier.{Python, iter_panels}
use arvan_ip_country_api.Verifier.Checks.{
  Check, Reply, judge_reply, check_expression, raise_or_skip, then_run, check_targets,
  check_target_value, check_panels, check_dashboards, ask, add_check,
}
use arvan_ip_country_api.Verifier.Rendering.{render_expression}

abbrev pub Passes : (Check → Bool) → Option (List Check) → Type 0
Passes test none = Unit
Passes test (some checks) = all test checks ≡ true

abbrev pub PassesCheck : (Check → Bool) → Option Check → Type 0
PassesCheck test none = Unit
PassesCheck test (some c) = test c ≡ true

abbrev pub uids_of : List (Text × Json) → List Text
uids_of [] = []
uids_of ((uid, payload) ∷ more) = uid ∷ uids_of more

module _ {F : Type 0} (python : Python F) (test : Check → Bool) where
  module _ {W : Type 0} (query : Text → W → Reply × W) (namespace : Text) where
    add_check-Passes :
        (c : Option Check) (checks : List Check)
        → PassesCheck test c
        → all test checks ≡ true
        → Passes test (add_check python query namespace c checks)
    add_check-Passes none checks h k = tt
    add_check-Passes (some c) checks h k = all-append test checks (c ∷ []) ∙ rw (k, h) refl

    then_run-Passes :
        (f : List Check → W → Option (List Check) × W) (r : Option (List Check) × W)
        → Passes test r.0
        → ((checks : List Check) (w : W) → all test checks ≡ true → Passes test (f checks w).0)
        → Passes test (then_run python query namespace f r).0
    then_run-Passes f (none, w) h k = tt
    then_run-Passes f (some checks, w) h k = k checks w h

    module _ (uid : Text)
        (judged : (title rendered : Text) (allow : Bool) (r : Reply)
          → PassesCheck test (judge_reply python uid title rendered allow r)) where
      ask-Passes :
          (title expression : Text) (allow : Bool) (checks : List Check) (w : W)
          → all test checks ≡ true
          → Passes test (ask python query namespace uid title expression allow checks w).0
      ask-Passes title expression allow checks w h =
          add_check-Passes _ checks
            (judged title (render_expression uid expression namespace) allow _) h

      skip-Passes :
          (b : Bool) (checks : List Check) (w : W)
          → all test checks ≡ true
          → Passes test (raise_or_skip python query namespace b checks w).0
      skip-Passes true checks w h = tt
      skip-Passes false checks w h = h

      check_expression-Passes :
          (title : Text) (target : Fields) (e : Option Json) (checks : List Check) (w : W)
          → all test checks ≡ true
          → Passes test (check_expression python query namespace uid title target e checks w).0
      check_expression-Passes title target none checks w h = h
      check_expression-Passes title target (some (text [])) checks w h = h
      check_expression-Passes title target (some (text (c ∷ s))) checks w h =
          ask-Passes title (c ∷ s) _ checks w h
      check_expression-Passes title target (some null) checks w h = h
      check_expression-Passes title target (some (boolean b)) checks w h = skip-Passes b checks w h
      check_expression-Passes title target (some (number n)) checks w h = skip-Passes _ checks w h
      check_expression-Passes title target (some (array items)) checks w h =
          skip-Passes _ checks w h
      check_expression-Passes title target (some (object fields)) checks w h =
          skip-Passes _ checks w h

      check_targets-Passes :
          (title : Text) (targets : Items) (checks : List Check) (w : W)
          → all test checks ≡ true
          → Passes test (check_targets python query namespace uid title targets checks w).0
      unfolding check_targets
      check_targets-Passes title nil checks w h = h
      check_targets-Passes title (item (object target) more) checks w h =
          then_run-Passes _ _ (check_expression-Passes title target _ checks w h)
            (check_targets-Passes title more)
      check_targets-Passes title (item _ more) checks w h = tt

      check_target_value-Passes :
          (title : Text) (o : Option Json) (checks : List Check) (w : W)
          → all test checks ≡ true
          → Passes test (check_target_value python query namespace uid title o checks w).0
      check_target_value-Passes title none checks w h = h
      check_target_value-Passes title (some (array items)) checks w h =
          check_targets-Passes title items checks w h
      check_target_value-Passes title (some (object end)) checks w h = h
      check_target_value-Passes title (some (object (field k v fs))) checks w h = tt
      check_target_value-Passes title (some (text [])) checks w h = h
      check_target_value-Passes title (some (text (c ∷ s))) checks w h = tt
      check_target_value-Passes title (some _) checks w h = tt

      check_panels-Passes :
          (panels : List Fields) (checks : List Check) (w : W)
          → all test checks ≡ true
          → Passes test (check_panels python query namespace uid panels checks w).0
      unfolding check_panels
      check_panels-Passes [] checks w h = h
      check_panels-Passes (panel ∷ more) checks w h =
          then_run-Passes _ _ (check_target_value-Passes _ _ checks w h) (check_panels-Passes more)

    -- The test may ask something of the dashboard's uid.
    module _ (good : Text → Bool)
        (judged : (uid title rendered : Text) (allow : Bool) (r : Reply)
          → good uid ≡ true
          → PassesCheck test (judge_reply python uid title rendered allow r)) where
      pub check_dashboards-Passes :
          (dashboards : List (Text × Json)) (checks : List Check) (w : W)
          → all good (uids_of dashboards) ≡ true
          → all test checks ≡ true
          → Passes test (check_dashboards python query namespace dashboards checks w).0
      unfolding check_dashboards
      check_dashboards-Passes [] checks w g h = h
      check_dashboards-Passes ((uid, payload) ∷ more) checks w g h =
          then_run-Passes _ _
            (check_panels-Passes uid
              (λ title rendered allow r. judged uid title rendered allow r (ground arith))
              (iter_panels payload) checks w h)
            (λ found v. check_dashboards-Passes more found v (ground arith))
