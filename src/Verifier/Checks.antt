-- ===== src/Verifier/Checks.antt =====
-- The loop of `main` over the dashboards, their panels and targets, and the summary of the checks.
use mathlib.Core.Option
use arvan_ip_country_api.Prelude.{
  ℕ, Bool, true, false, not, ◌&&◌, ◌||◌, Option, none, some, List, [], ◌∷◌, ◌++◌, all, filter_by,
  if◌then◌else◌,
}
use arvan_ip_country_api.Text.{Text, codes, text_eq}
use arvan_ip_country_api.Json.{
  Json, null, boolean, number, text, array, object, Items, nil, item, Fields, end, field, get_field,
}
use arvan_ip_country_api.Verifier.{Python, iter_panels, values_from_result}
use arvan_ip_country_api.Verifier.Rendering.{render_expression}

-- `Check`
pub record Check : Type 0 where
  pub dashboard : Text
  pub panel : Text
  pub expression : Text
  pub valid : Bool
  pub useful : Bool
  pub legitimate_zero : Bool
  pub empty_allowed : Bool
  pub finite : Bool
  pub error : Option Json

-- What `prometheus_query` does: a decoded body, or one of the exceptions that are caught, by its name.
pub data Reply : Type 0 where
  body : Json → Reply
  failure : Text → Reply

abbrev pub is_nonempty {ℓ} : {A : Type ℓ} → List A → Bool
is_nonempty [] = false
is_nonempty (x ∷ xs) = true

module _ {F : Type 0} (python : Python F) where
  -- `bool(value)`
  abbrev pub number_is_true : Option F → Bool
  number_is_true none = true
  number_is_true (some x) = not (python.is_zero x)

  abbrev pub is_true : Json → Bool
  is_true null = false
  is_true (boolean b) = b
  is_true (number t) = number_is_true (python.float t)
  is_true (text t) = is_nonempty t
  is_true (array nil) = false
  is_true (array (item j more)) = true
  is_true (object end) = false
  is_true (object (field k j more)) = true

  abbrev pub failed_check : Text → Text → Text → Bool → Json → Check
  failed_check uid title rendered allow_empty error = record {
    dashboard = uid;
    panel = title;
    expression = rendered;
    valid = false;
    useful = false;
    legitimate_zero = false;
    empty_allowed = allow_empty;
    finite = false;
    error = some error;
  }

  -- The check of an answer with these values.
  unfoldable pub judge_values : Text → Text → Text → Bool → List F → Check
  judge_values uid title rendered allow_empty values =
      let finite = all python.is_finite values in
      let has_data = is_nonempty values && finite in
      record {
        dashboard = uid;
        panel = title;
        expression = rendered;
        valid = true;
        useful = has_data;
        legitimate_zero = has_data && all python.is_zero values;
        empty_allowed = allow_empty;
        finite = finite;
        error = if has_data || allow_empty then none else some (text (codes "empty result"));
      }

  abbrev pub judge_data : Text → Text → Text → Bool → Option Json → Option Check
  judge_data uid title rendered allow_empty (some (object fields)) =
      Option.map (judge_values uid title rendered allow_empty) (values_from_result python fields)
  judge_data uid title rendered allow_empty _ = none

  abbrev pub is_success : Option Json → Bool
  is_success (some (text t)) = text_eq t (codes "success")
  is_success _ = false

  abbrev pub or_default : Option Json → Json
  or_default none = text (codes "Prometheus API error")
  or_default (some error) = error

  -- The `try` statement.
  unfoldable pub judge_reply : Text → Text → Text → Bool → Reply → Option Check
  unfolding judge_values
  judge_reply uid title rendered allow_empty (failure name) =
      some (failed_check uid title rendered allow_empty (text name))
  judge_reply uid title rendered allow_empty (body (object fields)) =
      if is_success (get_field (codes "status") fields)
      then judge_data uid title rendered allow_empty (get_field (codes "data") fields)
      else some (
          failed_check uid title rendered allow_empty
            (or_default (get_field (codes "error") fields)))
  judge_reply uid title rendered allow_empty (body _) = none

  module _ {W : Type 0} (query : Text → W → Reply × W) (namespace : Text) where
    -- The checks so far; `none` once an exception has ended the script.
    abbrev pub Run : Type 0
    Run = Option (List Check) × W

    abbrev pub add_check : Option Check → List Check → Option (List Check)
    add_check none checks = none
    add_check (some c) checks = some (checks ++ c ∷ [])

    -- `expression = target.get("expr"); if not expression: continue`, and the query.
    abbrev pub ask : Text → Text → Text → Bool → List Check → W → Run
    ask uid title expression allow_empty checks w =
        let rendered = render_expression uid expression namespace in
        let (reply, w') = query rendered w in
        (add_check (judge_reply uid title rendered allow_empty reply) checks, w')

    abbrev pub is_allowed : Option Json → Bool
    is_allowed none = false
    is_allowed (some j) = is_true j

    -- An expression that is no text is skipped if it is false, and cannot be rendered if it is true.
    abbrev pub raise_or_skip : Bool → List Check → W → Run
    raise_or_skip true checks w = (none, w)
    raise_or_skip false checks w = (some checks, w)

    abbrev pub check_expression : Text → Text → Fields → Option Json → List Check → W → Run
    check_expression uid title target none checks w = (some checks, w)
    check_expression uid title target (some (text [])) checks w = (some checks, w)
    check_expression uid title target (some (text (c ∷ s))) checks w =
        ask uid title (c ∷ s) (is_allowed (get_field (codes "validationAllowEmpty") target)) checks
          w
    check_expression uid title target (some j) checks w = raise_or_skip (is_true j) checks w

    abbrev pub then_run : (List Check → W → Run) → Run → Run
    then_run f (none, w) = (none, w)
    then_run f (some checks, w) = f checks w

    unfoldable pub check_targets : Text → Text → Items → List Check → W → Run
    unfolding judge_reply
    check_targets uid title nil checks w = (some checks, w)
    check_targets uid title (item (object target) more) checks w =
        then_run (check_targets uid title more)
          (check_expression uid title target (get_field (codes "expr") target) checks w)
    check_targets uid title (item _ more) checks w = (none, w)

    -- `for target in panel_payload.get("targets", [])`: the keys of an object are no targets.
    abbrev pub check_target_value : Text → Text → Option Json → List Check → W → Run
    check_target_value uid title none checks w = (some checks, w)
    check_target_value uid title (some (array items)) checks w =
        check_targets uid title items checks w
    check_target_value uid title (some (object end)) checks w = (some checks, w)
    check_target_value uid title (some (text [])) checks w = (some checks, w)
    check_target_value uid title (some _) checks w = (none, w)

    -- `str(panel_payload["title"])`
    abbrev pub title_of : Option Json → Text
    title_of none = []
    title_of (some j) = python.str j

    unfoldable pub check_panels : Text → List Fields → List Check → W → Run
    unfolding check_targets
    check_panels uid [] checks w = (some checks, w)
    check_panels uid (panel ∷ more) checks w = then_run (check_panels uid more) (
        check_target_value uid (title_of (get_field (codes "title") panel))
          (get_field (codes "targets") panel) checks w)

    -- The loop over the files, each with its `uid` and its payload.
    unfoldable pub check_dashboards : List (Text × Json) → List Check → W → Run
    unfolding check_panels
    check_dashboards [] checks w = (some checks, w)
    check_dashboards ((uid, payload) ∷ more) checks w =
        then_run (check_dashboards more) (check_panels uid (iter_panels payload) checks w)

-- The lists that the summary is made of.
abbrev pub invalid : List Check → List Check
invalid checks = filter_by (λ c. not c.valid) checks

abbrev pub empty : List Check → List Check
empty checks = filter_by (λ c. c.valid && not c.useful) checks

abbrev pub unexplained_empty : List Check → List Check
unexplained_empty checks = filter_by (λ c. not c.empty_allowed) (empty checks)

abbrev pub non_finite : List Check → List Check
non_finite checks = filter_by (λ c. not c.finite) checks

-- `summary["failures"]`, where it is set
unfoldable pub failures : List Check → List Check
failures checks = invalid checks ++ (unexplained_empty checks ++ non_finite checks)

-- `return 1 if invalid or unexplained_empty or non_finite else 0`
unfoldable pub exit_code : List Check → ℕ
exit_code checks =
    if is_nonempty (invalid checks)
      || is_nonempty (unexplained_empty checks)
      || is_nonempty (non_finite checks)
    then 1
    else 0
