-- ===== src/Tests/Verifier.antt =====
-- The theorems on the dashboard verifier at a small dashboard and a Prometheus that knows one answer.
use arvan_ip_country_api.Prelude.{
  ℕ, suc, ◌+◌, ◌*◌, ◌&&◌, ◌≡◌, ◌↔◌, refl, List, true, false, not, some, [], ◌∷◌, all, length,
}
use arvan_ip_country_api.Text.{replace, replace_from, starts_with, Text, codes}
use arvan_ip_country_api.Json.{has_field, get_field, Json, Items, Fields}
use arvan_ip_country_api.Verifier.{is_panel, iter_panels, Python}
use arvan_ip_country_api.Verifier.Panels.{Within, Listed, iter_panels_iff}
use arvan_ip_country_api.Verifier.Checks.{
  check_panels, check_targets, judge_reply, Check, Reply, body, check_dashboards, failures,
  exit_code,
}
use arvan_ip_country_api.Verifier.Verdict.{is_coherent, check_dashboards-coherent}
use arvan_ip_country_api.Verifier.Summary.{
  is_fine, how_many, is_listed_twice, exit_code_iff, how_many-failures,
}
use arvan_ip_country_api.Verifier.Runs.{Passes}
use arvan_ip_country_api.Verifier.Totals.{AddsUp}
use arvan_ip_country_api.Verifier.Totals.Complete.{check_dashboards-AddsUp}
use arvan_ip_country_api.Verifier.Rendering.{
  render_variables, render_variable, substitute, substitutions, render_expression,
  generic_variables,
}
use arvan_ip_country_api.Verifier.Tokens.{is_gone, names_of, render_expression_complete}

abbrev target : Json
target = Json.object (Fields.field (codes "expr") (Json.text (codes "up{pod=\"$pod\"}")) Fields.end)

abbrev panel : Fields
panel =
    Fields.field (codes "title") (Json.text (codes "Up"))
      (Fields.field (codes "targets") (Json.array (Items.item target Items.nil)) Fields.end)

abbrev payload : Json
payload = Json.object (
    Fields.field (codes "panels") (Json.array (Items.item (Json.object panel) Items.nil))
      Fields.end)

iter_panels_iff_example :
    Listed panel (iter_panels payload) ↔ (Within panel payload × (is_panel panel ≡ true))
iter_panels_iff_example = iter_panels_iff panel payload

render_expression_complete_example :
    all
      (is_gone
        (render_expression (codes "other") (codes "up{pod=\"$pod\"}") (codes "ip-country-api")))
      (names_of generic_variables)
    ≡ true
render_expression_complete_example =
    render_expression_complete (codes "other") (codes "up{pod=\"$pod\"}") (codes "ip-country-api")

-- Numbers in unary: a text's length.
abbrev python : Python ℕ
python = record {
  float = λ t. some (length t);
  is_finite = λ n. true;
  is_zero = λ n. false;
  str = λ j. codes "1";
}

abbrev query : Text → ℕ → Reply × ℕ
query expression w = (
  body (Json.object (Fields.field (codes "status") (Json.text (codes "error")) Fields.end)),
  suc w,
)

check_dashboards-coherent_example :
    Passes is_coherent
      (check_dashboards python query
        (codes "ip-country-api")
        ((codes "other", payload) ∷ [])
        []
        0).0
check_dashboards-coherent_example =
    check_dashboards-coherent python query (codes "ip-country-api") ((codes "other", payload) ∷ [])
      [] 0 refl

-- The check of the panel's target.
abbrev asked : Text → Check
asked uid = record {
  dashboard = uid;
  panel = codes "1";
  expression = codes "up{pod=~\".*\"}";
  valid = false;
  useful = false;
  legitimate_zero = false;
  empty_allowed = false;
  finite = false;
  error = some (Json.text (codes "Prometheus API error"));
}

-- A check that Prometheus has refused.
abbrev refused : Check
refused = record {
  dashboard = codes "other";
  panel = codes "Up";
  expression = codes "up";
  valid = false;
  useful = false;
  legitimate_zero = false;
  empty_allowed = false;
  finite = false;
  error = some (Json.text (codes "HTTPError"));
}

exit_code_iff_example : (exit_code (refused ∷ []) ≡ 0) ↔ (all is_fine (refused ∷ []) ≡ true)
exit_code_iff_example = exit_code_iff (refused ∷ [])

how_many-failures_example :
    (how_many (λ c. c.useful) (failures (refused ∷ []))
      ≡ how_many (λ c. c.useful && not (is_fine c)) (refused ∷ [])
        + how_many (λ c. c.useful && is_listed_twice c) (refused ∷ []))
    × (how_many (λ c. not c.valid) (failures (refused ∷ []))
        ≡ 2 * how_many (λ c. not c.valid) (refused ∷ []))
how_many-failures_example = how_many-failures (λ c. c.useful) (refused ∷ []) refl

two_of_one : length (failures (refused ∷ [])) ≡ 2
unfolding failures
two_of_one = refl

abbrev dashboards : List (Text × Json)
dashboards = (codes "other", payload) ∷ (codes "another", payload) ∷ []

answered :
    (check_dashboards python query (codes "ip-country-api") dashboards [] 0).0
    ≡ some (asked (codes "other") ∷ asked (codes "another") ∷ [])
unfolding check_dashboards check_panels check_targets judge_reply iter_panels is_panel
    render_expression render_variables render_variable substitute substitutions has_field get_field
    replace replace_from starts_with
answered = refl

check_dashboards-AddsUp_example :
    AddsUp
      (asked (codes "other") ∷ asked (codes "another") ∷ [])
      (codes "other" ∷ codes "another" ∷ [])
check_dashboards-AddsUp_example =
    check_dashboards-AddsUp python query (codes "ip-country-api") dashboards 0
      (asked (codes "other") ∷ asked (codes "another") ∷ []) refl answered
