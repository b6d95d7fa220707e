-- ===== src/Dashboards/Pack.antt =====
-- `main` of build-sre-dashboards.py: the dashboards are written to their files, or compared with them.
-- `json.dumps(payload, indent=2, ensure_ascii=False)` is a parameter, and the directory of the files is a
-- map from their names to their texts. What is printed is not modelled.
pub mod Committed
use arvan_ip_country_api.Prelude.{
  ℕ, String, Bool, true, false, not, Option, none, some, List, [], ◌∷◌, ◌++◌, name_eq,
  if◌then◌else◌,
}
use arvan_ip_country_api.Text.{Text, codes, text_eq}
use arvan_ip_country_api.Dashboards.{Dashboard}
use arvan_ip_country_api.Dashboards.SreOverview.{sre_overview}
use arvan_ip_country_api.Dashboards.ApiPerformance.{api_performance}

abbrev pub Files : Type 0
Files = String → Option Text

-- `path.write_text(content)`
unfoldable pub write_text : String → Text → Files → Files
write_text name content files = λ n. if name_eq n name then some content else files n

unfoldable pub expected : List (String × Dashboard)
expected =
    ("arvan-challenge-sre-overview.json", sre_overview)
    ∷ ("ip-country-api-performance.json", api_performance)
    ∷ []

-- `not path.exists() or path.read_text() != content`
abbrev pub is_stale : Option Text → Text → Bool
is_stale none text = true
is_stale (some found) text = not (text_eq found text)

-- `return 1` if a file is stale, else `return 0`
abbrev pub exit_code : List String → ℕ
exit_code [] = 0
exit_code (filename ∷ more) = 1

module _ (dumps : Dashboard → Text) where
  abbrev pub content : Dashboard → Text
  content payload = dumps payload ++ codes "\n"

  -- The loop over the generated dashboards, with `--check` and without.
  unfoldable pub mismatches : Files → List (String × Dashboard) → List String
  mismatches files [] = []
  mismatches files ((filename, payload) ∷ more) =
      let rest = mismatches files more in
      if is_stale (files filename) (content payload) then filename ∷ rest else rest

  unfoldable pub write_all : List (String × Dashboard) → Files → Files
  unfolding write_text
  write_all [] files = files
  write_all ((filename, payload) ∷ more) files =
      write_all more (write_text filename (content payload) files)

  -- The exit code and the files behind it.
  unfoldable pub main : Bool → Files → ℕ × Files
  unfolding mismatches write_all expected
  main true files = (exit_code (mismatches files expected), files)
  main false files = (0, write_all expected files)
