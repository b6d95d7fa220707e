-- ===== src/Verifier/Rendering.antt =====
-- `render_expression`: the template variables of an expression give way to patterns.
use arvan_ip_country_api.Prelude.{List, [], ◌∷◌, ◌++◌, if◌then◌else◌}
use arvan_ip_country_api.Text.{Text, codes, text_eq, replace}

-- `SUBSTITUTIONS.get(uid, {})`
unfoldable pub substitutions : Text → List (Text × Text)
substitutions uid =
    if text_eq uid (codes "ip-country-api-performance")
    then (codes "${namespace:regex}", codes "ip-country-api")
      ∷ (codes "${pod:regex}", codes ".*")
      ∷ (codes "${route:regex}", codes ".*")
      ∷ (codes "${status_code:regex}", codes ".*")
      ∷ []
    else if text_eq uid (codes "cloudnativepg-sre-performance")
    then (codes "${namespace:regex}", codes "database")
      ∷ (codes "${cluster:regex}", codes "ip-country-postgres")
      ∷ (codes "${instance:regex}", codes ".*")
      ∷ (codes "${database:regex}", codes "ip_country")
      ∷ []
    else if text_eq uid (codes "k3s-reliability-capacity")
    then (codes "${node:regex}", codes ".*")
      ∷ (codes "${namespace:regex}", codes ".*")
      ∷ (codes "${workload:regex}", codes ".*")
      ∷ []
    else []

-- `GENERIC_VARIABLES`
abbrev pub generic_variables : List (Text × Text)
generic_variables =
    (codes "cluster", codes ".*")
    ∷ (codes "instance", codes ".*")
    ∷ (codes "integration", codes ".*")
    ∷ (codes "job", codes ".*")
    ∷ (codes "namespace", codes ".*")
    ∷ (codes "node", codes ".*")
    ∷ (codes "pod", codes ".*")
    ∷ (codes "route", codes ".*")
    ∷ (codes "service", codes ".*")
    ∷ (codes "status_code", codes ".*")
    ∷ (codes "type", codes ".*")
    ∷ (codes "volume", codes ".*")
    ∷ (codes "workload", codes ".*")
    ∷ []

-- The spellings `${name:regex}`, `${name}` and `$name`.
abbrev pub regex_token : Text → Text
regex_token name = codes "${" ++ (name ++ codes ":regex}")

abbrev pub braced_token : Text → Text
braced_token name = codes "${" ++ (name ++ codes "}")

abbrev pub plain_token : Text → Text
plain_token name = codes "$" ++ name

-- `="..."` and `=~"..."`
abbrev pub exact : Text → Text
exact t = codes "=\"" ++ (t ++ codes "\"")

abbrev pub matching : Text → Text
matching t = codes "=~\"" ++ (t ++ codes "\"")

-- The first inner loop's body.
abbrev pub quoted : Text → Text → Text → Text
quoted token value s =
    replace (exact token) (matching value) (replace (matching token) (matching value) s)

-- The body of the loop over `GENERIC_VARIABLES`.
unfoldable pub render_variable : Text → Text → Text → Text
render_variable name value s =
    let s₁ = quoted (braced_token name) value s in
    let s₂ = quoted (plain_token name) value s₁ in
    let s₃ = replace (regex_token name) value s₂ in
    let s₄ = replace (braced_token name) value s₃ in replace (plain_token name) value s₄

unfoldable pub render_variables : List (Text × Text) → Text → Text
unfolding render_variable
render_variables [] s = s
render_variables ((name, value) ∷ more) s = render_variables more (render_variable name value s)

unfoldable pub substitute : List (Text × Text) → Text → Text
substitute [] s = s
substitute ((before, after) ∷ more) s = substitute more (replace before after s)

unfoldable pub render_expression : Text → Text → Text → Text
unfolding substitutions substitute
render_expression uid expression namespace = render_variables generic_variables (
    substitute (substitutions uid) (
      replace (codes "$__rate_interval") (codes "5m")
        (replace (codes "__APP_NAMESPACE__") namespace expression)))
