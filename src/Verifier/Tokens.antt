-- ===== src/Verifier/Tokens.antt =====
-- No template variable is left in a rendered expression.
use arvan_ip_country_api.Prelude.{
  ℕ, zero, ◌≡◌, refl, Bool, true, false, not, ◌&&◌, List, [], ◌∷◌, ◌++◌, all, arith,
}
use arvan_ip_country_api.Text.{Text, codes, replace, occurs}
use arvan_ip_country_api.Text.Replacing.{avoids, occurs-replace_from, occurs-replaced}
use arvan_ip_country_api.Verifier.Rendering.{
  exact, matching, quoted, regex_token, braced_token, plain_token, generic_variables,
  render_variable, render_variables, render_expression,
}

abbrev pattern_text : Text
pattern_text = codes ".*"

-- A token with no character of `=~".*"`.
abbrev is_safe : Text → Bool
is_safe t = avoids t pattern_text && avoids t (matching pattern_text)

replace-keeps :
    (u : ℕ) (us old : Text) (s : Text)
    → is_safe (u ∷ us) ≡ true
    → occurs (u ∷ us) s ≡ false
    → (occurs (u ∷ us) (replace old pattern_text s) ≡ false)
      × (occurs (u ∷ us) (replace old (matching pattern_text) s) ≡ false)
unfolding replace
replace-keeps u us old s a h = (
  occurs-replace_from u us old (codes "*") b'.' zero s (ground arith) h,
  occurs-replace_from u us old (codes "~\".*\"") b'=' zero s (ground arith) h,
)

replace-removes :
    (u : ℕ) (us s : Text)
    → is_safe (u ∷ us) ≡ true
    → occurs (u ∷ us) (replace (u ∷ us) pattern_text s) ≡ false
unfolding replace
replace-removes u us s a = occurs-replaced u us (codes "*") b'.' zero s (ground arith)

module _ (name s : Text) where
  abbrev s₁ : Text
  s₁ = quoted (braced_token name) pattern_text s

  abbrev s₂ : Text
  s₂ = quoted (plain_token name) pattern_text s₁

  abbrev s₃ : Text
  s₃ = replace (regex_token name) pattern_text s₂

  abbrev s₄ : Text
  s₄ = replace (braced_token name) pattern_text s₃

  render_variable-keeps :
      (u : ℕ) (us : Text)
      → is_safe (u ∷ us) ≡ true
      → occurs (u ∷ us) s ≡ false
      → occurs (u ∷ us) (render_variable name pattern_text s) ≡ false
  unfolding render_variable
  render_variable-keeps u us a h =
      let q = λ (token t : Text) (k : occurs (u ∷ us) t ≡ false).
        (replace-keeps u us (exact token) _ a (replace-keeps u us (matching token) t a k).1).1 in
      let p =
        λ (token t : Text) (k : occurs (u ∷ us) t ≡ false). (replace-keeps u us token t a k).0 in
      p (plain_token name) s₄ (
        p (braced_token name) s₃
          (p (regex_token name) s₂ (q (plain_token name) s₁ (q (braced_token name) s h))))

  -- The three spellings of a name are gone once it is rendered.
  render_variable-removes :
      (is_safe (regex_token name) ≡ true)
      → (is_safe (braced_token name) ≡ true)
      → (is_safe (plain_token name) ≡ true)
      → (occurs (regex_token name) (render_variable name pattern_text s) ≡ false)
        × (occurs (braced_token name) (render_variable name pattern_text s) ≡ false)
        × (occurs (plain_token name) (render_variable name pattern_text s) ≡ false)
  unfolding render_variable
  render_variable-removes a b c = (
    (replace-keeps _ _ (plain_token name) s₄ a
        (replace-keeps _ _ (braced_token name) s₃ a (replace-removes _ _ s₂ a)).0).0,
    (replace-keeps _ _ (plain_token name) s₄ b (replace-removes _ _ s₃ b)).0,
    replace-removes _ _ s₄ c,
  )

abbrev pub is_gone : Text → Text → Bool
is_gone r name =
    not (occurs (regex_token name) r)
    && not (occurs (braced_token name) r)
    && not (occurs (plain_token name) r)

abbrev is_safe_name : Text → Bool
is_safe_name name =
    is_safe (regex_token name) && is_safe (braced_token name) && is_safe (plain_token name)

abbrev with_pattern : List Text → List (Text × Text)
with_pattern [] = []
with_pattern (n ∷ ns) = (n, pattern_text) ∷ with_pattern ns

is_gone-keeps :
    (name other s : Text)
    → is_safe_name name ≡ true
    → is_gone s name ≡ true
    → is_gone (render_variable other pattern_text s) name ≡ true
is_gone-keeps name other s a h = ground (
  arith,
  render_variable-keeps other s b'$' (codes "{" ++ (name ++ codes ":regex}")),
  render_variable-keeps other s b'$' (codes "{" ++ (name ++ codes "}")),
  render_variable-keeps other s b'$' name,
)

is_gone-later :
    (names : List Text) (name s : Text)
    → is_safe_name name ≡ true
    → is_gone s name ≡ true
    → is_gone (render_variables (with_pattern names) s) name ≡ true
unfolding render_variables
is_gone-later [] name s a h = h
is_gone-later (n ∷ names) name s a h =
    is_gone-later names name (render_variable n pattern_text s) a (is_gone-keeps name n s a h)

all_gone :
    (names : List Text) (s : Text)
    → all is_safe_name names ≡ true
    → all (is_gone (render_variables (with_pattern names) s)) names ≡ true
unfolding render_variables
all_gone [] s h = refl
all_gone (n ∷ names) s h =
    let safe : is_safe_name n ≡ true = ground arith in
    let (a, b, c) = render_variable-removes n s (ground arith) (ground arith) (ground arith) in
    rw (is_gone-later names n (render_variable n pattern_text s) safe (ground arith))
      (all_gone names (render_variable n pattern_text s) (ground arith))

abbrev pub names_of : List (Text × Text) → List Text
names_of [] = []
names_of ((name, value) ∷ more) = name ∷ names_of more

-- In a rendered expression no variable of `GENERIC_VARIABLES` is left, in none of its spellings `${name}`,
-- `${name:regex}` and `$name`, whatever the dashboard, the expression and the namespace.
pub render_expression_complete :
    (uid expression namespace : Text)
    → all (is_gone (render_expression uid expression namespace)) (names_of generic_variables) ≡ true
unfolding render_expression
render_expression_complete uid expression namespace = all_gone (names_of generic_variables) _ refl
