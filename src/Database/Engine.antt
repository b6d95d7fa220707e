-- ===== src/Database/Engine.antt =====
-- database/engine.py: the URL that the engine is given, and migrations/env.py, which rewrites it too.
use arvan_ip_country_api.Prelude.{
  ◌≡◌, refl, sym, ◌||◌, ◌⊎◌, Option, none, some, Bool, true, false, [], ◌∷◌, ◌++◌, if◌then◌else◌,
  arith, Bool-cases, inl, inr, ◌==◌,
}
use arvan_ip_country_api.Text.{Text, codes, starts_with, after, replace_first, replace_char}
use arvan_ip_country_api.Text.Search.{append-after, replace_first-prefix}
use mathlib.Core.Option
use arvan_ip_country_api.Config.{accepts_database_url}

abbrev plain : Text
plain = codes "postgresql://"

abbrev pub with_driver : Text
with_driver = codes "postgresql+psycopg://"

unfoldable pub engine_url : Text → Text
engine_url url = if starts_with url plain then replace_first plain with_driver url else url

-- `config.set_main_option("sqlalchemy.url", database_url.replace("%", "%%"))`
unfoldable pub main_option_url : Text → Text
unfolding replace_char
main_option_url url = replace_char b'%' (codes "%%") (engine_url url)

engine_url-plain :
    (url : Text) → starts_with url plain ≡ true → engine_url url ≡ with_driver ++ after url plain
unfolding engine_url
engine_url-plain url h = rw h (replace_first-prefix _ _ with_driver url h)

driver_prefix :
    (url : Text)
    → accepts_database_url url ≡ true
    → starts_with url plain ≡ false
    → starts_with url with_driver ≡ true
unfolding accepts_database_url
driver_prefix url h e = cases (starts_with url with_driver) (starts_with url plain) h e
  where
    cases : (a b : Bool) → (a || b) ≡ true → b ≡ false → a ≡ true
    cases true b h e = refl
    cases false b h e = cc

-- An accepted URL reaches the engine with psycopg as its driver, and with everything after the scheme
-- unchanged.
pub engine_url_lem :
    (url : Text)
    → accepts_database_url url ≡ true
    → (rest : Text) × (engine_url url ≡ with_driver ++ rest)
      × ((url ≡ plain ++ rest) ⊎ (url ≡ with_driver ++ rest))
engine_url_lem url h = elim (Bool-cases (starts_with url plain)) [
  | inl e ↦ (after url plain, engine_url-plain url e, inl (sym (append-after url plain e)))
  | inr e ↦
      let d = append-after url with_driver (driver_prefix url h e) in
      (after url with_driver, unfold engine_url in rw e (sym d), inr (sym d))
]

-- How configparser reads an option back: `%%` stands for `%`, and any other `%` is an error. The flag
-- is set behind the first `%` of two.
unfoldable pub interpolate : Bool → Text → Option Text
interpolate false [] = some []
interpolate true [] = none
interpolate true (c ∷ s) =
    let rest = interpolate false s in if c == b'%' then Option.map (λ t. c ∷ t) rest else none
interpolate false (c ∷ s) =
    let rest = interpolate false s in
    let behind = interpolate true s in if c == b'%' then behind else Option.map (λ t. c ∷ t) rest

interpolate-replace_char :
    (s : Text) → interpolate false (replace_char b'%' (codes "%%") s) ≡ some s
unfolding interpolate replace_char
interpolate-replace_char [] = refl
interpolate-replace_char (c ∷ s) = ground (arith, interpolate-replace_char s)

-- The URL that alembic reads from its configuration is the URL of the engine.
pub interpolate-main_option_url :
    (url : Text) → interpolate false (main_option_url url) ≡ some (engine_url url)
unfolding main_option_url
interpolate-main_option_url url = interpolate-replace_char (engine_url url)
