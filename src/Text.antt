-- ===== src/Text.antt =====
-- Texts as lists of code points, and the methods of Python's `str` that the program calls:
-- `strip`, `rstrip("/")`, `startswith`, `replace(old, new, 1)` and `==`. `lower`, `upper` and
-- `isalpha` depend on the Unicode tables and are the record `UnicodeTables`.
pub mod Strip
pub mod Search
pub mod Replacing
use Prim.Native.Char.{code}
use arvan_ip_country_api.Prelude.{
  ℕ, zero, suc, ◌-◌, length, String, ◌≡◌, refl, Bool, true, false, ◌&&◌, ◌||◌, ◌↔◌, List, [], ◌∷◌,
  ◌++◌, arith, leb, ltb, ◌==◌, if◌then◌else◌,
}

abbrev pub Text : Type 0
Text = List ℕ

-- The code points of a literal.
abbrev pub codes : String → Text
codes String.[] = []
codes (String.◌∷◌ c s) = code c ∷ codes s

-- `a == b` on texts.
abbrev pub text_eq : Text → Text → Bool
text_eq [] [] = true
text_eq [] (d ∷ t) = false
text_eq (c ∷ s) [] = false
text_eq (c ∷ s) (d ∷ t) = c == d && text_eq s t

pub text_eq_iff : (s t : Text) → (text_eq s t ≡ true) ↔ (s ≡ t)
text_eq_iff [] [] = ground arith
text_eq_iff [] (d ∷ t) = ground arith
text_eq_iff (c ∷ s) [] = ground arith
text_eq_iff (c ∷ s) (d ∷ t) = ground (arith, text_eq_iff s t)

pub text_eq_refl : (s : Text) → text_eq s s ≡ true
text_eq_refl s = (text_eq_iff s s).1 refl

-- `c.isspace()`: what `strip()` removes.
unfoldable pub is_space : ℕ → Bool
is_space c =
    (leb 9 c && leb c 13)
    || (leb 28 c && leb c 32)
    || c == 0x85
    || c == 0xa0
    || c == 0x1680
    || (leb 0x2000 c && leb c 0x200a)
    || c == 0x2028
    || c == 0x2029
    || c == 0x202f
    || c == 0x205f
    || c == 0x3000

-- Removing characters at either end.
module _ (drops : ℕ → Bool) where
  unfoldable pub lstrip_by : Text → Text
  lstrip_by [] = []
  lstrip_by (c ∷ s) = let rest = lstrip_by s in if drops c then rest else c ∷ s

  -- A character before a text that has lost its end.
  abbrev pub keep_or_drop : ℕ → Text → Text
  keep_or_drop c [] = if drops c then [] else c ∷ []
  keep_or_drop c (d ∷ s) = c ∷ d ∷ s

  unfoldable pub rstrip_by : Text → Text
  rstrip_by [] = []
  rstrip_by (c ∷ s) = keep_or_drop c (rstrip_by s)

-- `s.strip()`
unfoldable pub strip : Text → Text
unfolding lstrip_by rstrip_by is_space
strip s = rstrip_by is_space (lstrip_by is_space s)

-- `s.rstrip("/")`
unfoldable pub rstrip_slash : Text → Text
unfolding rstrip_by
rstrip_slash s = rstrip_by (λ c. c == b'/') s

-- `s.startswith(prefix)`
unfoldable pub starts_with : Text → Text → Bool
starts_with s [] = true
starts_with [] (p ∷ prefix) = false
starts_with (c ∷ s) (p ∷ prefix) = c == p && starts_with s prefix

-- The text after a prefix of the same length as `prefix`.
unfoldable pub after : Text → Text → Text
after s [] = s
after [] (p ∷ prefix) = []
after (c ∷ s) (p ∷ prefix) = after s prefix

-- `s.replace(old, new, 1)`, for a non-empty `old`
unfoldable pub replace_first : Text → Text → Text → Text
unfolding starts_with after
replace_first old new [] = []
replace_first old new (c ∷ s) =
    let rest = replace_first old new s in
    if starts_with (c ∷ s) old then new ++ after (c ∷ s) old else c ∷ rest

-- `s.replace(old, new)` where `old` is one character
unfoldable pub replace_char : ℕ → Text → Text → Text
replace_char old new [] = []
replace_char old new (c ∷ s) =
    let rest = replace_char old new s in if c == old then new ++ rest else c ∷ rest

-- What Python's Unicode tables decide: `s.lower()`, `s.upper()` and, of one character, `isalpha`.
pub record UnicodeTables : Type 0 where
  pub lower : Text → Text
  pub upper : Text → Text
  pub is_alpha_char : ℕ → Bool

-- `s <= t`, by the code points
unfoldable pub text_leb : Text → Text → Bool
text_leb [] t = true
text_leb (c ∷ s) [] = false
text_leb (c ∷ s) (d ∷ t) = ltb c d || (c == d && text_leb s t)

-- `s.replace(old, new)` for a non-empty `old`: `skip` characters of a match are still to be passed over.
unfoldable pub replace_from : ℕ → Text → Text → Text → Text
unfolding starts_with
replace_from skip old new [] = []
replace_from (suc skip) old new (c ∷ s) = replace_from skip old new s
replace_from zero old new (c ∷ s) =
    let matched = replace_from (length old - 1) old new s in
    let rest = replace_from zero old new s in
    if starts_with (c ∷ s) old then new ++ matched else c ∷ rest

unfoldable pub replace : Text → Text → Text → Text
unfolding replace_from
replace old new s = replace_from zero old new s

-- `token in s`, for a non-empty token
unfoldable pub occurs : Text → Text → Bool
unfolding starts_with
occurs token [] = false
occurs token (c ∷ s) = starts_with (c ∷ s) token || occurs token s
