-- ===== src/Text/Search.antt =====
-- Prefixes and replacement.
use arvan_ip_country_api.Prelude.{ℕ, ◌≡◌, refl, true, [], ◌∷◌, ◌++◌, arith}
use arvan_ip_country_api.Text.{Text, starts_with, after, replace_first}

pub starts_with-append : (prefix s : Text) → starts_with (prefix ++ s) prefix ≡ true
unfolding starts_with
starts_with-append [] s = refl
starts_with-append (p ∷ prefix) s = ground (arith, starts_with-append prefix s)

-- A text with a prefix is the prefix and what stands after it.
pub append-after : (s prefix : Text) → starts_with s prefix ≡ true → prefix ++ after s prefix ≡ s
unfolding starts_with after
append-after s [] h = refl
append-after [] (p ∷ prefix) h = ground arith
append-after (c ∷ s) (p ∷ prefix) h = ground (arith, append-after s prefix)

-- At the start of the text, the first occurrence is the prefix.
pub replace_first-prefix :
    (c : ℕ) (old new s : Text)
    → starts_with s (c ∷ old) ≡ true
    → replace_first (c ∷ old) new s ≡ new ++ after s (c ∷ old)
unfolding replace_first
replace_first-prefix c old new [] h = ground arith
replace_first-prefix c old new (d ∷ s) h = rw h
