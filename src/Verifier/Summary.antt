-- ===== src/Verifier/Summary.antt =====
-- What the exit code and the summary's failures say of the checks.
use arvan_ip_country_api.Prelude.{
  ℕ, ◌+◌, ◌*◌, ◌≡◌, refl, ap, ◌∙◌, ◌↔◌, Bool, true, not, ◌&&◌, ◌||◌, List, [], ◌∷◌, ◌++◌, all,
  arith, if◌then◌else◌,
}
use arvan_ip_country_api.Verifier.Checks.{
  Check, invalid, unexplained_empty, non_finite, failures, exit_code,
}
use arvan_ip_country_api.Verifier.Verdict.{is_coherent}

abbrev pub is_fine : Check → Bool
is_fine c = c.valid && c.finite && (c.useful || c.empty_allowed)

exit_code-cons :
    (c : Check) (checks : List Check)
    → exit_code (c ∷ checks) ≡ (if is_fine c then exit_code checks else 1)
unfolding exit_code
exit_code-cons c checks = ground arith

-- The exit code is 0 exactly if every check is valid and finite, and useful unless it may be empty.
pub exit_code_iff : (checks : List Check) → (exit_code checks ≡ 0) ↔ (all is_fine checks ≡ true)
exit_code_iff [] = unfold exit_code in (λ h. refl, λ h. refl)
exit_code_iff (c ∷ checks) = ground (arith, exit_code-cons c checks, exit_code_iff checks)

abbrev pub how_many : (Check → Bool) → List Check → ℕ
how_many p [] = 0
how_many p (c ∷ cs) = (if p c then 1 else 0) + how_many p cs

-- Not finite, and also invalid or empty without leave.
abbrev pub is_listed_twice : Check → Bool
is_listed_twice c = not c.finite && (not c.valid || not c.empty_allowed)

how_many-append :
    (p : Check → Bool) (xs ys : List Check) → how_many p (xs ++ ys) ≡ how_many p xs + how_many p ys
how_many-append p [] ys = omega arith
how_many-append p (x ∷ xs) ys = omega (arith, how_many-append p xs ys)

how_many-lists :
    (p : Check → Bool) (checks : List Check)
    → all is_coherent checks ≡ true
    → how_many p (invalid checks)
        + (how_many p (unexplained_empty checks) + how_many p (non_finite checks))
      ≡ how_many (λ c. p c && not (is_fine c)) checks
        + how_many (λ c. p c && is_listed_twice c) checks
how_many-lists p [] h = refl
how_many-lists p (c ∷ checks) h = ground (arith, how_many-lists p checks)

twice_invalid :
    (checks : List Check)
    → all is_coherent checks ≡ true
    → how_many (λ c. not c.valid && not (is_fine c)) checks
        + how_many (λ c. not c.valid && is_listed_twice c) checks
      ≡ 2 * how_many (λ c. not c.valid) checks
twice_invalid [] h = refl
twice_invalid (c ∷ checks) h = ground (arith, twice_invalid checks)

count-failures :
    (p : Check → Bool) (checks : List Check)
    → all is_coherent checks ≡ true
    → how_many p (failures checks)
      ≡ how_many (λ c. p c && not (is_fine c)) checks
        + how_many (λ c. p c && is_listed_twice c) checks
unfolding failures
count-failures p checks h =
    how_many-append p (invalid checks) (unexplained_empty checks ++ non_finite checks)
    ∙ ap (λ n. how_many p (invalid checks) + n)
        (how_many-append p (unexplained_empty checks) (non_finite checks))
    ∙ how_many-lists p checks h

-- For coherent checks, and whatever is counted of them, the entry `failures` of the summary has each check that is not
-- fine once, and once more if it is not finite and also invalid or empty without leave, and no other check; so
-- each invalid check is in it twice.
pub how_many-failures :
    (p : Check → Bool) (checks : List Check)
    → all is_coherent checks ≡ true
    → (how_many p (failures checks)
        ≡ how_many (λ c. p c && not (is_fine c)) checks
          + how_many (λ c. p c && is_listed_twice c) checks)
      × (how_many (λ c. not c.valid) (failures checks) ≡ 2 * how_many (λ c. not c.valid) checks)
how_many-failures p checks h =
    (count-failures p checks h, count-failures (λ c. not c.valid) checks h ∙ twice_invalid checks h)
