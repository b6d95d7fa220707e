-- ===== src/Text/Replacing.antt =====
-- What `str.replace` leaves of a token: a token is gone if it is replaced by other characters, and no other
-- replacement makes one.
use arvan_ip_country_api.Prelude.{
  ℕ, zero, suc, ◌-◌, ◌≡◌, refl, Bool, true, false, not, ◌==◌, [], ◌∷◌, ◌++◌, all, any, length,
  arith, if◌then◌else◌,
}
use arvan_ip_country_api.Text.{Text, starts_with, replace_from, occurs}

-- No character of a text is one of another's.
abbrev pub avoids : Text → Text → Bool
avoids t new = all (λ c. not (any (λ d. d == c) new)) t

-- A match in the output, at its start, is a match in the input: what is put in has other characters.
starts_with-replace_from :
    (old new : Text) (n : ℕ) (s t : Text)
    → avoids t (n ∷ new) ≡ true
    → starts_with (replace_from zero old (n ∷ new) s) t ≡ true
    → starts_with s t ≡ true
unfolding replace_from starts_with
starts_with-replace_from old new n s [] a h = refl
starts_with-replace_from old new n [] (c ∷ t) a h = cc
starts_with-replace_from old new n (d ∷ s) (c ∷ t) a h =
    ground (arith, starts_with-replace_from old new n s t)

-- What is put in before a text makes no new match.
occurs-append :
    (new rest : Text) (u : ℕ) (us : Text)
    → any (λ d. d == u) new ≡ false
    → occurs (u ∷ us) rest ≡ false
    → occurs (u ∷ us) (new ++ rest) ≡ false
unfolding occurs starts_with
occurs-append [] rest u us a h = h
occurs-append (n ∷ new) rest u us a h = ground (arith, occurs-append new rest u us)

module _ (u : ℕ) (us : Text) where
  abbrev token : Text
  token = u ∷ us

  branch :
      (b : Bool) (x y : Text)
      → (b ≡ true → occurs token x ≡ false)
      → (b ≡ false → occurs token y ≡ false)
      → occurs token (if b then x else y) ≡ false
  branch true x y f g = f refl
  branch false x y f g = g refl

  matched :
      (n : ℕ) (new rest : Text)
      → avoids token (n ∷ new) ≡ true
      → occurs token rest ≡ false
      → occurs token ((n ∷ new) ++ rest) ≡ false
  matched n new rest a h = occurs-append (n ∷ new) rest u us (ground arith) h

  unmatched :
      (old new : Text) (n c : ℕ) (s : Text)
      → avoids token (n ∷ new) ≡ true
      → starts_with (c ∷ s) token ≡ false
      → occurs token (replace_from zero old (n ∷ new) s) ≡ false
      → occurs token (c ∷ replace_from zero old (n ∷ new) s) ≡ false
  unfolding occurs starts_with
  unmatched old new n c s a e h = ground (arith, starts_with-replace_from old new n s us)

  -- A replacement by other characters makes no token.
  pub occurs-replace_from :
      (old new : Text) (n k : ℕ) (s : Text)
      → avoids token (n ∷ new) ≡ true
      → occurs token s ≡ false
      → occurs token (replace_from k old (n ∷ new) s) ≡ false
  unfolding replace_from occurs
  occurs-replace_from old new n k [] a h = refl
  occurs-replace_from old new n (suc k) (c ∷ s) a h =
      occurs-replace_from old new n k s a (ground arith)
  occurs-replace_from old new n zero (c ∷ s) a h =
      let tail : occurs token s ≡ false = ground arith in
      let first : starts_with (c ∷ s) token ≡ false = ground arith in
      let rest = occurs-replace_from old new n (length old - 1) s a tail in
      let same = occurs-replace_from old new n zero s a tail in
      branch (starts_with (c ∷ s) old) _ _ (λ e. matched n new _ a rest)
        (λ e. unmatched old new n c s a first same)

  -- The token that is replaced is gone.
  pub occurs-replaced :
      (new : Text) (n k : ℕ) (s : Text)
      → avoids token (n ∷ new) ≡ true
      → occurs token (replace_from k token (n ∷ new) s) ≡ false
  unfolding replace_from occurs
  occurs-replaced new n k [] a = refl
  occurs-replaced new n (suc k) (c ∷ s) a = occurs-replaced new n k s a
  occurs-replaced new n zero (c ∷ s) a =
      let rest = occurs-replaced new n (length token - 1) s a in
      let same = occurs-replaced new n zero s a in
      branch (starts_with (c ∷ s) token) _ _ (λ e. matched n new _ a rest)
        (λ e. unmatched token new n c s a e same)
