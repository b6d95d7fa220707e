-- ===== src/Text/Strip.antt =====
-- What `strip` and `rstrip` leave.
use arvan_ip_country_api.Prelude.{
  ℕ, ◌≤◌, ◌≡◌, refl, ◌∙◌, ap, Bool, true, Option, none, some, [], ◌∷◌, ◌++◌, arith, ◌==◌, length,
  all, Bool-cases, inl, inr,
}
use arvan_ip_country_api.Text.{
  Text, is_space, lstrip_by, rstrip_by, keep_or_drop, strip, rstrip_slash,
}

-- The last character.
abbrev pub last? : Text → Option ℕ
last? [] = none
last? (c ∷ []) = some c
last? (c ∷ d ∷ s) = last? (d ∷ s)

module _ (drops : ℕ → Bool) where
  lstrip_by-append :
      (ws s : Text) → all drops ws ≡ true → lstrip_by drops (ws ++ s) ≡ lstrip_by drops s
  unfolding lstrip_by
  lstrip_by-append [] s h = refl
  lstrip_by-append (c ∷ ws) s h = ground (arith, lstrip_by-append ws s)

  rstrip_by-all : (ws : Text) → all drops ws ≡ true → rstrip_by drops ws ≡ []
  unfolding rstrip_by
  rstrip_by-all [] h = refl
  rstrip_by-all (c ∷ ws) h = ground (arith, rstrip_by-all ws)

  rstrip_by-append :
      (s ws : Text) → all drops ws ≡ true → rstrip_by drops (s ++ ws) ≡ rstrip_by drops s
  unfolding rstrip_by
  rstrip_by-append [] ws h = rstrip_by-all ws h
  rstrip_by-append (c ∷ s) ws h = ap (keep_or_drop drops c) (rstrip_by-append s ws h)

  -- Whitespace before and after a text does not change what is left of it, unless it is empty.
  lstrip_by-append_end :
      (s ws : Text)
      → all drops ws ≡ true
      → rstrip_by drops (lstrip_by drops (s ++ ws)) ≡ rstrip_by drops (lstrip_by drops s)
  unfolding lstrip_by rstrip_by
  lstrip_by-append_end [] ws h = rstrip_by-all (lstrip_by drops ws) (all-lstrip_by ws h)
    where
      all-lstrip_by : (t : Text) → all drops t ≡ true → all drops (lstrip_by drops t) ≡ true
      all-lstrip_by [] e = refl
      all-lstrip_by (c ∷ t) e = ground (arith, all-lstrip_by t)
  lstrip_by-append_end (c ∷ s) ws h = elim (Bool-cases (drops c)) [
    | inl e ↦ rw e (lstrip_by-append_end s ws h)
    | inr e ↦ rw e (rstrip_by-append (c ∷ s) ws h)
  ]

  rstrip_by_idem : (s : Text) → rstrip_by drops (rstrip_by drops s) ≡ rstrip_by drops s
  unfolding rstrip_by
  rstrip_by_idem [] = refl
  rstrip_by_idem (c ∷ s) = go (rstrip_by drops s) (rstrip_by_idem s)
    where
      go :
          (t : Text)
          → rstrip_by drops t ≡ t
          → rstrip_by drops (keep_or_drop drops c t) ≡ keep_or_drop drops c t
      go [] e = ground arith
      go (d ∷ t) e = ap (keep_or_drop drops c) e

  length-rstrip_by : (s : Text) → length (rstrip_by drops s) ≤ length s
  unfolding rstrip_by
  length-rstrip_by [] = omega arith
  length-rstrip_by (c ∷ s) = go (rstrip_by drops s) (length-rstrip_by s)
    where
      go : (t : Text) → length t ≤ length s → length (keep_or_drop drops c t) ≤ length (c ∷ s)
      go [] e = ground arith
      go (d ∷ t) e = omega arith

pub strip-pad :
    (before s behind : Text)
    → all is_space before ≡ true
    → all is_space behind ≡ true
    → strip (before ++ (s ++ behind)) ≡ strip s
unfolding strip
strip-pad before s behind hb ha =
    ap (rstrip_by is_space) (lstrip_by-append is_space before (s ++ behind) hb)
    ∙ lstrip_by-append_end is_space s behind ha

pub rstrip_slash-append :
    (s slashes : Text)
    → all (λ c. c == b'/') slashes ≡ true
    → rstrip_slash (s ++ slashes) ≡ rstrip_slash s
unfolding rstrip_slash
rstrip_slash-append s slashes h = rstrip_by-append (λ c. c == b'/') s slashes h

pub rstrip_slash_idem : (s : Text) → rstrip_slash (rstrip_slash s) ≡ rstrip_slash s
unfolding rstrip_slash
rstrip_slash_idem s = rstrip_by_idem (λ c. c == b'/') s
