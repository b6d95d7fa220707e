-- ===== src/Config/Integers.antt =====
-- Signed integers of the settings, and their bounds.
use arvan_ip_country_api.Prelude.{ℕ, ◌≤◌, ◌≡◌, ◌↔◌, Bool, true, false, ◌&&◌, leb, arith}

-- `negsuc n` is -(n + 1).
pub data ℤ : Type 0 where
  pos : ℕ → ℤ
  negsuc : ℕ → ℤ

-- `lo ≤ z ≤ hi`, as a test and as a statement.
abbrev pub in_range : ℕ → ℕ → ℤ → Bool
in_range lo hi (pos n) = leb lo n && leb n hi
in_range lo hi (negsuc n) = false

abbrev pub InRange : ℕ → ℕ → ℤ → Type 0
InRange lo hi (pos n) = (lo ≤ n) × (n ≤ hi)
InRange lo hi (negsuc n) = ⊥

pub in_range_iff : (lo hi : ℕ) (z : ℤ) → (in_range lo hi z ≡ true) ↔ InRange lo hi z
in_range_iff lo hi (pos n) = ground arith
in_range_iff lo hi (negsuc n) = ground arith

-- The value of a setting that is known not to be negative.
abbrev pub to_ℕ : ℤ → ℕ
to_ℕ (pos n) = n
to_ℕ (negsuc n) = 0
