-- ===== src/Traffic/Ranks.antt =====
-- The percentiles of the latencies are nearest ranks.
use arvan_ip_country_api.Prelude.{
  ℕ, zero, suc, ◌+◌, ◌*◌, ◌-◌, ◌/◌, ◌≤◌, ◌<◌, ◌≡◌, refl, sym, ◌∙◌, Bool, true, ◌||◌, some, List, [],
  ◌∷◌, all, any, leb, ltb, ◌==◌, length, insert_by, sort_by, arith, Bool-cases, inl, inr,
  if◌then◌else◌,
}
use arvan_ip_country_api.Traffic.{get_elem?, percentile}

-- How many values pass a test.
abbrev pub count_by : (ℕ → Bool) → List ℕ → ℕ
count_by test [] = 0
count_by test (x ∷ xs) = (if test x then 1 else 0) + count_by test xs

abbrev IsAscending : List ℕ → Type 0
IsAscending [] = Unit
IsAscending (x ∷ xs) = (all (leb x) xs ≡ true) × IsAscending xs

count-insert :
    (test : ℕ → Bool) (x : ℕ) (xs : List ℕ)
    → count_by test (insert_by leb x xs) ≡ (if test x then 1 else 0) + count_by test xs
count-insert test x [] = refl
count-insert test x (y ∷ ys) = ground (arith, count-insert test x ys)

count-sort : (test : ℕ → Bool) (xs : List ℕ) → count_by test (sort_by leb xs) ≡ count_by test xs
count-sort test [] = refl
count-sort test (x ∷ xs) = rw (count-insert test x (sort_by leb xs), count-sort test xs) refl

length-insert : (x : ℕ) (xs : List ℕ) → length (insert_by leb x xs) ≡ suc (length xs)
length-insert x [] = refl
length-insert x (y ∷ ys) = ground (arith, length-insert x ys)

length-sort : (xs : List ℕ) → length (sort_by leb xs) ≡ length xs
length-sort [] = refl
length-sort (x ∷ xs) = rw (length-insert x (sort_by leb xs), length-sort xs) refl

all-insert :
    (test : ℕ → Bool) (x : ℕ) (xs : List ℕ)
    → test x ≡ true
    → all test xs ≡ true
    → all test (insert_by leb x xs) ≡ true
all-insert test x [] h k = ground arith
all-insert test x (y ∷ ys) h k = ground (arith, all-insert test x ys)

any-insert :
    (test : ℕ → Bool) (x : ℕ) (xs : List ℕ)
    → any test (insert_by leb x xs) ≡ (test x || any test xs)
any-insert test x [] = refl
any-insert test x (y ∷ ys) = ground (arith, any-insert test x ys)

any-sort : (test : ℕ → Bool) (xs : List ℕ) → any test (sort_by leb xs) ≡ any test xs
any-sort test [] = refl
any-sort test (x ∷ xs) = rw (any-insert test x (sort_by leb xs), any-sort test xs) refl

all-leb : (x y : ℕ) (ys : List ℕ) → leb x y ≡ true → all (leb y) ys ≡ true → all (leb x) ys ≡ true
all-leb x y [] h k = refl
all-leb x y (z ∷ zs) h k = ground (arith, all-leb x y zs)

insert-IsAscending : (x : ℕ) (xs : List ℕ) → IsAscending xs → IsAscending (insert_by leb x xs)
insert-IsAscending x [] h = (refl, tt)
insert-IsAscending x (y ∷ ys) (h, k) = elim (Bool-cases (leb x y)) [
  | inl p ↦ rw p (rw p (all-leb x y ys p h), (h, k))
  | inr p ↦ rw p (all-insert (leb y) x ys (ground arith) h, insert-IsAscending x ys k)
]

sort-IsAscending : (xs : List ℕ) → IsAscending (sort_by leb xs)
sort-IsAscending [] = tt
sort-IsAscending (x ∷ xs) = insert-IsAscending x (sort_by leb xs) (sort-IsAscending xs)

none_below : (x : ℕ) (xs : List ℕ) → all (leb x) xs ≡ true → count_by (λ y. ltb y x) xs ≡ 0
none_below x [] h = refl
none_below x (y ∷ ys) h = ground (arith, none_below x ys)

below_member : (x v : ℕ) (xs : List ℕ) → all (leb x) xs ≡ true → any (λ y. y == v) xs ≡ true → x ≤ v
below_member x v [] h k = cc
below_member x v (y ∷ ys) h k = ground (arith, below_member x v ys)

-- The value at an index: how many are at most as large, and how many are smaller.
record At (xs : List ℕ) (i : ℕ) : Type 0 where
  value : ℕ
  found : get_elem? xs i ≡ some value
  member : any (λ y. y == value) xs ≡ true
  reached : i < count_by (λ y. leb y value) xs
  below : count_by (λ y. ltb y value) xs ≤ i

at : (xs : List ℕ) (i : ℕ) → IsAscending xs → i < length xs → At xs i
at [] i h k = absurd (omega arith)
at (x ∷ xs) zero (h, k) l = record {
  value = x;
  found = refl;
  member = ground arith;
  reached = ground arith;
  below = ground (arith, none_below x xs h);
}
at (x ∷ xs) (suc i) (h, k) l =
    let rest = at xs i k (omega arith) in
    let le = below_member x rest.value xs h rest.member in
    record {
      value = rest.value;
      found = rest.found;
      member = ground (arith, rest.member);
      reached = ground (arith, rest.reached);
      below = ground (arith, rest.below);
    }

-- A value of the list such that at least `quantile` in 100 values are at most as large, and fewer are smaller.
pub record IsPercentile (values : List ℕ) (quantile value : ℕ) : Type 0 where
  pub member : any (λ y. y == value) values ≡ true
  pub reached : quantile * length values ≤ 100 * count_by (λ y. leb y value) values
  pub below : 100 * count_by (λ y. ltb y value) values < quantile * length values

rank_bounds :
    (k n : ℕ)
    → 1 ≤ k
    → k ≤ 100 * n
    → ((k + 99) / 100 - 1 < n)
      × (100 * ((k + 99) / 100 - 1) < k)
      × (k ≤ 100 * (((k + 99) / 100 - 1) + 1))
rank_bounds k n h l = (omega arith, omega arith, omega arith)

times_le : (q n : ℕ) → q ≤ 100 → q * n ≤ 100 * n
times_le q zero h = omega arith
times_le q (suc n) h =
    let e : q * suc n ≡ q * n + q = omega arith in rw e (omega (arith, times_le q n h))

one_le_times : (q n : ℕ) → 1 ≤ q → 1 ≤ n → 1 ≤ q * n
one_le_times q zero h k = absurd (omega arith)
one_le_times q (suc n) h k = let e : q * suc n ≡ q * n + q = omega arith in rw e (omega arith)

product_bounds : (q n : ℕ) → 1 ≤ q → q ≤ 100 → 1 ≤ n → (1 ≤ q * n) × (q * n ≤ 100 * n)
product_bounds q n h k l = (one_le_times q n h l, times_le q n k)

-- If there are values, `percentile` does not raise an IndexError: for a quantile between 1 and 100 hundredths it
-- returns the nearest rank, one of the values such that at least that share of the values are at most as large, and
-- less than that share are smaller.
pub percentile-IsPercentile :
    (values : List ℕ) (quantile : ℕ)
    → 1 ≤ length values
    → 1 ≤ quantile
    → quantile ≤ 100
    → (value : ℕ) × (percentile values quantile ≡ some value) × IsPercentile values quantile value
unfolding percentile
percentile-IsPercentile [] quantile h l u = absurd (omega arith)
percentile-IsPercentile (v ∷ vs) quantile h l u =
    let xs = v ∷ vs in
    let (p, q) = product_bounds quantile (length xs) l u h in
    let (bound, lower, upper) = rank_bounds (quantile * length xs) (length xs) p q in
    let rest =
      at (sort_by leb xs) ((quantile * length xs + 99) / 100 - 1) (sort-IsAscending xs)
        (rw (length-sort xs) bound) in
    (
      rest.value,
      rw (length-sort xs) rest.found,
      record {
        member = sym (any-sort (λ y. y == rest.value) xs) ∙ rest.member;
        reached = omega (arith, count-sort (λ y. leb y rest.value) xs, rest.reached, upper);
        below = omega (arith, count-sort (λ y. ltb y rest.value) xs, rest.below, lower);
      },
    )
