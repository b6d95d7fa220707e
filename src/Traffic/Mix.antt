-- ===== src/Traffic/Mix.antt =====
-- The shares of the categories in the traffic.
use arvan_ip_country_api.Prelude.{
  ℕ, zero, suc, ◌+◌, ◌*◌, ◌≡◌, refl, Bool, true, false, arith, if◌then◌else◌,
}
use arvan_ip_country_api.Text.{Text}
use arvan_ip_country_api.Traffic.{Category, cached_lookup, root, health, expected_4xx, request_for}

abbrev pub is_category : Category → Category → Bool
is_category cached_lookup cached_lookup = true
is_category root root = true
is_category health health = true
is_category expected_4xx expected_4xx = true
is_category _ _ = false

-- How many of the requests for `range(n)` are of a category.
abbrev pub count_category : Category → ℕ → Text → Text → ℕ
count_category c zero base_url cached_ip = 0
count_category c (suc n) base_url cached_ip =
    count_category c n base_url cached_ip
    + (if is_category c (request_for n base_url cached_ip).category then 1 else 0)

abbrev pub share : Category → ℕ
share cached_lookup = 85
share root = 10
share health = 3
share expected_4xx = 2

module _ (base_url cached_ip : Text) where
  category-bucket :
      (n k : ℕ)
      → (request_for (100 * n + k) base_url cached_ip).category
        ≡ (request_for k base_url cached_ip).category
  unfolding request_for
  category-bucket n k = ground arith

  count-block :
      (c : Category) (n k : ℕ)
      → count_category c (100 * n + k) base_url cached_ip
        ≡ count_category c (100 * n) base_url cached_ip + count_category c k base_url cached_ip
  count-block c n zero = let e : 100 * n + 0 ≡ 100 * n = omega arith in rw e (omega arith)
  count-block c n (suc k) =
      let e : 100 * n + suc k ≡ suc (100 * n + k) = omega arith in
      rw (e, count-block c n k, category-bucket n k) (omega arith)

  count-hundred : (c : Category) → count_category c 100 base_url cached_ip ≡ share c
  unfolding request_for
  count-hundred cached_lookup = refl
  count-hundred root = refl
  count-hundred health = refl
  count-hundred expected_4xx = refl

  times_suc : (a n : ℕ) → a * n + a ≡ a * suc n
  times_suc a n = omega arith

  -- Of the first `100 * n` requests, 85 in 100 are cached lookups, 10 fetch the page, 3 ask for the health,
  -- and 2 are bad on purpose.
  pub count_category_lem :
      (c : Category) (n : ℕ) → count_category c (100 * n) base_url cached_ip ≡ share c * n
  count_category_lem c zero = omega arith
  count_category_lem c (suc n) =
      let e : 100 * suc n ≡ 100 * n + 100 = omega arith in
      rw (e, count-block c n 100, count_category_lem c n, count-hundred c) (times_suc (share c) n)
