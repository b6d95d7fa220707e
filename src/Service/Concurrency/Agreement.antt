-- ===== src/Service/Concurrency/Agreement.antt =====
-- Concurrent misses converge: every task answers the same country, and the table holds that country.
use arvan_ip_country_api.Prelude.{
  ℕ, zero, suc, ◌≡◌, refl, Option, none, some, List, [], ◌∷◌, ◌++◌, replicate, subst,
}
use arvan_ip_country_api.Domain.Models.{CacheRecord, GeoIpResult}
use arvan_ip_country_api.Service.{cached_result, new_result}
use arvan_ip_country_api.Service.Concurrency.{
  Phase, waiting, asking, failed, seen, holding, stored, lost, answered, Act, read, hit, miss,
  answer, commit, finish, abandon, late_commit, no_read, no_check, no_answer, no_commit, no_finish,
  System, Step, step, Reach, here, next,
}

-- The country and provider that an answer of the provider names.
pub record SameCountry {A : Type 0} (r : GeoIpResult) (c : CacheRecord A) : Type 0 where
  pub country_code : c.country_code ≡ r.country_code
  pub country_name : c.country_name ≡ r.country_name
  pub provider : c.provider ≡ r.provider

module _ {A : Type 0} where
  abbrev pub All : (Phase A → Type 0) → List (Phase A) → Type 0
  All P [] = Unit
  All P (p ∷ ps) = P p × All P ps

  All-replace :
      (P : Phase A → Type 0) (before later : List (Phase A)) (p q : Phase A)
      → All P (before ++ (p ∷ later))
      → P p × (P q → All P (before ++ (q ∷ later)))
  All-replace P [] later p q (h, hs) = (h, λ k. (k, hs))
  All-replace P (x ∷ before) later p q (h, hs) =
      let (a, b) = All-replace P before later p q hs in (a, λ k. (h, b k))

  All-map :
      (P Q : Phase A → Type 0)
      → ((p : Phase A) → P p → Q p)
      → (ps : List (Phase A)) → All P ps
      → All Q ps
  All-map P Q f [] h = tt
  All-map P Q f (p ∷ ps) (h, hs) = (f p h, All-map P Q f ps hs)

  All-waiting : (P : Phase A → Type 0) → P waiting → (n : ℕ) → All P (replicate n waiting)
  All-waiting P h zero = tt
  All-waiting P h (suc n) = (h, All-waiting P h n)

module _ {A : Type 0} (ip : A) (ttl_seconds : ℕ) (r : GeoIpResult) where
  -- The provider gives this answer, if any.
  abbrev pub Only : GeoIpResult → Type 0
  Only x = x ≡ r

  abbrev pub IsFilled : Option (CacheRecord A) → Type 0
  IsFilled none = ⊥
  IsFilled (some c) = Unit

  -- A task names the provider's country, in the record that it holds and in its answer; and the cell is not empty
  -- once the task has seen a record, stored one or answered.
  abbrev pub Agrees : Option (CacheRecord A) → Phase A → Type 0
  Agrees cell (seen (some c)) = SameCountry r c × IsFilled cell
  Agrees cell (holding c) = SameCountry r c
  Agrees cell (stored c) = SameCountry r c × IsFilled cell
  Agrees cell (lost c) = SameCountry r c
  Agrees cell (answered result) =
      (result.country_code ≡ r.country_code)
      × (result.country_name ≡ r.country_name)
      × IsFilled cell
  Agrees cell _ = Unit

  abbrev pub CellAgrees : Option (CacheRecord A) → Type 0
  CellAgrees none = Unit
  CellAgrees (some c) = SameCountry r c

  pub record IsSettled (s : System ip ttl_seconds Only) : Type 0 where
    pub tasks : All (Agrees s.cell) s.tasks
    pub cell : CellAgrees s.cell

  seen-Agrees : (cell : Option (CacheRecord A)) → CellAgrees cell → Agrees cell (seen cell)
  seen-Agrees none h = tt
  seen-Agrees (some c) h = (h, tt)

  -- A filled cell is enough for the tasks, whatever the cell was.
  Agrees-filled :
      (cell : Option (CacheRecord A)) (c : CacheRecord A) (p : Phase A)
      → Agrees cell p
      → Agrees (some c) p
  Agrees-filled cell c waiting h = tt
  Agrees-filled cell c asking h = tt
  Agrees-filled cell c failed h = tt
  Agrees-filled cell c (seen none) h = tt
  Agrees-filled cell c (seen (some d)) h = (h.0, tt)
  Agrees-filled cell c (holding d) h = h
  Agrees-filled cell c (stored d) h = (h.0, tt)
  Agrees-filled cell c (lost d) h = h
  Agrees-filled cell c (answered result) h = (h.0, h.1, tt)

  module _ (before later : List (Phase A)) (p q : Phase A)
      (cell cell' : Option (CacheRecord A)) where
    After : Type 0
    After = All (Agrees cell') (before ++ (q ∷ later)) × CellAgrees cell'

    -- A task that leaves the cell alone and goes on to a phase that agrees.
    keeps :
        cell' ≡ cell
        → (Agrees cell p → Agrees cell q)
        → All (Agrees cell) (before ++ (p ∷ later))
        → CellAgrees cell
        → After
    unfolding After
    keeps e f h k = let (a, b) = All-replace (Agrees cell) before later p q h in rw e (b (f a), k)

    -- A task whose record is put into the cell.
    fills :
        (c : CacheRecord A)
        → cell' ≡ some c
        → (Agrees cell p → SameCountry r c)
        → (SameCountry r c → Agrees (some c) q)
        → All (Agrees cell) (before ++ (p ∷ later))
        → After
    unfolding After
    fills c e f g h =
        let same = f (All-replace (Agrees cell) before later p p h).0 in
        let h' = All-map (Agrees cell) (Agrees (some c)) (Agrees-filled cell c) _ h in
        rw e ((All-replace (Agrees (some c)) before later p q h').1 (g same), same)

    act-settled :
        Act ip ttl_seconds Only cell p cell' q
        → All (Agrees cell) (before ++ (p ∷ later))
        → CellAgrees cell
        → After
    unfolding cached_result new_result
    act-settled (read ep e eq) h k = keeps e (λ u. rw eq (seen-Agrees cell k)) h k
    act-settled (hit now c ep fresh e eq) h k =
        keeps e
          (λ u.
            let (same, filled) = subst (Agrees cell) ep u in
            rw eq (same.country_code, same.country_name, filled))
          h k
    act-settled (miss now o ep stale e eq) h k = keeps e (λ u. rw eq tt) h k
    act-settled (answer x now expires ep ex fits e eq) h k =
        keeps e
          (λ u. rw (eq, ex) (record { country_code = refl; country_name = refl; provider = refl }))
          h k
    act-settled (commit c ep e eq) h k =
        fills c e (λ u. subst (Agrees cell) ep u) (λ same. rw eq (same, tt)) h
    act-settled (finish c ep e eq) h k =
        keeps e
          (λ u.
            let (same, filled) = subst (Agrees cell) ep u in
            rw eq (same.country_code, same.country_name, filled))
          h k
    act-settled (abandon c ep e eq) h k = keeps e (λ u. rw eq (subst (Agrees cell) ep u)) h k
    act-settled (late_commit c ep e eq) h k =
        fills c e (λ u. subst (Agrees cell) ep u) (λ same. rw eq tt) h
    act-settled (no_read ep e eq) h k = keeps e (λ u. rw eq tt) h k
    act-settled (no_check o ep e eq) h k = keeps e (λ u. rw eq tt) h k
    act-settled (no_answer ep e eq) h k = keeps e (λ u. rw eq tt) h k
    act-settled (no_commit c ep e eq) h k = keeps e (λ u. rw eq tt) h k
    act-settled (no_finish c ep e eq) h k = keeps e (λ u. rw eq tt) h k

  Step-IsSettled :
      {s t : System ip ttl_seconds Only} → Step ip ttl_seconds Only s t → IsSettled s → IsSettled t
  unfolding After
  Step-IsSettled {s} {t} (step before later p q es a et) h =
      let (x, y) =
        act-settled before later p q s.cell t.cell a (subst (All (Agrees s.cell)) es h.tasks)
          h.cell in
      record { tasks = rw et x; cell = y }

  -- Tasks that start together with no record in the table, against a provider that has one answer for the
  -- address, whatever the order in which they act, fail, are cancelled or lose the acknowledgement of a write: each
  -- one that has answered names the provider's country, and so does the record in the table, if there is one, which
  -- is so once a task has answered.
  pub concurrent_lookups-IsSettled :
      (n : ℕ) (t : System ip ttl_seconds Only)
      → Reach ip ttl_seconds Only (record { cell = none; tasks = replicate n waiting }) t
      → IsSettled t
  concurrent_lookups-IsSettled n t here = record {
    tasks = All-waiting (Agrees none) tt n;
    cell = tt;
  }
  concurrent_lookups-IsSettled n t (next before s) =
      Step-IsSettled s (concurrent_lookups-IsSettled n _ before)
