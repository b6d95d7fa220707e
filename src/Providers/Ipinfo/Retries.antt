-- ===== src/Providers/Ipinfo/Retries.antt =====
-- What `lookup` relies on in tenacity's AsyncRetrying with `reraise=True`, and the loop that it runs.
use arvan_ip_country_api.Prelude.{
  ℕ, zero, suc, ◌≡◌, refl, sym, ◌∙◌, Bool, true, false, if◌then◌else◌, Bool-cases, inl, inr,
}
use arvan_ip_country_api.Effects.{Exception, Exec, Result, ok, raised, State, reach}
use arvan_ip_country_api.Providers.Ipinfo.{Response, Retrying}

-- An attempt that returns ends the loop, and so does one that raises what is not to be retried; the
-- last attempt's exception is raised again; another attempt follows after a pause.
pub record IsRetrying {W : Type 0} (retrying : Retrying W) : Type 0 where
  pub returns :
      (n : ℕ) (retries : Exception → Bool) (m : Exec W Response) (s : State W) {a : Response}
      {t : State W}
      → m s ≡ (ok a, t)
      → retrying.run (suc n) retries m s ≡ (ok a, t)
  pub gives_up :
      (n : ℕ) (retries : Exception → Bool) (m : Exec W Response) (s : State W) {e : Exception}
      {t : State W}
      → m s ≡ (raised e, t)
      → retries e ≡ false
      → retrying.run (suc n) retries m s ≡ (raised e, t)
  pub stops :
      (retries : Exception → Bool) (m : Exec W Response) (s : State W) {e : Exception} {t : State W}
      → m s ≡ (raised e, t)
      → retrying.run 1 retries m s ≡ (raised e, t)
  pub repeats :
      (n : ℕ) (retries : Exception → Bool) (m : Exec W Response) (s : State W) {e : Exception}
      {t : State W}
      → m s ≡ (raised e, t)
      → retries e ≡ true
      → retrying.run (suc (suc n)) retries m s
        ≡ retrying.run (suc n) retries m (reach (retrying.pause n t.world) t)

module _ {W : Type 0} (pause : ℕ → W → W) (retries : Exception → Bool) where
  -- What follows an attempt while there are more.
  abbrev pub again : ℕ → (State W → Result Response × State W) → Result Response → Exec W Response
  again n rest (ok a) t = (ok a, t)
  again n rest (raised e) t = if retries e then rest (reach (pause n t.world) t) else (raised e, t)

  -- An attempt, and at most `n` more.
  unfoldable pub retry_loop : ℕ → Exec W Response → Exec W Response
  retry_loop zero m s = m s
  retry_loop (suc n) m s = let (r, t) = m s in again n (retry_loop n m) r t

module _ {W : Type 0} (retrying : Retrying W) (law : IsRetrying retrying)
    (retries : Exception → Bool) where
  -- `run n` makes at most `n` attempts.
  pub run-eq-retry_loop :
      (n : ℕ) (m : Exec W Response) (s : State W)
      → retrying.run (suc n) retries m s ≡ retry_loop retrying.pause retries n m s
  unfolding retry_loop
  run-eq-retry_loop zero m s = last (m s) refl
    where
      last : (o : Result Response × State W) → m s ≡ o → retrying.run 1 retries m s ≡ m s
      last (ok a, t) e = law.returns 0 retries m s e ∙ sym e
      last (raised x, t) e = law.stops retries m s e ∙ sym e
  run-eq-retry_loop (suc n) m s = step (m s) refl (run-eq-retry_loop n m)
    where
      step :
          (o : Result Response × State W)
          → m s ≡ o
          → ((u : State W)
              → retrying.run (suc n) retries m u ≡ retry_loop retrying.pause retries n m u)
          → retrying.run (suc (suc n)) retries m s
            ≡ again retrying.pause retries n (retry_loop retrying.pause retries n m) o.0 o.1
      step (ok a, t) e ih = law.returns (suc n) retries m s e
      step (raised x, t) e ih = elim (Bool-cases (retries x)) [
        | inl y ↦ rw y (law.repeats n retries m s e y ∙ ih _)
        | inr y ↦ rw y (law.gives_up (suc n) retries m s e y)
      ]
