-- ===== src/Api/Health/Laws.antt =====
-- When the readiness route reports that the service is ready.
use arvan_ip_country_api.Prelude.{ℕ, String, ◌≡◌, refl, ◌↔◌, arith}
use arvan_ip_country_api.Domain.Errors.{AppError}
use arvan_ip_country_api.Effects.{Exception, Exec, Result, ok, raised, app, State}
use arvan_ip_country_api.Api.{Response}
use arvan_ip_country_api.Api.Health.{classify, check, ready, of_check}

-- The route answers, with this status.
abbrev pub HasStatus : Result Response → ℕ → Type 0
HasStatus (ok r) n = r.status_code ≡ n
HasStatus (raised e) n = ⊥

module _ {W : Type 0} (version : String) (probe : Exec W (Unit {0})) (s : State W) where
  raised-unready :
      (e : Exception) (t : State W) → HasStatus (of_check version (raised e) t).0 200 → ⊥
  raised-unready (app e) t h = by_error e h
    where
      by_error : (e : AppError) → HasStatus (of_check version (raised (app e)) t).0 200 → ⊥
      by_error AppError.database_unavailable h = omega (arith, h)
      by_error AppError.database_schema_unavailable h = omega (arith, h)
      by_error _ h = h
  raised-unready _ t h = h

  -- The route answers with status 200 exactly if the probe of the table returns.
  pub ready_iff : HasStatus (ready version probe s).0 200 ↔ ((probe s).0 ≡ ok tt)
  unfolding ready check
  ready_iff = go (probe s)
    where
      go :
          (o : Result (Unit {0}) × State W)
          → HasStatus (of_check version (check (λ u. o) s).0 (check (λ u. o) s).1).0 200
            ↔ (o.0 ≡ ok tt)
      go (ok tt, t) = (λ h. refl, λ h. refl)
      go (raised e, t) = (λ h. absurd (raised-unready (classify e) t h), λ h. cc)
