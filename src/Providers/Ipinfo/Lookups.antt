-- ===== src/Providers/Ipinfo/Lookups.antt =====
-- `lookup` of providers/ipinfo.py: the number of its requests, the exceptions that leave it, the
-- samples that it records and the country that it returns.
use arvan_ip_country_api.Prelude.{
  List, ℕ, zero, suc, ◌≤◌, ◌≡◌, refl, ap, ◌∙◌, inl, inr, Bool, true, false, [], ◌++◌, append-nil,
  append_assoc, arith, Bool-cases, replicate,
}
use arvan_ip_country_api.Text.{Text, UnicodeTables}
use arvan_ip_country_api.Domain.IpValidation.{IpLibrary}
use arvan_ip_country_api.Observability.Metrics.{Sample, recorded}
use arvan_ip_country_api.Effects.{
  Exception, Exec, Result, ok, raised, retryable_error, http_get, State, Clock, reach,
}
use arvan_ip_country_api.Providers.Ipinfo.{
  IpinfoLiteProvider, Response, Retrying, is_retryable, path_of, request,
}
use arvan_ip_country_api.Providers.Ipinfo.Requests.{
  IsHttpClient, error_samples, RaisedByRequest, RequestRun, request_run,
}
use arvan_ip_country_api.Providers.Ipinfo.Retries.{again, retry_loop}

abbrev pub is_retried : {R : Type 0} → Result R → Bool
is_retried (ok r) = false
is_retried (raised e) = is_retryable e

-- What at most `n + 1` attempts do.
pub record LoopRun {W : Type 0} (path : Text) (n : ℕ) (s : State W) (o : Result Response × State W)
    : Type 0 where
  pub enabled : o.1.metrics.enabled ≡ s.metrics.enabled
  pub samples :
      o.1.metrics.samples ≡ s.metrics.samples ++ recorded s.metrics.enabled (error_samples o.0)
  pub log : o.1.log ≡ s.log
  pub raises : RaisedByRequest o.0
  pub more : ℕ
  pub at_most : more ≤ n
  pub calls : o.1.calls ≡ s.calls ++ replicate (suc more) (http_get path)
  pub exhausted : is_retried o.0 ≡ true → more ≡ n

-- A retryable exception has left no sample.
no_samples : (e : Exception) → is_retryable e ≡ true → error_samples {R = Response} (raised e) ≡ []
unfolding is_retryable
no_samples retryable_error h = refl
no_samples _ h = ground arith

-- So the loop behind it records what both record.
more_samples :
    (a b : Bool) (x y z new : List Sample) (e : Exception)
    → is_retryable e ≡ true
    → b ≡ a
    → y ≡ x ++ recorded a (error_samples {R = Response} (raised e))
    → z ≡ y ++ recorded b new
    → z ≡ x ++ recorded a new
more_samples true b x y z new e h p q r = cc (no_samples e h, append-nil x, p, q, r)
more_samples false b x y z new e h p q r = cc (append-nil x, p, q, r)

module _ {A W : Type 0} (lib : IpLibrary A) (clock : Clock W) (tables : UnicodeTables)
    (retrying : Retrying W) (self : IpinfoLiteProvider W) (law : IsHttpClient self.client) where
  abbrev pub req : A → Exec W Response
  req ip = request lib clock tables retrying self ip

  abbrev pub loop : ℕ → A → Exec W Response
  loop n ip = retry_loop retrying.pause is_retryable n (req ip)

  one_run :
      (n : ℕ) (ip : A) (s : State W) (o : Result Response × State W)
      → RequestRun (path_of lib ip) s o
      → (is_retried o.0 ≡ true → 0 ≡ n)
      → LoopRun (path_of lib ip) n s o
  one_run n ip s o r last = record {
    enabled = r.enabled;
    samples = r.samples;
    log = r.log;
    raises = r.raises;
    more = 0;
    at_most = omega arith;
    calls = r.calls;
    exhausted = last;
  }

  -- An attempt that is to be repeated, and a loop behind it.
  more_run :
      (n : ℕ) (ip : A) (s t : State W) (e : Exception) (o : Result Response × State W) (w : W)
      → RequestRun {R = Response} (path_of lib ip) s (raised e, t)
      → is_retryable e ≡ true
      → LoopRun (path_of lib ip) n (reach w t) o
      → LoopRun (path_of lib ip) (suc n) s o
  more_run n ip s t e o w r y l = record {
    enabled = l.enabled ∙ r.enabled;
    samples = more_samples _ _ _ _ _ _ e y r.enabled r.samples l.samples;
    log = l.log ∙ r.log;
    raises = l.raises;
    more = suc l.more;
    at_most = omega (arith, l.at_most);
    calls =
        l.calls
        ∙ ap (λ c. c ++ replicate (suc l.more) (http_get (path_of lib ip))) r.calls
        ∙ rw append_assoc;
    exhausted = λ h. ap suc (l.exhausted h);
  }

  pub loop_run : (n : ℕ) (ip : A) (s : State W) → LoopRun (path_of lib ip) n s (loop n ip s)
  unfolding retry_loop
  loop_run zero ip s =
      one_run 0 ip s _ (request_run lib clock tables retrying self law ip s) (λ h. refl)
  loop_run (suc n) ip s =
      step (req ip s) (request_run lib clock tables retrying self law ip s) (loop_run n ip)
    where
      step :
          (o : Result Response × State W)
          → RequestRun (path_of lib ip) s o
          → ((u : State W) → LoopRun (path_of lib ip) n u (loop n ip u))
          → LoopRun
              (path_of lib ip)
              (suc n)
              s
              (again retrying.pause is_retryable n (loop n ip) o.0 o.1)
      step (ok a, t) r ih = one_run (suc n) ip s (ok a, t) r (λ h. cc)
      step (raised e, t) r ih = elim (Bool-cases (is_retryable e)) [
        | inl y ↦ rw y (more_run n ip s t e _ _ r y (ih _))
        | inr y ↦ rw y (one_run (suc n) ip s (raised e, t) r (λ h. cc))
      ]
