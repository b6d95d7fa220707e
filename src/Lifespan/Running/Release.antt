-- ===== src/Lifespan/Running/Release.antt =====
-- What the end of the application releases.
use arvan_ip_country_api.Prelude.{◌≡◌, refl, ap, ◌∙◌, ◌⊎◌, inl, inr, Bool, false, [], ◌∷◌, ◌++◌}
use arvan_ip_country_api.Text.{Text}
use arvan_ip_country_api.Config.Integers.{ℤ}
use arvan_ip_country_api.Config.{Settings, make_settings, valid}
use arvan_ip_country_api.Effects.{Exec, Result, ok, State, write}
use arvan_ip_country_api.Lifespan.{fake_provider, ipinfo_provider, choose_provider}
use arvan_ip_country_api.Lifespan.Startup.{choose_provider_lem}
use arvan_ip_country_api.Lifespan.Running.{Resources, starting, stopped, fresh, and_then, lifespan}

-- A client and an engine that close without an exception. `open_client` tells whether the client has connections,
-- `open_engine` whether the engine has; neither writes to the log, and disposing leaves the client alone.
pub record IsReleasing {W : Type 0} (resources : Resources W) : Type 0 where
  pub open_client : W → Bool
  pub open_engine : W → Bool
  pub aclose_ok : (s : State W) → (resources.aclose s).0 ≡ ok tt
  pub aclose_log : (s : State W) → (resources.aclose s).1.log ≡ s.log
  pub aclose_closes : (s : State W) → open_client (resources.aclose s).1.world ≡ false
  pub dispose_ok : (s : State W) → (resources.dispose s).0 ≡ ok tt
  pub dispose_log : (s : State W) → (resources.dispose s).1.log ≡ s.log
  pub dispose_closes : (s : State W) → open_engine (resources.dispose s).1.world ≡ false
  pub dispose_keeps :
      (s : State W) → open_client (resources.dispose s).1.world ≡ open_client s.world

module _ {W : Type 0} (resources : Resources W) (law : IsReleasing resources) where
  -- The state in which the body starts, and what it leaves behind.
  abbrev pub body_run : Settings → Exec W (Unit {0}) → W → Result (Unit {0}) × State W
  body_run settings body w = body (write (starting settings) (fresh settings w))

  -- Without the IPinfo provider there is no client.
  pub record Ended (settings : Settings) (run : Result (Unit {0}) × State W)
      (o : Result (Unit {0}) × State W) : Type 0 where
    pub result : o.0 ≡ run.0
    pub log : o.1.log ≡ run.1.log ++ stopped ∷ []
    pub engine : law.open_engine o.1.world ≡ false
    pub client : (choose_provider settings ≡ fake_provider) ⊎ (law.open_client o.1.world ≡ false)

  fake_run :
      (t : Settings) (r : Result (Unit {0})) (u : State W)
      → choose_provider t ≡ fake_provider
      → Ended t (r, u) (and_then resources fake_provider r u)
  fake_run t r u p = rw (law.dispose_ok u) (record {
    result = refl;
    log = ap (λ l. l ++ stopped ∷ []) (law.dispose_log u);
    engine = law.dispose_closes u;
    client = inl p;
  })

  ipinfo_run :
      (t : Settings) (r : Result (Unit {0})) (u : State W) (url : Text) (timeout retries : ℤ)
      (token : Text)
      → Ended t (r, u) (and_then resources (ipinfo_provider url timeout token retries) r u)
  ipinfo_run t r u url timeout retries token =
      let v = (resources.aclose u).1 in
      rw (law.aclose_ok u, law.dispose_ok v)
        (record {
          result = refl;
          log = ap (λ l. l ++ stopped ∷ []) (law.dispose_log v ∙ law.aclose_log u);
          engine = law.dispose_closes v;
          client = inr (law.dispose_keeps v ∙ law.aclose_closes u);
        })

  -- With settings that pass the validators, whatever the serving of requests does, be it that it raises or is
  -- cancelled: the application ends as the serving did, says last that it has stopped, and leaves neither the
  -- engine nor, with IPinfo, the client open, if the two close without an exception.
  pub lifespan-Ended :
      (s t : Settings) (body : Exec W (Unit {0})) (w : W)
      → make_settings s ≡ valid t
      → Ended t (body_run t body w) (lifespan resources t body w)
  unfolding lifespan
  lifespan-Ended s t body w h = elim (choose_provider_lem s t h) [
    | inl (p, _) ↦ rw p (fake_run t _ _ p)
    | inr (token, _, p) ↦ rw p (
        ipinfo_run t (body_run t body w).0 (body_run t body w).1 t.geoip_provider_base_url
          t.geoip_provider_timeout_seconds t.geoip_provider_max_retries token.secret_value)
  ]
