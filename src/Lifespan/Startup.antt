-- ===== src/Lifespan/Startup.antt =====
-- What validated settings start.
use arvan_ip_country_api.Prelude.{◌≡◌, refl, sym, ap, ◌∙◌, ◌⊎◌, inl, inr, false, Option, none, some}
use arvan_ip_country_api.Config.{
  Settings, SecretStr, ProviderName, fake, ipinfo, lacks_token, valid, make_settings,
}
use arvan_ip_country_api.Config.Laws.{make_settings_iff}
use arvan_ip_country_api.Lifespan.{fake_provider, ipinfo_provider, choose_provider}

lacks_token-some :
    (o : Option SecretStr)
    → lacks_token o ≡ false
    → (token : SecretStr) × (o ≡ some token) × (lacks_token (some token) ≡ false)
unfolding lacks_token
lacks_token-some none h = cc
lacks_token-some (some token) h = (token, refl, h)

fake-apart : fake ≡ ipinfo → ⊥
fake-apart h = cc

provider-cases : (p : ProviderName) → (p ≡ fake) ⊎ (p ≡ ipinfo)
provider-cases fake = inl refl
provider-cases ipinfo = inr refl

ipinfo_choice :
    (t : Settings) (token : SecretStr)
    → t.geoip_provider ≡ ipinfo
    → t.ipinfo_token ≡ some token
    → choose_provider t
      ≡ ipinfo_provider t.geoip_provider_base_url t.geoip_provider_timeout_seconds
          token.secret_value t.geoip_provider_max_retries
unfolding choose_provider
ipinfo_choice t token p o = rw (p, o) refl

fake_choice : (t : Settings) → t.geoip_provider ≡ fake → choose_provider t ≡ fake_provider
unfolding choose_provider
fake_choice t p = rw p refl

-- Settings that pass the validators never meet the RuntimeError: they start the fake provider, and then
-- the environment is not production, or IPinfo with a token that is not blank.
pub choose_provider_lem :
    (s t : Settings)
    → make_settings s ≡ valid t
    → ((choose_provider t ≡ fake_provider) × (¬ (t.app_env ≡ "production")))
      ⊎ ((token : SecretStr) × (lacks_token (some token) ≡ false)
          × (choose_provider t
              ≡ ipinfo_provider t.geoip_provider_base_url t.geoip_provider_timeout_seconds
                  token.secret_value t.geoip_provider_max_retries))
choose_provider_lem s t h =
    let (u, e) = (make_settings_iff s t).0 h in
    elim (provider-cases s.geoip_provider) [
      | inl p ↦ inl (
        fake_choice t (ap (λ (x : Settings). x.geoip_provider) e ∙ p),
        λ production.
            fake-apart
              (sym p ∙ u.production (sym (ap (λ (x : Settings). x.app_env) e) ∙ production)),
      )
      | inr p ↦
          let (token, o, k) = lacks_token-some s.ipinfo_token (u.token p) in
          inr (
            token,
            k,
            ipinfo_choice t token (ap (λ (x : Settings). x.geoip_provider) e ∙ p)
                (ap (λ (x : Settings). x.ipinfo_token) e ∙ o),
          )
    ]
