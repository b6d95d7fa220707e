-- ===== src/Config/Laws.antt =====
-- What settings that pass the validators satisfy.
use arvan_ip_country_api.Prelude.{
  ◌≡◌, refl, sym, ap, ◌∙◌, ◌↔◌, Bool, true, false, Option, none, some, List, [], ◌∷◌, ◌++◌, ◌==◌,
  all, arith, name_eq_iff,
}
use arvan_ip_country_api.Text.{Text, codes, rstrip_slash}
use arvan_ip_country_api.Text.Strip.{rstrip_slash-append}
use arvan_ip_country_api.Text.Search.{starts_with-append}
use arvan_ip_country_api.Config.Integers.{InRange, in_range_iff}
use arvan_ip_country_api.Config.{
  Settings, Problem, complain, model_validate, SecretStr, valid, ipinfo, field_bounds,
  accepts_database_url, accepts_provider_url, lacks_token, make_settings, validate_database_url,
  validate_provider_url, require_ipinfo_token,
}

pub record HasBounds (s : Settings) : Type 0 where
  pub app_port : InRange 1 65535 s.app_port
  pub pool_size : InRange 1 100 s.database_pool_size
  pub max_overflow : InRange 0 100 s.database_max_overflow
  pub pool_timeout : InRange 1 60000000000 s.database_pool_timeout_seconds
  pub connect_timeout : InRange 1 60 s.database_connect_timeout_seconds
  pub provider_timeout : InRange 1 30000000000 s.geoip_provider_timeout_seconds
  pub max_retries : InRange 0 5 s.geoip_provider_max_retries
  pub cache_ttl : InRange 60 31536000 s.geoip_cache_ttl_seconds

-- Settings that the service may run with.
pub record IsUsable (s : Settings) : Type 0 where
  pub bounds : HasBounds s
  pub database_url : accepts_database_url s.database_url.secret_value ≡ true
  pub provider_url : accepts_provider_url s.geoip_provider_base_url ≡ true
  pub token : s.geoip_provider ≡ ipinfo → lacks_token s.ipinfo_token ≡ false
  pub production : s.app_env ≡ "production" → s.geoip_provider ≡ ipinfo

abbrev pub normalized : Settings → Settings
normalized s = record s { geoip_provider_base_url = rstrip_slash s.geoip_provider_base_url }

complain-nil :
    (b : Bool) (p : Problem) (more : List Problem)
    → complain b p more ≡ []
    → (b ≡ true) × (more ≡ [])
complain-nil true p more h = (refl, h)
complain-nil false p more h = cc

field_bounds-HasBounds : (s : Settings) → field_bounds s ≡ [] → HasBounds s
unfolding field_bounds
field_bounds-HasBounds s h =
    let (b₁, h₁) = complain-nil _ _ _ h in
    let (b₂, h₂) = complain-nil _ _ _ h₁ in
    let (b₃, h₃) = complain-nil _ _ _ h₂ in
    let (b₄, h₄) = complain-nil _ _ _ h₃ in
    let (b₅, h₅) = complain-nil _ _ _ h₄ in
    let (b₆, h₆) = complain-nil _ _ _ h₅ in
    let (b₇, h₇) = complain-nil _ _ _ h₆ in
    let (b₈, h₈) = complain-nil _ _ _ h₇ in
    record {
      app_port = (in_range_iff _ _ s.app_port).0 b₁;
      pool_size = (in_range_iff _ _ s.database_pool_size).0 b₂;
      max_overflow = (in_range_iff _ _ s.database_max_overflow).0 b₃;
      pool_timeout = (in_range_iff _ _ s.database_pool_timeout_seconds).0 b₄;
      connect_timeout = (in_range_iff _ _ s.database_connect_timeout_seconds).0 b₅;
      provider_timeout = (in_range_iff _ _ s.geoip_provider_timeout_seconds).0 b₆;
      max_retries = (in_range_iff _ _ s.geoip_provider_max_retries).0 b₇;
      cache_ttl = (in_range_iff _ _ s.geoip_cache_ttl_seconds).0 b₈;
    }

HasBounds-field_bounds : (s : Settings) → HasBounds s → field_bounds s ≡ []
unfolding field_bounds
HasBounds-field_bounds s b = rw (
  (in_range_iff 1 65535 s.app_port).1 b.app_port,
  (in_range_iff 1 100 s.database_pool_size).1 b.pool_size,
  (in_range_iff 0 100 s.database_max_overflow).1 b.max_overflow,
  (in_range_iff 1 60000000000 s.database_pool_timeout_seconds).1 b.pool_timeout,
  (in_range_iff 1 60 s.database_connect_timeout_seconds).1 b.connect_timeout,
  (in_range_iff 1 30000000000 s.geoip_provider_timeout_seconds).1 b.provider_timeout,
  (in_range_iff 0 5 s.geoip_provider_max_retries).1 b.max_retries,
  (in_range_iff 60 31536000 s.geoip_cache_ttl_seconds).1 b.cache_ttl,
)

-- The three stages of a success.
model_validate-valid :
    (s t : Settings) (bounds : List Problem) (db : Option SecretStr) (url : Option Text)
    → model_validate s bounds db url ≡ valid t
    → (d : SecretStr) × (u : Text) × (bounds ≡ [])
      × (db ≡ some d)
      × (url ≡ some u)
      × (require_ipinfo_token (record s { database_url = d; geoip_provider_base_url = u })
          ≡ valid t)
model_validate-valid s t [] (some db) (some url) h = (db, url, refl, refl, refl, h)
model_validate-valid s t (p ∷ bounds) (some db) (some url) h = cc
model_validate-valid s t bounds (some db) none h = cc
model_validate-valid s t bounds none (some url) h = cc
model_validate-valid s t bounds none none h = cc

token_rule :
    (s t : Settings)
    → require_ipinfo_token s ≡ valid t
    → (t ≡ s)
      × (s.geoip_provider ≡ ipinfo → lacks_token s.ipinfo_token ≡ false)
      × (s.app_env ≡ "production" → s.geoip_provider ≡ ipinfo)
unfolding require_ipinfo_token
token_rule s t h = ground (arith, name_eq_iff s.app_env "production")

token_rule_kept :
    (s : Settings)
    → (s.geoip_provider ≡ ipinfo → lacks_token s.ipinfo_token ≡ false)
    → (s.app_env ≡ "production" → s.geoip_provider ≡ ipinfo)
    → require_ipinfo_token s ≡ valid s
unfolding require_ipinfo_token
token_rule_kept s h k = ground (arith, name_eq_iff s.app_env "production")

database_url_rule :
    (v d : SecretStr)
    → validate_database_url v ≡ some d
    → (accepts_database_url v.secret_value ≡ true) × (d ≡ v)
unfolding validate_database_url
database_url_rule v d h = ground arith

provider_url_rule :
    (v u : Text)
    → validate_provider_url v ≡ some u
    → (accepts_provider_url v ≡ true) × (u ≡ rstrip_slash v)
unfolding validate_provider_url
provider_url_rule v u h = ground arith

accepts_https : (s : Text) → accepts_provider_url (codes "https://" ++ s) ≡ true
unfolding accepts_provider_url
accepts_https s = rw (starts_with-append (codes "https://") s)

https_stays : rstrip_slash (codes "https:") ≡ codes "https:"
unfolding rstrip_slash
https_stays = refl

https_refused : accepts_provider_url (codes "https:") ≡ false
unfolding accepts_provider_url
https_refused = refl

make_settings-valid : (s t : Settings) → make_settings s ≡ valid t → IsUsable s × (t ≡ normalized s)
unfolding make_settings
make_settings-valid s t h =
    let (d, u, hb, hd, hu, hr) = model_validate-valid s t _ _ _ h in
    let (ad, ed) = database_url_rule _ _ hd in
    let (au, eu) = provider_url_rule _ _ hu in
    let (et, token, production) = token_rule _ _ hr in
    (
      record {
        bounds = field_bounds-HasBounds s hb;
        database_url = ad;
        provider_url = au;
        token = token;
        production = production;
      },
      cc,
    )

make_settings-usable : (s : Settings) → IsUsable s → make_settings s ≡ valid (normalized s)
unfolding make_settings
make_settings-usable s u =
    let hd : validate_database_url s.database_url ≡ some s.database_url =
      unfold validate_database_url in rw u.database_url in
    let hu : validate_provider_url s.geoip_provider_base_url
        ≡ some (rstrip_slash s.geoip_provider_base_url) =
      unfold validate_provider_url in rw u.provider_url in
    rw (HasBounds-field_bounds s u.bounds, hd, hu)
      (token_rule_kept (normalized s) u.token u.production)

-- `Settings(...)` succeeds exactly for usable values, and changes only the slashes at the end of the
-- provider's URL.
pub make_settings_iff :
    (s t : Settings) → (make_settings s ≡ valid t) ↔ (IsUsable s × (t ≡ normalized s))
make_settings_iff s t =
    (make_settings-valid s t, λ (u, e). make_settings-usable s u ∙ ap valid (sym e))

-- A provider URL of the scheme `https://` and further slashes alone is accepted, and what is stored for
-- it is a text that the same validator refuses.
pub provider_url_without_host :
    (slashes : Text)
    → all (λ c. c == b'/') slashes ≡ true
    → (validate_provider_url (codes "https://" ++ slashes) ≡ some (codes "https:"))
      × (validate_provider_url (codes "https:") ≡ none)
provider_url_without_host slashes h = (
  unfold validate_provider_url in
      rw (
        accepts_https slashes,
        rstrip_slash-append (codes "https:") (codes "//" ++ slashes) h,
        https_stays,
      ),
  unfold validate_provider_url in rw https_refused,
)
