-- ===== src/Repository/Cache.antt =====
-- The PostgreSQL repository fills the service's interface.
use arvan_ip_country_api.Prelude.{◌≡◌, true, Option, some}
use arvan_ip_country_api.Text.{text_eq_refl}
use arvan_ip_country_api.Domain.IpValidation.{IpLibrary, IsIpLibrary}
use arvan_ip_country_api.Domain.Models.{CacheRecord}
use arvan_ip_country_api.Effects.{Clock}
use arvan_ip_country_api.Database.{Session}
use arvan_ip_country_api.Database.Postgres.{IsPostgres, IsClock}
use arvan_ip_country_api.Repository.{postgres_repository}
use arvan_ip_country_api.Repository.Interface.{IsCache}
use arvan_ip_country_api.Repository.Refinement.{
  Represents, IsStorable, update, get-Represents, get-calls,
}
use arvan_ip_country_api.Repository.Writes.{upsert-Represents, upsert-calls}

module _ {A W : Type 0} (lib : IpLibrary A) (l : IsIpLibrary lib) {session : Session W}
    (pg : IsPostgres session) {clock : Clock W} (c : IsClock pg clock) where
  update-self :
      (m : A → Option (CacheRecord A)) (rec : CacheRecord A) → update lib m rec rec.ip ≡ some rec
  update-self m rec = rw (text_eq_refl (lib.str rec.ip))

  unfoldable pub postgres_cache : IsCache (postgres_repository lib session clock)
  unfolding postgres_repository update-self
  postgres_cache = record {
    Holds = λ w m. Represents lib l pg c w m × (pg.up w ≡ true);
    Accepts = λ a. pg.is_inet (lib.str a) ≡ true;
    Storable = IsStorable lib;
    key = lib.str;
    update = update lib;
    update_self = update-self;
    get_lem = λ m a s h inet.
        let g = get-Represents lib l pg c m a s h.0 h.1 inet in
        (g.0, (g.1, g.2), get-calls lib l pg c a s h.1 inet);
    upsert_lem = λ m rec s h inet k.
        let g = upsert-Represents lib l pg c m rec s h.0 k h.1 inet in
        (g.0, (g.1, g.2), upsert-calls lib l pg c rec s k h.1 inet);
  }
