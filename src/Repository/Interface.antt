-- ===== src/Repository/Interface.antt =====
-- What the service needs of a repository: a map from addresses to records, behind `get` and `upsert`.
use arvan_ip_country_api.Prelude.{◌≡◌, Option, some, [], ◌∷◌, ◌++◌}
use arvan_ip_country_api.Text.{Text}
use arvan_ip_country_api.Domain.Models.{CacheRecord}
use arvan_ip_country_api.Effects.{ok, State, select, insert}
use arvan_ip_country_api.Repository.{LookupRepository}

-- `Holds w m`: the store of the world `w` can be reached and holds the map `m`. `Accepts` are the
-- addresses that the store can be asked about, `Storable` the records that it can take.
pub record IsCache {A W : Type 0} (repository : LookupRepository A W) : Type 1 where
  pub Holds : W → (A → Option (CacheRecord A)) → Type 0
  pub Accepts : A → Type 0
  pub Storable : CacheRecord A → Type 0
  pub key : A → Text
  pub update : (A → Option (CacheRecord A)) → CacheRecord A → A → Option (CacheRecord A)
  pub update_self :
      (m : A → Option (CacheRecord A)) (rec : CacheRecord A) → update m rec rec.ip ≡ some rec
  pub get_lem :
      (m : A → Option (CacheRecord A)) (a : A) (s : State W)
      → Holds s.world m
      → Accepts a
      → ((repository.get a s).0 ≡ ok (m a))
        × Holds (repository.get a s).1.world m
        × ((repository.get a s).1.calls ≡ s.calls ++ select (key a) ∷ [])
  pub upsert_lem :
      (m : A → Option (CacheRecord A)) (rec : CacheRecord A) (s : State W)
      → Holds s.world m
      → Accepts rec.ip
      → Storable rec
      → ((repository.upsert rec s).0 ≡ ok tt)
        × Holds (repository.upsert rec s).1.world (update m rec)
        × ((repository.upsert rec s).1.calls ≡ s.calls ++ insert (key rec.ip) ∷ [])
