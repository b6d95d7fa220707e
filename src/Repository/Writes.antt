-- ===== src/Repository/Writes.antt =====
-- A write of the repository, against the map that its table holds.
use arvan_ip_country_api.Prelude.{
  ◌≡◌, refl, ◌∙◌, true, Option, none, some, if◌then◌else◌, [], ◌∷◌, ◌++◌, Bool-cases, inl, inr,
}
use arvan_ip_country_api.Text.{Text, text_eq}
use arvan_ip_country_api.Domain.IpValidation.{IpLibrary, IsIpLibrary}
use arvan_ip_country_api.Domain.Models.{CacheRecord}
use arvan_ip_country_api.Effects.{ok, State, Clock, insert}
use arvan_ip_country_api.Database.{Row, Session, Statement}
use arvan_ip_country_api.Database.Postgres.{IsPostgres, IsClock, Fits, merge, keeps_key}
use arvan_ip_country_api.Repository.{upsert, upsert_statement}
use arvan_ip_country_api.Repository.Runs.{before_write, write_time, upsert-ok}
use arvan_ip_country_api.Repository.Refinement.{RowOf, Holds, update, IsStorable, Represents}

module _ {A W : Type 0} (lib : IpLibrary A) (l : IsIpLibrary lib) {session : Session W}
    (pg : IsPostgres session) {clock : Clock W} (c : IsClock pg clock) where
  -- The statement that `upsert` builds, merged with the row that it finds.
  abbrev pub written : CacheRecord A → State W → Statement
  written rec s = upsert_statement lib rec (write_time lib session clock s)

  written-Fits :
      (rec : CacheRecord A) (s : State W) → IsStorable lib rec → Fits (written rec s).values
  unfolding upsert_statement
  written-Fits rec s k = record {
    code_storable = k.code_storable;
    name_storable = k.name_storable;
    provider_storable = k.provider_storable;
    country_code = k.country_code;
    country_name = k.country_name;
    provider = k.provider;
  }

  written-keeps_key : (rec : CacheRecord A) (s : State W) → keeps_key (written rec s).set_ ≡ true
  unfolding upsert_statement
  written-keeps_key rec s = refl

  merge-RowOf :
      (rec : CacheRecord A) (s : State W) (o : Option Row)
      → IsStorable lib rec
      → ((r : Row) → o ≡ some r → r.ip_address ≡ lib.str rec.ip)
      → RowOf lib (merge (written rec s) o) rec
  unfolding upsert_statement
  merge-RowOf rec s none k key = record {
    ip_address = refl;
    country_code = refl;
    country_name = refl;
    provider = refl;
    fetched_at = refl;
    expires_at = refl;
    fetched_utc = k.fetched_utc;
    expires_utc = k.expires_utc;
  }
  merge-RowOf rec s (some old) k key = record {
    ip_address = key old refl;
    country_code = refl;
    country_name = refl;
    provider = refl;
    fetched_at = refl;
    expires_at = refl;
    fetched_utc = k.fetched_utc;
    expires_utc = k.expires_utc;
  }

  table-before_write :
      (s : State W) (j : Text) → pg.table (before_write lib session clock s) j ≡ pg.table s.world j
  table-before_write s j = c.now_keeps _ j ∙ c.counter_keeps s.world j

  up-before_write : (s : State W) → pg.up (before_write lib session clock s) ≡ pg.up s.world
  up-before_write s = c.now_up _ ∙ c.counter_up s.world

  -- What a write does while the database is up: it succeeds, and the table holds the inserted row, or
  -- the row that was there with the new values assigned; every other row stays.
  pub table-upsert :
      (rec : CacheRecord A) (s : State W) (j : Text)
      → IsStorable lib rec
      → pg.up s.world ≡ true
      → pg.is_inet (lib.str rec.ip) ≡ true
      → ((upsert lib session clock rec s).0 ≡ ok tt)
        × (pg.up (upsert lib session clock rec s).1.world ≡ true)
        × (pg.table (upsert lib session clock rec s).1.world j ≡ (
            if text_eq j (lib.str rec.ip)
            then some (merge (written rec s) (pg.table s.world (lib.str rec.ip)))
            else pg.table s.world j))
  table-upsert rec s j k up inet =
      let w = before_write lib session clock s in
      let up' = up-before_write s ∙ up in
      let inet' : pg.is_inet (written rec s).values.ip_address ≡ true =
        unfold upsert_statement in inet in
      let fits = written-Fits rec s k in
      let writes = pg.execute_writes (written rec s) w j up' inet' fits (written-keeps_key rec s) in
      rw
        (upsert-ok lib session clock rec s
          (pg.execute_done (written rec s) w up' inet' fits (written-keeps_key rec s)))
        (
          refl,
          c.counter_up _ ∙ pg.execute_up (written rec s) w ∙ up',
          c.counter_keeps _ j
              ∙ writes
              ∙ unfold upsert_statement in
                rw (table-before_write s (lib.str rec.ip), table-before_write s j),
        )

  pub upsert-calls :
      (rec : CacheRecord A) (s : State W)
      → IsStorable lib rec
      → pg.up s.world ≡ true
      → pg.is_inet (lib.str rec.ip) ≡ true
      → (upsert lib session clock rec s).1.calls ≡ s.calls ++ insert (lib.str rec.ip) ∷ []
  upsert-calls rec s k up inet = rw (
      upsert-ok lib session clock rec s (
        pg.execute_done (written rec s) _ (up-before_write s ∙ up) (unfold upsert_statement in inet)
          (written-Fits rec s k) (written-keeps_key rec s)))

  Holds-update :
      (m : A → Option (CacheRecord A)) (rec : CacheRecord A) (s : State W) (a : A)
      → Represents lib l pg c s.world m
      → IsStorable lib rec
      → Holds lib
          (if text_eq (lib.str a) (lib.str rec.ip)
            then some (merge (written rec s) (pg.table s.world (lib.str rec.ip)))
            else pg.table s.world (lib.str a))
          (update lib m rec a)
  Holds-update m rec s a rep k = elim (Bool-cases (text_eq (lib.str a) (lib.str rec.ip))) [
    | inl e ↦ rw e (merge-RowOf rec s _ k (λ r h. pg.key_of s.world _ r h))
    | inr e ↦ rw e (rep a)
  ]

  pub upsert-Represents :
      (m : A → Option (CacheRecord A)) (rec : CacheRecord A) (s : State W)
      → Represents lib l pg c s.world m
      → IsStorable lib rec
      → pg.up s.world ≡ true
      → pg.is_inet (lib.str rec.ip) ≡ true
      → ((upsert lib session clock rec s).0 ≡ ok tt)
        × Represents lib l pg c (upsert lib session clock rec s).1.world (update lib m rec)
        × (pg.up (upsert lib session clock rec s).1.world ≡ true)
  upsert-Represents m rec s rep k up inet =
      let t = table-upsert rec s (lib.str rec.ip) k up inet in
      (
        t.0,
        λ a. rw (table-upsert rec s (lib.str a) k up inet).2 (Holds-update m rec s a rep k),
        t.1,
      )
