-- ===== src/Repository/Refinement.antt =====
-- The repository over a database that is up implements a finite map from addresses to records.
use mathlib.Core.Option
use arvan_ip_country_api.Prelude.{
  ℕ, ◌≤◌, ◌≡◌, refl, ◌∙◌, true, Option, none, some, arith, if◌then◌else◌, length, [], ◌∷◌, ◌++◌,
}
use arvan_ip_country_api.Text.{Text, text_eq}
use arvan_ip_country_api.Domain.Datetime.{Datetime, Offset, east, west, utc}
use arvan_ip_country_api.Domain.IpValidation.{IpLibrary, IsIpLibrary}
use arvan_ip_country_api.Domain.Models.{CacheRecord}
use arvan_ip_country_api.Effects.{ok, State, Clock, select}
use arvan_ip_country_api.Database.{Row, Session}
use arvan_ip_country_api.Database.Postgres.{
  is_storable, IsPostgres, IsClock, IsUtc, SameInstant, SameRow,
}
use arvan_ip_country_api.Repository.{get, read_row}
use arvan_ip_country_api.Repository.Runs.{before_read, read_state, closed, get-ok}

module _ {A : Type 0} (lib : IpLibrary A) where
  -- A stored row holds a record.
  pub record RowOf (row : Row) (rec : CacheRecord A) : Type 0 where
    pub ip_address : row.ip_address ≡ lib.str rec.ip
    pub country_code : row.country_code ≡ rec.country_code
    pub country_name : row.country_name ≡ rec.country_name
    pub provider : row.provider ≡ rec.provider
    pub fetched_at : row.fetched_at ≡ rec.fetched_at
    pub expires_at : row.expires_at ≡ rec.expires_at
    pub fetched_utc : IsUtc rec.fetched_at
    pub expires_utc : IsUtc rec.expires_at

  abbrev pub Holds : Option Row → Option (CacheRecord A) → Type 0
  Holds none none = Unit
  Holds none (some rec) = ⊥
  Holds (some row) none = ⊥
  Holds (some row) (some rec) = RowOf row rec

  -- The map after a write.
  abbrev pub update : (A → Option (CacheRecord A)) → CacheRecord A → A → Option (CacheRecord A)
  update m rec a = if text_eq (lib.str a) (lib.str rec.ip) then some rec else m a

  -- A record that the table's columns can take.
  pub record IsStorable (rec : CacheRecord A) : Type 0 where
    pub code_storable : is_storable rec.country_code ≡ true
    pub name_storable : is_storable rec.country_name ≡ true
    pub provider_storable : is_storable rec.provider ≡ true
    pub country_code : length rec.country_code ≤ 2
    pub country_name : length rec.country_name ≤ 128
    pub provider : length rec.provider ≤ 32
    pub fetched_utc : IsUtc rec.fetched_at
    pub expires_utc : IsUtc rec.expires_at

utc_at :
    (t : ℕ) (o : Offset) (e d : Datetime)
    → e.local ≡ t
    → e.tzinfo ≡ some o
    → SameInstant e d
    → IsUtc d
    → utc e ≡ some d
unfolding utc
utc_at t (east o) e d ht ho same u =
    ground (arith, same.instant, u.zone, u.after_start, u.before_end)
utc_at t (west o) e d ht ho same u =
    ground (arith, same.instant, u.zone, u.after_start, u.before_end)

-- `_utc` undoes the connection's zone.
utc-SameInstant : (e d : Datetime) → SameInstant e d → IsUtc d → utc e ≡ some d
utc-SameInstant e d same u = utc_at e.local same.zone e d refl same.aware same u

module _ {A : Type 0} (lib : IpLibrary A) (l : IsIpLibrary lib) where
  read_row-shown :
      (row shown : Row) (rec : CacheRecord A)
      → RowOf lib row rec
      → SameRow shown row
      → read_row lib (some shown) ≡ ok (some rec)
  unfolding read_row
  read_row-shown row shown rec r s = rw (
    s.ip_address ∙ r.ip_address,
    l.ip_address-str rec.ip,
    utc-SameInstant shown.fetched_at rec.fetched_at (rw r.fetched_at at s.fetched_at) r.fetched_utc,
    utc-SameInstant shown.expires_at rec.expires_at (rw r.expires_at at s.expires_at) r.expires_utc,
    s.country_code ∙ r.country_code,
    s.country_name ∙ r.country_name,
    s.provider ∙ r.provider,
  )

module _ {A W : Type 0} (lib : IpLibrary A) (l : IsIpLibrary lib) {session : Session W}
    (pg : IsPostgres session) {clock : Clock W} (c : IsClock pg clock) where
  -- The world's table holds the map `m`.
  abbrev pub Represents : W → (A → Option (CacheRecord A)) → Type 0
  Represents w m = (a : A) → Holds lib (pg.table w (lib.str a)) (m a)

  read_row-Holds :
      (o : Option Row) (m : Option (CacheRecord A))
      → Holds lib o m
      → read_row lib (Option.map pg.shown o) ≡ ok m
  read_row-Holds none none h = unfold read_row in refl
  read_row-Holds none (some rec) h = absurd h
  read_row-Holds (some row) none h = absurd h
  read_row-Holds (some row) (some rec) h =
      read_row-shown lib l row (pg.shown row) rec h
        (pg.shown_row row (rw h.fetched_at h.fetched_utc) (rw h.expires_at h.expires_utc))

  -- A world whose table reads as another's holds the same map.
  Represents-of_same :
      (m : A → Option (CacheRecord A)) (v w : W)
      → ((j : Text) → pg.table w j ≡ pg.table v j)
      → Represents v m
      → Represents w m
  Represents-of_same m v w same rep a = rw (same (lib.str a)) (rep a)

  table-read_state :
      (a : A) (s : State W) (j : Text)
      → pg.table (closed lib session clock "read" s (read_state lib session clock a s)).world j
        ≡ pg.table s.world j
  table-read_state a s j =
      c.counter_keeps _ j ∙ pg.scalar_keeps (lib.str a) j _ ∙ c.counter_keeps s.world j

  up-read_state :
      (a : A) (s : State W)
      → pg.up (closed lib session clock "read" s (read_state lib session clock a s)).world
        ≡ pg.up s.world
  up-read_state a s = c.counter_up _ ∙ pg.scalar_up (lib.str a) _ ∙ c.counter_up s.world

  -- While the database is up and takes the address for an INET, `get` returns what the map that the
  -- table holds has for the address, and leaves the map and the database's availability alone.
  pub get-Represents :
      (m : A → Option (CacheRecord A)) (a : A) (s : State W)
      → Represents s.world m
      → pg.up s.world ≡ true
      → pg.is_inet (lib.str a) ≡ true
      → ((get lib session clock a s).0 ≡ ok (m a))
        × Represents (get lib session clock a s).1.world m
        × (pg.up (get lib session clock a s).1.world ≡ true)
  get-Represents m a s rep up inet =
      let w = before_read lib session clock s in
      let found = pg.scalar_found (lib.str a) w (c.counter_up s.world ∙ up) inet in
      let same = Represents-of_same m s.world w (c.counter_keeps s.world) rep in
      rw (get-ok lib session clock a s _ found) (
        read_row-Holds (pg.table w (lib.str a)) (m a) (same a),
        Represents-of_same m s.world _ (table-read_state a s) rep,
        up-read_state a s ∙ up,
      )

  pub get-calls :
      (a : A) (s : State W)
      → pg.up s.world ≡ true
      → pg.is_inet (lib.str a) ≡ true
      → (get lib session clock a s).1.calls ≡ s.calls ++ select (lib.str a) ∷ []
  get-calls a s up inet = rw (
      get-ok lib session clock a s _
        (pg.scalar_found (lib.str a) _ (c.counter_up s.world ∙ up) inet))
