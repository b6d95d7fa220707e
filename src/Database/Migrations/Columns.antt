-- ===== src/Database/Migrations/Columns.antt =====
-- What the service writes fits the columns that the migration creates.
use arvan_ip_country_api.Prelude.{
  ◌≡◌, true, arith, le→leb, leb→le, length, ◌↔◌, Bool, ◌&&◌, refl, Option, none, some, subst, ℕ, [],
  ◌∷◌, all,
}
use arvan_ip_country_api.Text.{Text, UnicodeTables}
use arvan_ip_country_api.Domain.Datetime.{Datetime}
use arvan_ip_country_api.Domain.IpValidation.{IpLibrary}
use arvan_ip_country_api.Domain.Models.{CacheRecord, GeoIpResult}
use arvan_ip_country_api.Effects.{Result, ok, raised, State, Clock}
use arvan_ip_country_api.Database.{Row}
use arvan_ip_country_api.Database.Postgres.{Fits, is_storable, is_storable_char}
use arvan_ip_country_api.Database.Migrations.{upgrade, takes}
use arvan_ip_country_api.Repository.{upsert_statement}
use arvan_ip_country_api.Providers.Ipinfo.{IpinfoLiteProvider, Retrying, lookup}
use arvan_ip_country_api.Providers.Ipinfo.Payload.{is_alpha}
use arvan_ip_country_api.Providers.Ipinfo.Requests.{IsHttpClient}
use arvan_ip_country_api.Providers.Ipinfo.Retries.{IsRetrying}
use arvan_ip_country_api.Providers.Ipinfo.Outcomes.{Leaves, IsCountry}
use arvan_ip_country_api.Providers.Ipinfo.Laws.{lookup_run}
use arvan_ip_country_api.Service.{new_record}

takes_of_Fits :
    (is_inet : Text → Bool) (r : Row)
    → Fits r
    → is_inet r.ip_address ≡ true
    → takes is_inet upgrade r ≡ true
unfolding takes upgrade
takes_of_Fits is_inet r f h =
    rw
      (
        h,
        le→leb (length r.country_code) 2 f.country_code,
        le→leb (length r.country_name) 128 f.country_name,
        le→leb (length r.provider) 32 f.provider,
        f.code_storable,
        f.name_storable,
        f.provider_storable,
      )
      refl

and_left : (a b : Bool) → (a && b) ≡ true → a ≡ true
and_left a b h = ground arith

and_right : (a b : Bool) → (a && b) ≡ true → b ≡ true
and_right a b h = ground arith

Fits-of_takes :
    (is_inet : Text → Bool) (r : Row)
    → takes is_inet upgrade r ≡ true
    → Fits r × (is_inet r.ip_address ≡ true)
unfolding takes upgrade
Fits-of_takes is_inet r h =
    let row = and_left _ _ h in
    let address = and_right _ _ row in
    let code = and_right _ _ address in
    let name = and_right _ _ code in
    let code' = and_left _ _ address in
    let name' = and_left _ _ code in
    let provider' = and_left _ _ name in
    (
      record {
        code_storable = and_right _ _ code';
        name_storable = and_right _ _ name';
        provider_storable = and_right _ _ provider';
        country_code = leb→le _ 2 (and_left _ _ code');
        country_name = leb→le _ 128 (and_left _ _ name');
        provider = leb→le _ 32 (and_left _ _ provider');
      },
      and_left _ _ row,
    )

-- The table that the migration creates takes a row exactly if its address is a text for an INET column, and
-- its three texts have at most 2, 128 and 32 characters that PostgreSQL can store, which is the condition
-- under which the database is assumed to run the repository's statement.
pub takes_iff_Fits :
    (is_inet : Text → Bool) (r : Row)
    → (takes is_inet upgrade r ≡ true) ↔ (Fits r × (is_inet r.ip_address ≡ true))
takes_iff_Fits is_inet r = (Fits-of_takes is_inet r, λ (f, h). takes_of_Fits is_inet r f h)

-- What the Unicode tables say of letters: neither NUL nor a surrogate is one.
pub record IsUnicode (tables : UnicodeTables) : Type 0 where
  pub alpha_storable : (c : ℕ) → tables.is_alpha_char c ≡ true → is_storable_char c ≡ true

all_storable :
    (tables : UnicodeTables) (law : IsUnicode tables) (s : Text)
    → all tables.is_alpha_char s ≡ true
    → is_storable s ≡ true
all_storable tables law [] h = refl
all_storable tables law (c ∷ s) h =
    let first = law.alpha_storable c (and_left _ _ h) in
    let rest = all_storable tables law s (and_right _ _ h) in rw (first, rest) refl

alpha-is_storable :
    (tables : UnicodeTables) (law : IsUnicode tables) (s : Text)
    → is_alpha tables s ≡ true
    → is_storable s ≡ true
unfolding is_alpha
alpha-is_storable tables law [] h = refl
alpha-is_storable tables law (c ∷ s) h = all_storable tables law (c ∷ s) h

module _ {A W : Type 0} (lib : IpLibrary A) (clock : Clock W) (tables : UnicodeTables)
    (retrying : Retrying W) (self : IpinfoLiteProvider W) (law : IsHttpClient self.client)
    (repeats : IsRetrying retrying) (unicode : IsUnicode tables) where
  abbrev RowFits : Datetime → Result (CacheRecord A) → Type 0
  RowFits now (ok rec) = Fits (upsert_statement lib rec now).values
  RowFits now (raised e) = Unit

  abbrev RowAddress : (Text → Bool) → Datetime → Result (CacheRecord A) → Type 0
  RowAddress is_inet now (ok rec) = is_inet (upsert_statement lib rec now).values.ip_address ≡ true
  RowAddress is_inet now (raised e) = Unit

  country-Fits :
      (ip : A) (r : GeoIpResult) (fetched now : Datetime) (expires : Option Datetime)
      (rec : CacheRecord A)
      → IsCountry tables r
      → is_storable r.country_name ≡ true
      → new_record ip r fetched expires ≡ ok rec
      → Fits (upsert_statement lib rec now).values
  unfolding upsert_statement
  country-Fits ip r fetched now none rec c n h = cc
  country-Fits ip r fetched now (some expires) rec c n h = subst (RowFits now) h record {
    code_storable = alpha-is_storable tables unicode r.country_code c.code_alpha;
    name_storable = n;
    provider_storable = rw c.provider refl;
    country_code = omega (arith, c.code_length);
    country_name = c.name_fits;
    provider = rw c.provider (omega arith);
  }

  row_address :
      (is_inet : Text → Bool) (ip : A) (r : GeoIpResult) (fetched now : Datetime)
      (expires : Option Datetime) (rec : CacheRecord A)
      → is_inet (lib.str ip) ≡ true
      → new_record ip r fetched expires ≡ ok rec
      → is_inet (upsert_statement lib rec now).values.ip_address ≡ true
  unfolding upsert_statement
  row_address is_inet ip r fetched now none rec inet h = cc
  row_address is_inet ip r fetched now (some expires) rec inet h =
      subst (RowAddress is_inet now) h inet

  -- A country that the provider returns makes a record whose row the table of the migration takes, if the
  -- address is a text for an INET column, the country's name has neither a NUL nor a surrogate, Unicode counts
  -- neither of these as a letter, the HTTP client raises no class of the program, and tenacity makes the attempts
  -- that it is told to make.
  pub country-takes :
      (is_inet : Text → Bool) (ip : A) (s : State W) (r : GeoIpResult) (fetched now : Datetime)
      (expires : Option Datetime) (rec : CacheRecord A)
      → is_inet (lib.str ip) ≡ true
      → is_storable r.country_name ≡ true
      → (lookup lib clock tables retrying self ip s).0 ≡ ok r
      → new_record ip r fetched expires ≡ ok rec
      → takes is_inet upgrade (upsert_statement lib rec now).values ≡ true
  country-takes is_inet ip s r fetched now expires rec inet n h k =
      takes_of_Fits is_inet _
        (country-Fits ip r fetched now expires rec
          (subst (Leaves tables) h
            (lookup_run lib clock tables retrying self law repeats ip s).leaves)
          n k)
        (row_address is_inet ip r fetched now expires rec inet k)
