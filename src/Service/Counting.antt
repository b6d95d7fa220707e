-- ===== src/Service/Counting.antt =====
-- The metric of the lookups: how a lookup ends, and what it counts.
pub mod Lookups
pub mod Assembly
use arvan_ip_country_api.Prelude.{◌≡◌, refl, ap, ◌∙◌, ◌⊎◌, String, true, List, [], ◌∷◌, ◌++◌}
use arvan_ip_country_api.Domain.IpValidation.{IpLibrary}
use arvan_ip_country_api.Domain.Models.{CacheRecord, LookupResult, Source, database, provider}
use arvan_ip_country_api.Observability.Metrics.{
  ApplicationMetrics, Sample, Label, Counter, inc, observe,
}
use arvan_ip_country_api.Observability.Metrics
use arvan_ip_country_api.Effects.{Result, ok, raised, State, Clock}
use arvan_ip_country_api.Service.{IpLookupService, lookup}

-- The labels of the counted lookups, oldest first.
abbrev pub counted : List Sample → List (List Label)
counted [] = []
counted (inc Counter.lookups labels ∷ more) = labels ∷ counted more
counted (inc _ labels ∷ more) = counted more
counted (observe h labels d ∷ more) = counted more

pub counted-append : (xs ys : List Sample) → counted (xs ++ ys) ≡ counted xs ++ counted ys
counted-append [] ys = refl
counted-append (inc Counter.lookups labels ∷ xs) ys = ap (λ r. labels ∷ r) (counted-append xs ys)
counted-append (inc Counter.http_requests labels ∷ xs) ys = counted-append xs ys
counted-append (inc Counter.provider_requests labels ∷ xs) ys = counted-append xs ys
counted-append (inc Counter.provider_errors labels ∷ xs) ys = counted-append xs ys
counted-append (inc Counter.database_operations labels ∷ xs) ys = counted-append xs ys
counted-append (inc Counter.database_errors labels ∷ xs) ys = counted-append xs ys
counted-append (observe h labels d ∷ xs) ys = counted-append xs ys

-- A call that counts no lookup and leaves the switch alone.
pub record Keeps (m n : ApplicationMetrics) : Type 0 where
  pub enabled : n.enabled ≡ m.enabled
  pub lookups : counted n.samples ≡ counted m.samples

pub Keeps-trans : (m n o : ApplicationMetrics) → Keeps m n → Keeps n o → Keeps m o
Keeps-trans m n o h k = record { enabled = k.enabled ∙ h.enabled; lookups = k.lookups ∙ h.lookups }

pub Keeps-refl : (m : ApplicationMetrics) → Keeps m m
Keeps-refl m = record { enabled = refl; lookups = refl }

abbrev pub source_name : Source → String
source_name database = "database"
source_name provider = "provider"

abbrev pub labels_of : String → String → List Label
labels_of source result = Metrics.name source ∷ Metrics.name result ∷ []

-- An answer is counted once, as a success of its source. An exception is not counted, or once as an error.
abbrev pub Counted :
    {A : Type 0} → List (List Label) → Result (LookupResult A) → ApplicationMetrics → Type 0
Counted before (ok result) m =
    counted m.samples ≡ before ++ labels_of (source_name result.source) "success" ∷ []
Counted before (raised e) m =
    (counted m.samples ≡ before) ⊎ (counted m.samples ≡ before ++ labels_of "provider" "error" ∷ [])

pub lookup-counted :
    (source result : String) (m : ApplicationMetrics)
    → m.enabled ≡ true
    → counted (Metrics.lookup source result m).samples
      ≡ counted m.samples ++ labels_of source result ∷ []
unfolding Metrics.lookup
lookup-counted source result m h = rw h (counted-append m.samples _)

module _ {A W : Type 0} (lib : IpLibrary A) (platform : Clock W) (self : IpLookupService A W) where
  -- The repository and the provider count no lookups.
  pub record IsSilent : Type 0 where
    pub get_lem : (ip : A) (s : State W) → Keeps s.metrics (self.repository.get ip s).1.metrics
    pub upsert_lem :
        (rec : CacheRecord A) (s : State W)
        → Keeps s.metrics (self.repository.upsert rec s).1.metrics
    pub lookup_lem : (ip : A) (s : State W) → Keeps s.metrics (self.provider.lookup ip s).1.metrics
