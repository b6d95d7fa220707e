-- ===== src/Service/Concurrency.antt =====
-- Lookups of one address that run at the same time: each is a task, and between two awaited calls of a
-- task the others may go on. The parts of `lookup` between its awaited calls are the steps.
pub mod Agreement
pub mod Path
use arvan_ip_country_api.Prelude.{ℕ, ◌≡◌, true, Option, some, List, ◌∷◌, ◌++◌}
use arvan_ip_country_api.Domain.Datetime.{Datetime, gt, add_seconds}
use arvan_ip_country_api.Domain.Models.{CacheRecord, GeoIpResult, LookupResult}
use arvan_ip_country_api.Service.{cached_result, new_result}
use arvan_ip_country_api.Service.Caching.{IsStale}

-- Where a task stands: before its read; with what it has read; before the provider's answer; with a record to write;
-- with its write committed; with a write that it no longer waits for; or at its end.
pub data Phase (A : Type 0) : Type 0 where
  waiting asking failed : Phase A
  seen : Option (CacheRecord A) → Phase A
  holding stored lost : CacheRecord A → Phase A
  answered : LookupResult A → Phase A

-- `CacheRecord(...)` of a miss
abbrev pub record_of : {A : Type 0} → A → GeoIpResult → Datetime → Datetime → CacheRecord A
record_of ip r now expires = record {
  ip = ip;
  country_code = r.country_code;
  country_name = r.country_name;
  provider = r.provider;
  fetched_at = now;
  expires_at = expires;
}

module _ {A : Type 0} (ip : A) (ttl_seconds : ℕ) (answers : GeoIpResult → Type 0) where
  -- What one task, or the database on its behalf, does to the table's cell for the address and to the task's own
  -- phase. A read and a commit are steps of the database: the task resumes in a step of its own. A task may fail or
  -- be cancelled wherever it waits, also after its commit, and a write that it no longer waits for may still be
  -- committed.
  pub data Act (cell : Option (CacheRecord A)) (p : Phase A) (cell' : Option (CacheRecord A))
      (p' : Phase A) : Type 0 where
    read : p ≡ waiting → cell' ≡ cell → p' ≡ seen cell → Act cell p cell' p'
    hit :
        (now : Datetime) (c : CacheRecord A)
        → p ≡ seen (some c)
        → gt c.expires_at now ≡ some true
        → cell' ≡ cell
        → p' ≡ answered (cached_result ip c)
        → Act cell p cell' p'
    miss :
        (now : Datetime) (o : Option (CacheRecord A))
        → p ≡ seen o
        → IsStale now o
        → cell' ≡ cell
        → p' ≡ asking
        → Act cell p cell' p'
    answer :
        (r : GeoIpResult) (now expires : Datetime)
        → p ≡ asking
        → answers r
        → add_seconds now ttl_seconds ≡ some expires
        → cell' ≡ cell
        → p' ≡ holding (record_of ip r now expires)
        → Act cell p cell' p'
    commit :
        (c : CacheRecord A) → p ≡ holding c → cell' ≡ some c → p' ≡ stored c → Act cell p cell' p'
    finish :
        (c : CacheRecord A)
        → p ≡ stored c
        → cell' ≡ cell
        → p' ≡ answered (new_result ip c)
        → Act cell p cell' p'
    abandon : (c : CacheRecord A) → p ≡ holding c → cell' ≡ cell → p' ≡ lost c → Act cell p cell' p'
    late_commit :
        (c : CacheRecord A) → p ≡ lost c → cell' ≡ some c → p' ≡ failed → Act cell p cell' p'
    no_read : p ≡ waiting → cell' ≡ cell → p' ≡ failed → Act cell p cell' p'
    no_check :
        (o : Option (CacheRecord A)) → p ≡ seen o → cell' ≡ cell → p' ≡ failed → Act cell p cell' p'
    no_answer : p ≡ asking → cell' ≡ cell → p' ≡ failed → Act cell p cell' p'
    no_commit :
        (c : CacheRecord A) → p ≡ holding c → cell' ≡ cell → p' ≡ failed → Act cell p cell' p'
    no_finish :
        (c : CacheRecord A) → p ≡ stored c → cell' ≡ cell → p' ≡ failed → Act cell p cell' p'

  pub record System : Type 0 where
    pub cell : Option (CacheRecord A)
    pub tasks : List (Phase A)

  -- One of the tasks acts.
  pub data Step (s t : System) : Type 0 where
    step :
        (before later : List (Phase A)) (p p' : Phase A)
        → s.tasks ≡ before ++ (p ∷ later)
        → Act s.cell p t.cell p'
        → t.tasks ≡ before ++ (p' ∷ later)
        → Step s t

  pub data Reach (s : System) : System → Type 0 where
    here : Reach s s
    next : {t u : System} → Reach s t → Step t u → Reach s u
