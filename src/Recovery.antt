-- ===== src/Recovery.antt =====
-- deploy/scripts/verify-pod-recovery.py: one pod is deleted while lookups go on. kubectl's answers, the
-- clock and the replies to the requests are parameters; a pod of the answer is a record of the keys that
-- the script reads, `none` for a missing one. A time is a number of milliseconds.
pub mod Loop
pub mod Counts
pub mod Success
pub mod Report
pub mod Main
use arvan_ip_country_api.Prelude.{
  ℕ, zero, suc, ◌+◌, ◌-◌, Bool, true, false, not, ◌&&◌, String, Option, none, some, List, [], ◌∷◌,
  map, all, any, ltb, ◌==◌, length, filter_by, sort_by, if◌then◌else◌, name_eq,
}
use arvan_ip_country_api.Text.{Text, text_eq, text_leb}
use arvan_ip_country_api.Traffic.{Reply, response, http_error, failure, uncaught}

-- An item of `kubectl get pods -o json`.
pub record Item : Type 0 where
  pub name : Text
  pub deletion_timestamp : Option Text
  pub node_name : Option Text
  pub phase : Option Text
  pub container_statuses : List (Option Bool)

pub record Pod : Type 0 where
  pub name : Text
  pub node : Option Text
  pub phase : Option Text
  pub ready : Bool

-- `not value`, for a text that may be missing
abbrev is_falsy : Option Text → Bool
is_falsy none = true
is_falsy (some []) = true
is_falsy (some (c ∷ s)) = false

-- `status.get("ready", False)`
abbrev is_ready : Option Bool → Bool
is_ready none = false
is_ready (some b) = b

abbrev is_nonempty : List (Option Bool) → Bool
is_nonempty [] = false
is_nonempty (s ∷ more) = true

unfoldable pub pod_of : Item → Pod
pod_of item = record {
  name = item.name;
  node = item.node_name;
  phase = item.phase;
  ready =
      is_nonempty item.container_statuses
      && all is_ready item.container_statuses
      && is_falsy item.deletion_timestamp;
}

-- `pod_inventory`, of kubectl's answer
unfoldable pub pod_inventory : List Item → List Pod
unfolding pod_of
pod_inventory items = sort_by (λ p q. text_leb p.name q.name) (map pod_of items)

-- `[pod for pod in pods if pod["ready"]]`
abbrev pub ready_pods : List Pod → List Pod
ready_pods pods = filter_by (λ p. p.ready) pods

-- `name in {pod["name"] for pod in pods}`
abbrev pub has_name : Text → List Pod → Bool
has_name name pods = any (λ p. text_eq p.name name) pods

abbrev node_eq : Option Text → Option Text → Bool
node_eq none none = true
node_eq none (some t) = false
node_eq (some s) none = false
node_eq (some s) (some t) = text_eq s t

-- `len({pod["node"] for pod in pods})`
unfoldable pub distinct_nodes : List Pod → ℕ
distinct_nodes [] = 0
distinct_nodes (p ∷ ps) =
    let rest = distinct_nodes ps in if any (λ q. node_eq q.node p.node) ps then rest else suc rest

abbrev pub first : List Pod → Option Pod
first [] = none
first (p ∷ ps) = some p

-- The pod to delete; `none` is the RuntimeError.
unfoldable pub choose_pod : List Pod → Option Pod
unfolding distinct_nodes
choose_pod before =
    if length (ready_pods before) == 2 && distinct_nodes (ready_pods before) == 2
    then first (ready_pods before)
    else none

-- The test of the loop.
unfoldable pub is_recovered : List Pod → Pod → List Pod → Bool
is_recovered before deleted after =
    length (ready_pods after) == 2
    && not (has_name deleted.name after)
    && any (λ p. not (has_name p.name before)) (ready_pods after)

-- The cluster and the clock. `inventory` is none if kubectl fails, which ends the script.
pub record Cluster (W : Type 0) : Type 0 where
  pub monotonic : W → ℕ × W
  pub inventory : W → Option (List Item) × W
  pub sleep : W → W

-- How the loop ends, with the last inventory.
pub data Outcome : Type 0 where
  recovered timed_out : List Pod → Outcome
  failed : Outcome

module _ {W : Type 0} (cluster : Cluster W) (before : List Pod) (deleted : Pod)
    (started timeout : ℕ) where
  -- A round's inventory; `again` is what follows if the pods are not all back.
  abbrev pub inspect : Option (List Item) → W → (List Pod → W → Option Outcome) → Option Outcome
  inspect none w again = some failed
  inspect (some items) w again =
      let rest = again (pod_inventory items) (cluster.sleep w) in
      if is_recovered before deleted (pod_inventory items)
      then some (recovered (pod_inventory items))
      else rest

  -- `while time.monotonic() - started < args.recovery_timeout`, on fuel.
  unfoldable pub wait_for_recovery : ℕ → List Pod → W → Option Outcome
  wait_for_recovery zero after w = none
  wait_for_recovery (suc fuel) after w =
      let (now, w₁) = cluster.monotonic w in
      let (items, w₂) = cluster.inventory w₁ in
      let round = inspect items w₂ (wait_for_recovery fuel) in
      if ltb (now - started) timeout then round else some (timed_out after)

-- The keys of `failures`: `HTTP {code}` or an exception's name.
pub data Failure : Type 0 where
  http : ℕ → Failure
  exception : String → Failure

abbrev failure_eq : Failure → Failure → Bool
failure_eq (http m) (http n) = m == n
failure_eq (exception s) (exception t) = name_eq s t
failure_eq (http m) (exception t) = false
failure_eq (exception s) (http n) = false

-- `counter[key] += 1`
unfoldable pub bump {ℓ} : {K : Type ℓ} → (K → K → Bool) → K → List (K × ℕ) → List (K × ℕ)
bump eq key [] = (key, 1) ∷ []
bump eq key ((k, n) ∷ more) =
    let rest = bump eq key more in if eq k key then (k, suc n) ∷ more else (k, n) ∷ rest

-- `sum(counter.values())`
unfoldable pub total {ℓ} : {K : Type ℓ} → List (K × ℕ) → ℕ
total [] = 0
total ((k, n) ∷ more) = n + total more

-- The two counters of the thread that sends requests.
pub record Tally : Type 0 where
  pub status_codes : List (ℕ × ℕ)
  pub failures : List (Failure × ℕ)

abbrev count_status : ℕ → Tally → Tally
count_status code t = record t { status_codes = bump ◌==◌ code t.status_codes }

abbrev count_failure : Failure → Tally → Tally
count_failure key t = record t { failures = bump failure_eq key t.failures }

-- One round of `send_requests`; an exception that is not caught is counted nowhere.
unfoldable pub count_reply : Reply → Tally → Tally
unfolding bump
count_reply (response code) t =
    if code == 200 then count_status code t else count_failure (http code) (count_status code t)
count_reply (http_error code) t = count_failure (http code) (count_status code t)
count_reply (failure name) t = count_failure (exception name) t
count_reply (uncaught name) t = t

-- The counters after the replies, oldest first. An exception that is not caught ends the thread.
unfoldable pub count_replies : List Reply → Tally → Tally
count_replies [] t = t
count_replies (uncaught name ∷ rs) t = t
count_replies (r ∷ rs) t = count_replies rs (count_reply r t)

-- The entries of `result` that the counters make, and the exit code.
unfoldable pub unexpected_failures : Tally → ℕ
unfolding total
unexpected_failures t = total t.failures

unfoldable pub requests : Tally → ℕ
unfolding total unexpected_failures
requests t = total t.status_codes + unexpected_failures t

abbrev pub last_inventory : Outcome → List Pod
last_inventory (recovered pods) = pods
last_inventory (timed_out pods) = pods
last_inventory failed = []

abbrev pub has_recovered : Outcome → Bool
has_recovered (recovered pods) = true
has_recovered _ = false

unfoldable pub exit_code : Outcome → Tally → ℕ
unfolding unexpected_failures
exit_code outcome tally =
    if has_recovered outcome
      && unexpected_failures tally == 0
      && length (ready_pods (last_inventory outcome)) == 2
    then 0
    else 1
