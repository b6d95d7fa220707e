-- ===== src/Recovery/Success.antt =====
-- What exit code 0 of the recovery check says.
use arvan_ip_country_api.Prelude.{
  ℕ, zero, suc, ◌-◌, ◌≡◌, refl, true, false, not, Option, none, some, List, ==_iff, all, any,
  length, ltb, arith, Bool-cases, inl, inr, subst,
}
use arvan_ip_country_api.Traffic.{Reply}
use arvan_ip_country_api.Recovery.{
  Item, Pod, Cluster, Outcome, recovered, timed_out, failed, pod_inventory, ready_pods, has_name,
  is_recovered, inspect, wait_for_recovery, count_replies, unexpected_failures, exit_code,
}
use arvan_ip_country_api.Recovery.Counts.{is_good, no_counts, before_uncaught, no_failures_iff}

-- Two pods are ready, the deleted one is gone, and one of the ready pods is new.
pub record IsBack (before : List Pod) (deleted : Pod) (after : List Pod) : Type 0 where
  pub two_ready : length (ready_pods after) ≡ 2
  pub gone : has_name deleted.name after ≡ false
  pub replaced : any (λ p. not (has_name p.name before)) (ready_pods after) ≡ true

IsBack-of :
    (before : List Pod) (deleted : Pod) (after : List Pod)
    → is_recovered before deleted after ≡ true
    → IsBack before deleted after
unfolding is_recovered
IsBack-of before deleted after h = record {
  two_ready = ground (arith, ==_iff (length (ready_pods after)) 2);
  gone = ground arith;
  replaced = ground arith;
}

-- The worlds at which the loop asks for the pods before the timeout, from the world `w` on.
pub data Polls {W : Type 0} (cluster : Cluster W) (started timeout : ℕ) : W → W → Type 0 where
  first :
      {w : W}
      → ltb ((cluster.monotonic w).0 - started) timeout ≡ true
      → Polls cluster started timeout w (cluster.monotonic w).1
  next :
      {w v : W}
      → Polls cluster started timeout
          (cluster.sleep (cluster.inventory (cluster.monotonic w).1).1)
          v
      → Polls cluster started timeout w v

module _ {W : Type 0} (cluster : Cluster W) (before : List Pod) (deleted : Pod)
    (started timeout : ℕ) where
  -- One of the loop's inventories shows the pods back.
  pub record SeenBack (w : W) (pods : List Pod) : Type 0 where
    pub at : W
    pub polled : Polls cluster started timeout w at
    pub items : List Item
    pub listed : (cluster.inventory at).0 ≡ some items
    pub inventory : pods ≡ pod_inventory items
    pub back : IsBack before deleted pods

  abbrev Describes : W → Option Outcome → Type 0
  Describes w (some (recovered pods)) = SeenBack w pods
  Describes w _ = Unit

  Describes-next :
      (w : W) (o : Option Outcome)
      → Describes (cluster.sleep (cluster.inventory (cluster.monotonic w).1).1) o
      → Describes w o
  Describes-next w none h = tt
  Describes-next w (some failed) h = tt
  Describes-next w (some (timed_out pods)) h = tt
  Describes-next w (some (recovered pods)) h = record {
    at = h.at;
    polled = next h.polled;
    items = h.items;
    listed = h.listed;
    inventory = h.inventory;
    back = h.back;
  }

  inspect-Describes :
      (w : W) (o : Option (List Item)) (again : List Pod → W → Option Outcome)
      → ltb ((cluster.monotonic w).0 - started) timeout ≡ true
      → (cluster.inventory (cluster.monotonic w).1).0 ≡ o
      → ((pods : List Pod) (u : W) → Describes u (again pods u))
      → Describes w (
          inspect cluster before deleted started timeout o
            (cluster.inventory (cluster.monotonic w).1).1
            again)
  inspect-Describes w none again young e h = tt
  inspect-Describes w (some items) again young e h =
      elim (Bool-cases (is_recovered before deleted (pod_inventory items))) [
        | inl y ↦ rw y record {
          at = (cluster.monotonic w).1;
          polled = first young;
          items = items;
          listed = e;
          inventory = refl;
          back = IsBack-of before deleted (pod_inventory items) y;
        }
        | inr n ↦ rw n (Describes-next w _ (h (pod_inventory items) _))
      ]

  -- The loop reports a recovery only for an inventory of its own that shows it.
  loop-Describes :
      (fuel : ℕ) (after : List Pod) (w : W)
      → Describes w (wait_for_recovery cluster before deleted started timeout fuel after w)
  unfolding wait_for_recovery
  loop-Describes zero after w = tt
  loop-Describes (suc fuel) after w =
      elim (Bool-cases (ltb ((cluster.monotonic w).0 - started) timeout)) [
        | inl e ↦ rw e (
            inspect-Describes w (cluster.inventory (cluster.monotonic w).1).0
              (wait_for_recovery cluster before deleted started timeout fuel) e refl
              (loop-Describes fuel))
        | inr e ↦ rw e tt
      ]

  by_outcome :
      (w : W) (o : Outcome) (rs : List Reply)
      → Describes w (some o)
      → exit_code o (count_replies rs no_counts) ≡ 0
      → (pods : List Pod) × (o ≡ recovered pods)
        × SeenBack w pods
        × (all is_good (before_uncaught rs) ≡ true)
  unfolding exit_code
  by_outcome w (recovered pods) rs d h = (
    pods,
    refl,
    d,
    (no_failures_iff rs).0
        (ground (arith, ==_iff (unexpected_failures (count_replies rs no_counts)) 0)),
  )
  by_outcome w (timed_out pods) rs d h = cc
  by_outcome w failed rs d h = cc

  -- Exit code 0 is given only if the loop has seen two ready pods without the deleted one and with a new
  -- one among them, and every request in the meantime was answered with status 200, up to an exception that
  -- ends the thread.
  pub exit_code-SeenBack :
      (fuel : ℕ) (after : List Pod) (w : W) (o : Outcome) (replies : List Reply)
      → wait_for_recovery cluster before deleted started timeout fuel after w ≡ some o
      → exit_code o (count_replies replies no_counts) ≡ 0
      → (pods : List Pod) × (o ≡ recovered pods)
        × SeenBack w pods
        × (all is_good (before_uncaught replies) ≡ true)
  exit_code-SeenBack fuel after w o replies run h =
      by_outcome w o replies (subst (Describes w) run (loop-Describes fuel after w)) h
