-- ===== src/Recovery/Loop.antt =====
-- The loop that waits for the pods ends.
use arvan_ip_country_api.Prelude.{
  ℕ, zero, suc, ◌+◌, ◌-◌, ◌*◌, ◌/◌, ◌≤◌, ◌≡◌, refl, false, Option, none, some, List, ltb, arith,
  Bool-cases, inl, inr,
}
use arvan_ip_country_api.Recovery.{
  Item, Pod, Cluster, Outcome, recovered, timed_out, failed, pod_inventory, is_recovered, inspect,
  wait_for_recovery,
}

-- The monotonic clock: it never runs backwards, and `time.sleep(0.5)` takes half a second at least.
pub record IsCluster {W : Type 0} (cluster : Cluster W) : Type 0 where
  pub time : W → ℕ
  pub reads : (w : W) → (cluster.monotonic w).0 ≡ time w
  pub reading : (w : W) → time w ≤ time (cluster.monotonic w).1
  pub asking : (w : W) → time w ≤ time (cluster.inventory w).1
  pub sleeping : (w : W) → time w + 500 ≤ time (cluster.sleep w)

-- The rounds that a timeout leaves room for.
abbrev pub rounds : ℕ → ℕ
rounds timeout = timeout / 500 + 2

module _ {W : Type 0} {cluster : Cluster W} (law : IsCluster cluster) (before : List Pod)
    (deleted : Pod) (started timeout : ℕ) where
  abbrev loop : ℕ → List Pod → W → Option Outcome
  loop = wait_for_recovery cluster before deleted started timeout

  -- A round ends the loop, or goes on at least half a second later.
  inspect-returns :
      (items : Option (List Item)) (w : W) (again : List Pod → W → Option Outcome)
      → ((pods : List Pod) (v : W)
          → law.time w + 500 ≤ law.time v
          → (o : Outcome) × (again pods v ≡ some o))
      → (o : Outcome) × (inspect cluster before deleted started timeout items w again ≡ some o)
  inspect-returns none w again h = (failed, refl)
  inspect-returns (some items) w again h =
      elim (Bool-cases (is_recovered before deleted (pod_inventory items))) [
        | inl e ↦ (recovered (pod_inventory items), rw e refl)
        | inr e ↦
            let (o, r) = h (pod_inventory items) (cluster.sleep w) (law.sleeping w) in (o, rw e r)
      ]

  late_enough :
      (n : ℕ) (w v : W)
      → started + timeout ≤ law.time w + suc n * 500
      → law.time (cluster.inventory (cluster.monotonic w).1).1 + 500 ≤ law.time v
      → started + timeout ≤ law.time v + n * 500
  late_enough n w v late slept = omega (arith, law.reading w, law.asking (cluster.monotonic w).1)

  in_time :
      (w : W)
      → started + timeout ≤ law.time w
      → ltb ((cluster.monotonic w).0 - started) timeout ≡ false
  in_time w late = ground (arith, law.reads w)

  abbrev Returns : Option Outcome → Type 0
  Returns r = (o : Outcome) × (r ≡ some o)

  loop-Returns :
      (n : ℕ) (after : List Pod) (w : W)
      → started + timeout ≤ law.time w + n * 500
      → Returns (loop (suc n) after w)
  unfolding wait_for_recovery
  loop-Returns zero after w late = (timed_out after, rw (in_time w (omega arith)) refl)
  loop-Returns (suc n) after w late =
      let ih : (pods : List Pod) (v : W)
          → law.time (cluster.inventory (cluster.monotonic w).1).1 + 500 ≤ law.time v
          → Returns (loop (suc n) pods v) =
        λ pods v slept. loop-Returns n pods v (late_enough n w v late slept) in
      elim (Bool-cases (ltb ((cluster.monotonic w).0 - started) timeout)) [
        | inl e ↦
            let (o, r) =
              inspect-returns (cluster.inventory (cluster.monotonic w).1).0
                (cluster.inventory (cluster.monotonic w).1).1 (loop (suc n)) ih in
            (o, rw e r)
        | inr e ↦ (timed_out after, rw e refl)
      ]

  -- On a clock that never runs backwards and a sleep of at least half a second, the loop that starts at
  -- `started` or later ends within `timeout / 500 + 2` rounds: recovered, timed out, or with kubectl's failure.
  pub wait_for_recovery-Returns :
      (after : List Pod) (w : W)
      → started ≤ law.time w
      → Returns (wait_for_recovery cluster before deleted started timeout (rounds timeout) after w)
  wait_for_recovery-Returns after w h =
      let e : rounds timeout ≡ suc (timeout / 500 + 1) = omega arith in
      rw e (loop-Returns (timeout / 500 + 1) after w (omega arith))
