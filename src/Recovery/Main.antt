-- ===== src/Recovery/Main.antt =====
-- `main` of verify-pod-recovery.py, from the first inventory to the exit code. The replies to the requests that the
-- thread sends until it is stopped are a parameter. An exception of `main` itself ends the script with exit code 1.
use mathlib.Core.Option
use arvan_ip_country_api.Prelude.{
  ℕ, ◌≤◌, ◌≡◌, refl, ap, Bool, true, false, ◌&&◌, Option, none, some, List, [], ◌∷◌, all, length,
  ==_iff, ◌==◌, arith, if◌then◌else◌,
}
use arvan_ip_country_api.Text.{Text}
use arvan_ip_country_api.Traffic.{Reply}
use arvan_ip_country_api.Recovery.{
  recovered, Item, Pod, pod_inventory, ready_pods, distinct_nodes, choose_pod, first, Cluster,
  Outcome, wait_for_recovery, count_replies, exit_code,
}
use arvan_ip_country_api.Recovery.Loop.{IsCluster, rounds, wait_for_recovery-Returns}
use arvan_ip_country_api.Recovery.Counts.{no_counts, is_good, before_uncaught}
use arvan_ip_country_api.Recovery.Success.{SeenBack, exit_code-SeenBack}
use arvan_ip_country_api.Recovery.Report.{report, Shows, report-Shows}

some-injective : {m n : ℕ} → some m ≡ some n → m ≡ n
some-injective h = cc

both_two :
    (m n : ℕ) (o : Option Pod) (deleted : Pod)
    → (if m == 2 && n == 2 then o else none) ≡ some deleted
    → (m ≡ 2) × (n ≡ 2)
both_two m n o deleted h = (ground (arith, ==_iff m 2), ground (arith, ==_iff n 2, ==_iff m 2))

module _ {W : Type 0} (cluster : Cluster W) (delete_pod : Text → W → Bool × W) (timeout : ℕ)
    (replies : List Reply) where
  abbrev code_of : Option Outcome → Option ℕ
  code_of = Option.map λ o. exit_code o (count_replies replies no_counts)

  -- `kubectl delete pod`, which may fail, and the loop.
  abbrev recover : List Pod → Pod → ℕ → Bool → W → Option ℕ
  recover before deleted started false w = some 1
  recover before deleted started true w =
      code_of (wait_for_recovery cluster before deleted started timeout (rounds timeout) [] w)

  abbrev disturb : List Pod → Option Pod → W → Option ℕ
  disturb before none w = some 1
  disturb before (some deleted) w =
      let (started, w₁) = cluster.monotonic w in
      let (done, w₂) = delete_pod deleted.name w₁ in recover before deleted started done w₂

  abbrev start : Option (List Item) → W → Option ℕ
  start none w = some 1
  start (some items) w = disturb (pod_inventory items) (choose_pod (pod_inventory items)) w

  -- `none` is the end of the fuel.
  unfoldable pub main : W → Option ℕ
  main w = let (items, w₁) = cluster.inventory w in start items w₁

  -- What exit code 0 stands for, of a script that starts at the world `w`.
  pub record IsVerified (w : W) : Type 0 where
    pub items : List Item
    pub listed : (cluster.inventory w).0 ≡ some items
    pub two_before : length (ready_pods (pod_inventory items)) ≡ 2
    pub two_nodes : distinct_nodes (ready_pods (pod_inventory items)) ≡ 2
    pub deleted : Pod
    pub others : List Pod
    pub is_first : ready_pods (pod_inventory items) ≡ deleted ∷ others
    pub removed : (delete_pod deleted.name (cluster.monotonic (cluster.inventory w).1).1).0 ≡ true
    pub after : List Pod
    pub seen :
        SeenBack cluster
          (pod_inventory items)
          deleted
          (cluster.monotonic (cluster.inventory w).1).0
          timeout
          (delete_pod deleted.name (cluster.monotonic (cluster.inventory w).1).1).1
          after
    pub answered : all is_good (before_uncaught replies) ≡ true
    pub shown :
        Shows
          (pod_inventory items)
          (report (pod_inventory items) deleted (recovered after) (count_replies replies no_counts))

  first_of :
      (ready : List Pod) (m n : ℕ) (deleted : Pod)
      → (if m == 2 && n == 2 then first ready else none) ≡ some deleted
      → (others : List Pod) × (ready ≡ deleted ∷ others)
  first_of [] m n deleted h = ground arith
  first_of (p ∷ ps) m n deleted h = (ps, ground arith)

  -- What a chosen pod and a successful end of the loop give.
  record Recovered (before : List Pod) (deleted : Pod) (started : ℕ) (w : W) : Type 0 where
    after : List Pod
    seen : SeenBack cluster before deleted started timeout w after
    answered : all is_good (before_uncaught replies) ≡ true

  recover-Recovered :
      (before : List Pod) (deleted : Pod) (started : ℕ) (done : Bool) (w : W)
      → recover before deleted started done w ≡ some 0
      → (done ≡ true) × Recovered before deleted started w
  recover-Recovered before deleted started false w h = cc
  recover-Recovered before deleted started true w h = (refl, go _ refl h)
    where
      go :
          (o : Option Outcome)
          → wait_for_recovery cluster before deleted started timeout (rounds timeout) [] w ≡ o
          → code_of o ≡ some 0
          → Recovered before deleted started w
      go none r k = cc
      go (some o) r k =
          let (pods, _, seen, good) =
            exit_code-SeenBack cluster before deleted started timeout (rounds timeout) [] w o
              replies r (some-injective k) in
          record { after = pods; seen = seen; answered = good }

  module _ (law : IsCluster cluster)
      (deletes : (name : Text) (w : W) → law.time w ≤ law.time (delete_pod name w).1) where
    recover-returns :
        (before : List Pod) (deleted : Pod) (started : ℕ) (done : Bool) (w : W)
        → started ≤ law.time w
        → (code : ℕ) × (recover before deleted started done w ≡ some code)
    recover-returns before deleted started false w h = (1, refl)
    recover-returns before deleted started true w h =
        let (o, r) = wait_for_recovery-Returns law before deleted started timeout [] w h in
        (exit_code o (count_replies replies no_counts), ap code_of r)

    disturb-returns :
        (before : List Pod) (o : Option Pod) (w : W) → (code : ℕ) × (disturb before o w ≡ some code)
    disturb-returns before none w = (1, refl)
    disturb-returns before (some deleted) w =
        let w₁ = (cluster.monotonic w).1 in
        recover-returns before deleted (cluster.monotonic w).0 (delete_pod deleted.name w₁).0
          (delete_pod deleted.name w₁).1
          (omega (arith, law.reads w, law.reading w, deletes deleted.name w₁))

    start-returns : (items : Option (List Item)) (w : W) → (code : ℕ) × (start items w ≡ some code)
    start-returns none w = (1, refl)
    start-returns (some items) w =
        disturb-returns (pod_inventory items) (choose_pod (pod_inventory items)) w

    -- On a clock that never runs backwards and a sleep of at least half a second, the script ends with an exit code,
    -- whatever the cluster does.
    pub main-returns : (w : W) → (code : ℕ) × (main w ≡ some code)
    unfolding main
    main-returns w = start-returns (cluster.inventory w).0 (cluster.inventory w).1

  disturb-IsVerified :
      (w : W) (items : List Item) (o : Option Pod)
      → (cluster.inventory w).0 ≡ some items
      → choose_pod (pod_inventory items) ≡ o
      → disturb (pod_inventory items) o (cluster.inventory w).1 ≡ some 0
      → IsVerified w
  unfolding choose_pod
  disturb-IsVerified w items none e c h = cc
  disturb-IsVerified w items (some deleted) e c h =
      let before = pod_inventory items in
      let w₁ = (cluster.monotonic (cluster.inventory w).1).1 in
      let started = (cluster.monotonic (cluster.inventory w).1).0 in
      let (two, nodes) =
        both_two (length (ready_pods before)) (distinct_nodes (ready_pods before)) _ deleted c in
      let (others, head) =
        first_of (ready_pods before) (length (ready_pods before))
          (distinct_nodes (ready_pods before)) deleted c in
      let (removed, r) =
        recover-Recovered before deleted started (delete_pod deleted.name w₁).0
          (delete_pod deleted.name w₁).1 h in
      record {
        items = items;
        listed = e;
        two_before = two;
        two_nodes = nodes;
        deleted = deleted;
        others = others;
        is_first = head;
        removed = removed;
        after = r.after;
        seen = r.seen;
        answered = r.answered;
        shown = report-Shows before deleted r.after (count_replies replies no_counts) r.seen.back;
      }

  start-IsVerified :
      (w : W) (o : Option (List Item))
      → (cluster.inventory w).0 ≡ o
      → start o (cluster.inventory w).1 ≡ some 0
      → IsVerified w
  start-IsVerified w none e h = cc
  start-IsVerified w (some items) e h = disturb-IsVerified w items _ e refl h

  -- Exit code 0 means that two pods on two nodes are ready in the first inventory; that the first of them was
  -- deleted; that an inventory which the loop took afterwards, before the timeout, has two ready pods without the
  -- deleted one and with a new one among them, which the report names as the replacement; and that every request
  -- was answered with status 200, up to one whose exception ends the thread that sends them.
  pub main-IsVerified : (w : W) → main w ≡ some 0 → IsVerified w
  unfolding main
  main-IsVerified w h = start-IsVerified w (cluster.inventory w).0 refl h
