-- ===== src/Tests/Recovery.antt =====
-- The theorems on the recovery check at a cluster of two pods, one of which is replaced when it is deleted.
use arvan_ip_country_api.Prelude.{
  ℕ, ◌+◌, ◌≡◌, refl, Bool, true, false, not, none, some, List, [], ◌∷◌, length, arith,
  if◌then◌else◌,
}
use arvan_ip_country_api.Text.{Text, codes, text_leb}
use arvan_ip_country_api.Traffic.{Reply, response, http_error, failure, uncaught}
use arvan_ip_country_api.Recovery.{
  Item, Cluster, pod_of, pod_inventory, distinct_nodes, choose_pod, is_recovered, wait_for_recovery,
  bump, total, count_reply, count_replies, unexpected_failures, requests, exit_code,
}
use arvan_ip_country_api.Recovery.Loop.{IsCluster}
use arvan_ip_country_api.Recovery.Counts.{
  no_counts, is_good, how_many, before_uncaught, is_counted_twice, requests_lem,
}
use arvan_ip_country_api.Recovery.Main.{main, IsVerified, main-returns, main-IsVerified}

-- The milliseconds since the start, and whether the pod has been deleted.
record World : Type 0 where
  time : ℕ
  deleted : Bool

abbrev pod : Text → Text → Item
pod name node = record {
  name = name;
  deletion_timestamp = none;
  node_name = some node;
  phase = some (codes "Running");
  container_statuses = some true ∷ [];
}

abbrev cluster : Cluster World
cluster = record {
  monotonic = λ w. (w.time, w);
  inventory = λ w. (
    some (
        if w.deleted
        then pod (codes "b") (codes "n2") ∷ pod (codes "c") (codes "n1") ∷ []
        else pod (codes "b") (codes "n2") ∷ pod (codes "a") (codes "n1") ∷ []),
    w,
  );
  sleep = λ w. record w { time = w.time + 500 };
}

abbrev delete_pod : Text → World → Bool × World
delete_pod name w = (true, record w { deleted = true })

abbrev replies : List Reply
replies = response 200 ∷ response 200 ∷ []

abbrev law : IsCluster cluster
law = record {
  time = λ w. w.time;
  reads = λ w. refl;
  reading = λ w. omega arith;
  asking = λ w. omega arith;
  sleeping = λ w. omega arith;
}

abbrev begin : World
begin = record { time = 0; deleted = false }

main-returns_example : (code : ℕ) × (main cluster delete_pod 180000 replies begin ≡ some code)
main-returns_example =
    main-returns cluster delete_pod 180000 replies law (λ name w. omega arith) begin

succeeds : main cluster delete_pod 180000 replies begin ≡ some 0
unfolding main pod_inventory pod_of choose_pod distinct_nodes is_recovered wait_for_recovery
    exit_code count_replies count_reply unexpected_failures bump total text_leb
succeeds = refl

main-IsVerified_example : IsVerified cluster delete_pod 180000 replies begin
main-IsVerified_example = main-IsVerified cluster delete_pod 180000 replies begin succeeds

-- One of three requests is answered with status 503, and is counted twice; the exception of the fourth one ends the
-- thread, so that the fifth is not sent.
abbrev some_fail : List Reply
some_fail =
    response 200
    ∷ http_error 503
    ∷ failure "URLError"
    ∷ uncaught "IncompleteRead"
    ∷ response 503
    ∷ []

requests_lem_example :
    (unexpected_failures (count_replies some_fail no_counts)
      ≡ how_many (λ r. not (is_good r)) (before_uncaught some_fail))
    × (requests (count_replies some_fail no_counts)
        ≡ length (before_uncaught some_fail)
          + how_many is_counted_twice (before_uncaught some_fail))
requests_lem_example = requests_lem some_fail

four_of_three : requests (count_replies some_fail no_counts) ≡ 4
unfolding requests count_replies count_reply unexpected_failures bump total
four_of_three = refl

-- The exception of the first request is no failure, and the script succeeds without any traffic.
succeeds_silently : main cluster delete_pod 180000 (uncaught "IncompleteRead" ∷ []) begin ≡ some 0
unfolding main pod_inventory pod_of choose_pod distinct_nodes is_recovered wait_for_recovery
    exit_code count_replies count_reply unexpected_failures bump total text_leb
succeeds_silently = refl
