-- ===== src/Cluster/Restarts/Laws.antt =====
-- What the restart of the product (src/common/k8stest/util_testpods.go) reports.
use mayastor_e2e.Prelude.{
  ℕ, zero, suc, ◌+◌, ◌-◌, ◌≤◌, ◌<◌, ◌≡◌, refl, subst, String, List, Option, none, some, Outcome, ok,
  err, panic, Bool, true, false, All, arith, Bool-cases, Option-cases,
}
use Prim.Native.Nat.{◌/◌}
use mayastor_e2e.Cluster.Pods.{Pod, check_test_pods_health}
use mayastor_e2e.Cluster.Pods.Laws.{IsPassed, check_test_pods_health-none}
use mayastor_e2e.Cluster.Restarts.Online.{IsLastAsked, online_rounds-IsLastAsked}
use mayastor_e2e.Cluster.Restarts.{
  RestartFacts, clear_replicas, settle, make_pools, restart_once, online_rounds, Try, try_error,
  restart_tries, restart_mayastor,
}

-- What a restart has established, with `seconds` to wait for the pools: RestartMayastorPods reported no
-- error, the product was ready, the last answer about the pools was that they are online, and where the
-- nodes can be called, RmReplicasInCluster reported no error.
abbrev pub IsRestarted : ℕ → RestartFacts → Type 0
IsRestarted seconds f =
    (f.pods ≡ none)
    × (f.ready ≡ ok true)
    × ((n : ℕ) × IsLastAsked ((seconds + 10 - 1) / 10) f.pools_online n × (f.pools_online n ≡ none))
    × (f.can_connect ≡ true → f.removal ≡ none)

clear_replicas-none :
    (f : RestartFacts) (o : Option String)
    → clear_replicas f o ≡ none
    → (o ≡ none) × (f.can_connect ≡ true → f.removal ≡ none)
unfolding clear_replicas
clear_replicas-none f (some e) h = cc h
clear_replicas-none f none h = (refl, λ c. ground (arith, c, h, Option-cases f.removal))

settle-none :
    (seconds : ℕ) (f : RestartFacts)
    → settle seconds f ≡ none
    → ((n : ℕ) × IsLastAsked ((seconds + 10 - 1) / 10) f.pools_online n × (f.pools_online n ≡ none))
      × (f.can_connect ≡ true → f.removal ≡ none)
unfolding settle
settle-none seconds f h =
    let s = clear_replicas-none f _ h in
    let rounds = (seconds + 10 - 1) / 10 in
    (
      (online_rounds rounds 0 f.pools_online, online_rounds-IsLastAsked rounds f.pools_online, s.0),
      s.1,
    )

make_pools-none :
    (seconds : ℕ) (f : RestartFacts) → make_pools seconds f ≡ none → settle seconds f ≡ none
unfolding make_pools
make_pools-none seconds f h =
    ground (arith, h, Bool-cases f.has_pool_device, Option-cases f.create_pools)

restart_once-none :
    (seconds : ℕ) (f : RestartFacts) → restart_once seconds f ≡ ok none → IsRestarted seconds f
unfolding restart_once
restart_once-none seconds f h = go f.pods f.ready refl refl h
  where
    go :
        (p : Option String) (r : Outcome Bool)
        → f.pods ≡ p
        → f.ready ≡ r
        → restart_once seconds f ≡ ok none
        → IsRestarted seconds f
    go (some e) r a b t = ground (arith, a, t)
    go none (err e) a b t = ground (arith, a, b, t)
    go none panic a b t = ground (arith, a, b, t)
    go none (ok false) a b t = ground (arith, a, b, t)
    go none (ok true) a b t =
        let s = settle-none seconds f (make_pools-none seconds f (ground (arith, a, b, t))) in
        (a, b, s.0, s.1)

try_error-none :
    (decimal : ℕ → String) (product : String) (seconds : ℕ) (t : Try)
    → try_error decimal product seconds t ≡ ok none
    → IsRestarted seconds t.restart
      × (check_test_pods_health decimal product product t.listed ≡ none)
      × (t.resources ≡ none)
unfolding try_error
try_error-none decimal product seconds t h =
    go (restart_once seconds t.restart) (check_test_pods_health decimal product product t.listed)
      refl refl h
  where
    go :
        (r : Outcome (Option String)) (c : Option String)
        → restart_once seconds t.restart ≡ r
        → check_test_pods_health decimal product product t.listed ≡ c
        → try_error decimal product seconds t ≡ ok none
        → IsRestarted seconds t.restart
          × (check_test_pods_health decimal product product t.listed ≡ none)
          × (t.resources ≡ none)
    go (err e) c a b g = ground (arith, a, g)
    go panic c a b g = ground (arith, a, g)
    go (ok (some e)) c a b g = ground (arith, a, g)
    go (ok none) (some e) a b g = ground (arith, a, b, g)
    go (ok none) none a b g = (restart_once-none seconds t.restart a, b, ground (arith, a, b, g))

restart_tries-none :
    (decimal : ℕ → String) (product : String) (seconds left n : ℕ) (answer : ℕ → Try)
    (e : Option String) (m : ℕ)
    → (e ≡ none → 1 ≤ left)
    → restart_tries decimal product seconds left n answer e ≡ ok (none, m)
    → (i : ℕ) × (i < n + left)
      × (m ≡ suc i)
      × (try_error decimal product seconds (answer i) ≡ ok none)
unfolding restart_tries
restart_tries-none decimal product seconds zero n answer none m some_left h =
    let l = some_left refl in absurd (omega arith)
restart_tries-none decimal product seconds zero n answer (some e) m some_left h = cc h
restart_tries-none decimal product seconds (suc left) n answer e m some_left h =
    go (try_error decimal product seconds (answer n)) refl h
      (λ e'. restart_tries-none decimal product seconds left (suc n) answer (some e') m (λ q. cc q))
  where
    later :
        (i : ℕ) × (i < suc n + left)
          × (m ≡ suc i)
          × (try_error decimal product seconds (answer i) ≡ ok none)
        → (i : ℕ) × (i < n + suc left)
          × (m ≡ suc i)
          × (try_error decimal product seconds (answer i) ≡ ok none)
    later (i, a, b, c) = (i, omega arith, b, c)

    go :
        (r : Outcome (Option String))
        → try_error decimal product seconds (answer n) ≡ r
        → restart_tries decimal product seconds (suc left) n answer e ≡ ok (none, m)
        → ((e' : String)
            → restart_tries decimal product seconds left (suc n) answer (some e') ≡ ok (none, m)
            → (i : ℕ) × (i < suc n + left)
              × (m ≡ suc i)
              × (try_error decimal product seconds (answer i) ≡ ok none))
        → (i : ℕ) × (i < n + suc left)
          × (m ≡ suc i)
          × (try_error decimal product seconds (answer i) ≡ ok none)
    go panic q t ih = ground (arith, q, t)
    go (err e') q t ih = later (ih e' (ground (arith, q, t)))
    go (ok (some e')) q t ih = later (ih e' (ground (arith, q, t)))
    go (ok none) q t ih = (n, omega arith, ground (arith, q, t), q)

-- Where RestartMayastor reports success after `m` tries, that is at most three, and in the last of them
-- RestartMayastorPods reported no error, the product was ready, the pools were online when last asked,
-- RmReplicasInCluster reported no error if the nodes can be called, no container of the product's pods
-- but those of mayastor-etcd had been restarted and none of these pods with containers was failed or
-- unknown, and ResourceCheck found nothing.
pub restart_mayastor_lem :
    (decimal : ℕ → String) (product : String) (seconds : ℕ) (answer : ℕ → Try) (m : ℕ)
    → restart_mayastor decimal product seconds answer ≡ ok (none, m)
    → (i : ℕ) × (i < 3)
      × (m ≡ suc i)
      × IsRestarted seconds (answer i).restart
      × ((pods : List Pod) × ((answer i).listed ≡ some pods) × All (IsPassed product product) pods)
      × ((answer i).resources ≡ none)
unfolding restart_mayastor
restart_mayastor_lem decimal product seconds answer m h =
    let (i, l, q, r) =
      restart_tries-none decimal product seconds 3 0 answer none m (λ t. omega arith) h in
    let (done, healthy, clean) = try_error-none decimal product seconds (answer i) r in
    (
      i,
      l,
      q,
      done,
      check_test_pods_health-none decimal product product (answer i).listed healthy,
      clean,
    )

add_zero : (n : ℕ) → n + 0 ≡ n
add_zero n = omega arith

suc_zero : (m n : ℕ) → m ≡ suc (n + 0) → suc n ≡ m
suc_zero m n h = omega arith

restart_tries_first :
    (decimal : ℕ → String) (product : String) (seconds k left n m : ℕ) (answer : ℕ → Try)
    (e : Option String)
    → k < left
    → m ≡ suc (n + k)
    → ((i : ℕ)
        → i < k
        → (e' : String) × (try_error decimal product seconds (answer (n + i)) ≡ ok (some e')))
    → try_error decimal product seconds (answer (n + k)) ≡ ok none
    → restart_tries decimal product seconds left n answer e ≡ ok (none, m)
unfolding restart_tries
restart_tries_first decimal product seconds k zero n m answer e lt count fails last =
    absurd (omega arith)
restart_tries_first decimal product seconds zero (suc left) n m answer e lt count fails last =
    let q =
      subst (λ (j : ℕ). try_error decimal product seconds (answer j) ≡ ok none) (add_zero n) last in
    rw (restart_tries, q, suc_zero m n count) refl
restart_tries_first decimal product seconds (suc k) (suc left) n m answer e lt count fails last =
    let (e', f) = fails 0 (omega arith) in
    let q =
      subst (λ (j : ℕ). try_error decimal product seconds (answer j) ≡ ok (some e')) (add_zero n)
        f in
    rw (restart_tries, q)
      (restart_tries_first decimal product seconds k left (suc n) m answer (some e') (omega arith)
        (omega arith)
        (λ (i : ℕ) (l : i < k).
          subst
            (λ (j : ℕ). (t : String) × (try_error decimal product seconds (answer j) ≡ ok (some t)))
            (omega arith) (fails (suc i) (omega arith)))
        (subst (λ (j : ℕ). try_error decimal product seconds (answer j) ≡ ok none) (omega arith)
          last))

-- Where the first `k` tries fail, fewer than three, and the next one does not, RestartMayastor reports
-- success after that one.
pub restart_mayastor_first :
    (decimal : ℕ → String) (product : String) (seconds k : ℕ) (answer : ℕ → Try)
    → k < 3
    → ((i : ℕ)
        → i < k
        → (e' : String) × (try_error decimal product seconds (answer i) ≡ ok (some e')))
    → try_error decimal product seconds (answer k) ≡ ok none
    → restart_mayastor decimal product seconds answer ≡ ok (none, suc k)
unfolding restart_mayastor
restart_mayastor_first decimal product seconds k answer lt fails last =
    restart_tries_first decimal product seconds k 3 0 (suc k) answer none lt (omega arith)
      (λ (i : ℕ) (l : i < k).
        subst
          (λ (j : ℕ). (t : String) × (try_error decimal product seconds (answer j) ≡ ok (some t)))
          (omega arith) (fails i l))
      (subst (λ (j : ℕ). try_error decimal product seconds (answer j) ≡ ok none) (omega arith) last)
