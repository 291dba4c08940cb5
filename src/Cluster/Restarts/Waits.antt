-- ===== src/Cluster/Restarts/Waits.antt =====
-- What RestartMayastorPods (src/common/k8stest/util_testpods.go) reports of its wait.
use mayastor_e2e.Prelude.{
  ℕ, zero, suc, ◌+◌, ◌-◌, ◌≤◌, ◌<◌, ◌≡◌, refl, String, List, Option, none, some, Outcome, ok, true,
  arith, length, leb, concat,
}
use Prim.Native.Nat.{◌/◌}
use mayastor_e2e.Cluster.Pods.{Pod, list_mayastor_pods}
use mayastor_e2e.Cluster.Restarts.{restart_rounds, restart_mayastor_pods, delete_each, printed}

leb_zero : (n : ℕ) → leb 0 n ≡ true
leb_zero n = ground arith

-- Where no number of pods has been kept yet and the seconds allow a round, RestartMayastorPods reports
-- success as soon as it can list the pods once all are deleted, whichever of them are back.
pub restart_mayastor_pods_unset :
    (now seconds : ℕ) (delete : String → Option String) (answer : ℕ → Outcome (List Pod))
    (names back : List String)
    → 10 < seconds
    → list_mayastor_pods none (answer 0) ≡ ok names
    → delete_each delete names none ≡ none
    → list_mayastor_pods (some now) (answer 1) ≡ ok back
    → restart_mayastor_pods 0 now seconds delete answer ≡ ok (names, none)
unfolding restart_mayastor_pods restart_rounds
restart_mayastor_pods_unset now seconds delete answer names back lt first deleted second =
    rw (restart_mayastor_pods, first, deleted, one_round _ (rounds seconds lt)) refl
  where
    one_round : (left : ℕ) → 1 ≤ left → restart_rounds 0 now left 1 answer none ≡ ok none
    one_round zero l = absurd (omega arith)
    one_round (suc left) l = rw (restart_rounds, second, leb_zero (length back)) refl

    rounds : (s : ℕ) → 10 < s → 1 ≤ (s + 10 - 1) / 10 - 1
    rounds s l = omega arith

-- With a wait of ten seconds or less RestartMayastorPods looks for no new pod: it reports a failure even
-- where every pod is back at once.
pub restart_mayastor_pods_short :
    (wanted now seconds : ℕ) (delete : String → Option String) (answer : ℕ → Outcome (List Pod))
    (names : List String)
    → seconds ≤ 10
    → list_mayastor_pods none (answer 0) ≡ ok names
    → delete_each delete names none ≡ none
    → restart_mayastor_pods wanted now seconds delete answer
      ≡ ok (names, some "restart failed incomplete error=<nil>")
unfolding restart_mayastor_pods restart_rounds concat printed
restart_mayastor_pods_short wanted now seconds delete answer names le first deleted =
    rw (restart_mayastor_pods, first, deleted, no_round seconds le) refl
  where
    no_round : (s : ℕ) → s ≤ 10 → (s + 10 - 1) / 10 - 1 ≡ 0
    no_round s l = omega arith
