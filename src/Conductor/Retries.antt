-- ===== src/Conductor/Retries.antt =====
-- The retries of AddWorkload (test_conductor/tc/workload_monitor_lib.go).
use mayastor_e2e.Prelude.{
  ℕ, zero, suc, ◌+◌, ◌<◌, ◌≡◌, refl, ap, ◌∙◌, String, List, [], ◌∷◌, ◌++◌, Outcome, ok, err, arith,
  length,
}
use mayastor_e2e.Kubernetes.{Pod, Listing, get_pod}
use mayastor_e2e.Workload.{Violation, Workload}
use mayastor_e2e.Conductor.{Call, put_call, put_rounds, add_workload}

-- `n` times the same call.
abbrev pub repeated : ℕ → Call → List Call
repeated zero c = []
repeated (suc n) c = c ∷ repeated n c

length-snoc : (cs : List Call) (c : Call) → length (cs ++ (c ∷ [])) ≡ suc (length cs)
length-snoc [] c = refl
length-snoc (d ∷ cs) c = ap suc (length-snoc cs c)

append_snoc : (cs ds : List Call) (c : Call) → (cs ++ (c ∷ [])) ++ ds ≡ cs ++ (c ∷ ds)
append_snoc [] ds c = refl
append_snoc (d ∷ cs) ds c = ap (λ l. d ∷ l) (append_snoc cs ds c)

-- A round that fails goes on to the next.
put_rounds_fail :
    (r : ℕ) (answers : ℕ → Outcome Workload) (c : Call) (last : Outcome (Unit {0}))
    (calls : List Call) (e : String)
    → answers (length calls) ≡ err e
    → put_rounds (suc r) answers c last calls ≡ put_rounds r answers c (err e) (calls ++ (c ∷ []))
unfolding put_rounds
put_rounds_fail r answers c last calls e h = rw (h, put_rounds) refl

put_rounds_ok :
    (k r : ℕ) (answers : ℕ → Outcome Workload) (c : Call) (last : Outcome (Unit {0}))
    (calls : List Call) (wl : Workload)
    → k < r
    → ((i : ℕ) → i < k → (e : String) × (answers (length calls + i) ≡ err e))
    → answers (length calls + k) ≡ ok wl
    → put_rounds r answers c last calls ≡ (ok tt, calls ++ repeated (suc k) c)
unfolding put_rounds
put_rounds_ok k zero answers c last calls wl lt bad good = absurd (omega arith)
put_rounds_ok zero (suc r) answers c last calls wl lt bad good =
    let now : answers (length calls) ≡ ok wl = ap answers (omega arith) ∙ good in
    rw (now, put_rounds) refl
put_rounds_ok (suc k) (suc r) answers c last calls wl lt bad good =
    let (e, q) = bad 0 (omega arith) in
    let now : answers (length calls) ≡ err e = ap answers (omega arith) ∙ q in
    put_rounds_fail r answers c last calls e now
    ∙ put_rounds_ok k r answers c (err e) (calls ++ (c ∷ [])) wl (omega arith)
        (λ i lt'.
          let (e', q') = bad (suc i) (omega arith) in
          (e', ap answers (omega (arith, length-snoc calls c)) ∙ q'))
        (ap answers (omega (arith, length-snoc calls c)) ∙ good)
    ∙ ap (λ l. (ok tt, l)) (append_snoc calls (repeated (suc k) c) c)

-- AddWorkload for a pod that is there puts the workload again until the monitor takes it, at most
-- five times: if it fails `k` times, for a `k` below five, and then takes it, there is no error, and
-- the same call was made `k + 1` times; if it fails five times, there is the fifth error, and the call
-- was made five times.
pub add_workload_retries :
    (l1 l2 : Listing) (answers : ℕ → Outcome Workload) (name : String) (vs : List Violation)
    (tcpod pod : Pod)
    → get_pod l1 "test-conductor" ≡ ok tcpod
    → get_pod l2 name ≡ ok pod
    → ((k : ℕ) (wl : Workload)
        → k < 5
        → ((i : ℕ) → i < k → (e : String) × (answers i ≡ err e))
        → answers k ≡ ok wl
        → add_workload l1 l2 answers name vs []
          ≡ (ok tt, repeated (suc k) (put_call tcpod.uid pod.uid vs)))
      × ((errors : ℕ → String)
          → ((i : ℕ) → i < 5 → answers i ≡ err (errors i))
          → add_workload l1 l2 answers name vs []
            ≡ (err (errors 4), repeated 5 (put_call tcpod.uid pod.uid vs)))
unfolding add_workload put_rounds
add_workload_retries l1 l2 answers name vs tcpod pod e f = (
  λ k wl lt bad good.
      rw (add_workload, e, f)
        (put_rounds_ok k 5 answers (put_call tcpod.uid pod.uid vs) (ok tt) [] wl lt
          (λ i lt'. let (t, q) = bad i lt' in (t, ap answers (omega arith) ∙ q))
          (ap answers (omega arith) ∙ good)),
  λ errors bad.
      rw
        (
          add_workload,
          e,
          f,
          put_rounds,
          bad 0 (omega arith),
          bad 1 (omega arith),
          bad 2 (omega arith),
          bad 3 (omega arith),
          bad 4 (omega arith),
        )
        refl,
)
