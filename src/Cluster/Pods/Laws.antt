-- ===== src/Cluster/Pods/Laws.antt =====
-- What CheckTestPodsHealth (src/common/k8stest/util_testpods.go) says of the pods.
use mayastor_e2e.Prelude.{
  ℕ, ◌≡◌, refl, String, List, [], ◌∷◌, ◌++◌, Option, none, some, true, false, All, sym, ap, ◌∙◌,
  has_prefix, text_cases, eqb, arith, Bool-cases, Option-cases, inl, inr, ◌≢◌,
}
use mayastor_e2e.Kubernetes.{PodPhase, pod_failed, unknown}
use mayastor_e2e.Cluster.Pods.{
  ContainerStatus, Pod, bad_phase, restart_error, phase_error, container_errors, pod_errors,
  joined_errors, check_test_pods_health, is_pod_health_check_candidate,
}

-- No container of the pod has been restarted, and if it has any its phase is not a bad one.
abbrev pub IsHealthy : Pod → Type 0
IsHealthy p =
    All
      (λ (c : ContainerStatus).
        (c.restart_count ≡ 0) × (p.phase ≢ pod_failed) × (p.phase ≢ unknown))
      p.containers

nonempty {ℓ} : {A : Type ℓ} (a : A) (l : List A) → (a ∷ l) ≢ []
nonempty a l p = cc p

append_empty {ℓ} : {A : Type ℓ} (l m : List A) → l ++ m ≡ [] → (l ≡ []) × (m ≡ [])
append_empty [] m h = (refl, h)
append_empty (a ∷ l) m h = cc h

restart_error_empty :
    (decimal : ℕ → String) (name : String) (n : ℕ) → restart_error decimal name n ≡ [] → n ≡ 0
unfolding restart_error
restart_error_empty decimal name n h = ground (arith, h, Bool-cases (eqb n 0))

phase_error_empty :
    (name : String) (phase : PodPhase) → phase_error name phase ≡ [] → bad_phase phase ≡ none
unfolding phase_error
phase_error_empty name phase h = ground (arith, h, Option-cases (bad_phase phase))

bad_phase-none :
    (phase : PodPhase) → bad_phase phase ≡ none → (phase ≢ pod_failed) × (phase ≢ unknown)
unfolding bad_phase
bad_phase-none phase h =
    ((λ q. cc (sym (ap bad_phase q) ∙ h)), (λ q. cc (sym (ap bad_phase q) ∙ h)))

container_errors_empty :
    (decimal : ℕ → String) (name : String) (phase : PodPhase) (cs : List ContainerStatus)
    → container_errors decimal name phase cs ≡ []
    → All
        (λ (c : ContainerStatus). (c.restart_count ≡ 0) × (phase ≢ pod_failed) × (phase ≢ unknown))
        cs
unfolding container_errors
container_errors_empty decimal name phase [] h = tt
container_errors_empty decimal name phase (c ∷ cs) h =
    let a = append_empty (restart_error decimal name c.restart_count) _ h in
    let b = append_empty (phase_error name phase) _ a.1 in
    let sound = bad_phase-none phase (phase_error_empty name phase b.0) in
    (
      (restart_error_empty decimal name c.restart_count a.0, sound.0, sound.1),
      container_errors_empty decimal name phase cs b.1,
    )

-- The pod is healthy, if it is not one of mayastor-etcd in the product's namespace.
abbrev pub IsPassed : String → String → Pod → Type 0
IsPassed product namespace p =
    (namespace ≡ product → has_prefix "mayastor-etcd" p.name ≡ false) → IsHealthy p

is_pod_health_check_candidate-false :
    (product name namespace : String)
    → is_pod_health_check_candidate product name namespace ≡ false
    → (namespace ≡ product) × (has_prefix "mayastor-etcd" name ≡ true)
unfolding is_pod_health_check_candidate
is_pod_health_check_candidate-false product name namespace h = elim (text_cases namespace product) [
  | inr (t, d) ↦ ground (arith, t, h)
  | inl (t, q) ↦ (q, ground (arith, t, h, Bool-cases (has_prefix "mayastor-etcd" name)))
]

pod_errors_empty :
    (decimal : ℕ → String) (product namespace : String) (ps : List Pod)
    → pod_errors decimal product namespace ps ≡ []
    → All (IsPassed product namespace) ps
unfolding pod_errors
pod_errors_empty decimal product namespace [] h = tt
pod_errors_empty decimal product namespace (p ∷ ps) h =
    elim (Bool-cases (is_pod_health_check_candidate product p.name namespace)) [
      | inl q ↦
          let a =
            append_empty (container_errors decimal p.name p.phase p.containers) _
              (ground (arith, q, h)) in
          (
            λ t. container_errors_empty decimal p.name p.phase p.containers a.0,
            pod_errors_empty decimal product namespace ps a.1,
          )
      | inr q ↦
          let (n, e) = is_pod_health_check_candidate-false product p.name namespace q in
          (λ t. cc (t n, e), pod_errors_empty decimal product namespace ps (ground (arith, q, h)))
    ]

joined_errors-none : (l : List String) → joined_errors l ≡ none → l ≡ []
unfolding joined_errors
joined_errors-none [] h = refl
joined_errors-none (e ∷ es) h = cc h

-- Where CheckTestPodsHealth reports no error, the pods were listed, and no container of a pod that it
-- looks at has been restarted, nor is such a pod with containers failed or unknown.
pub check_test_pods_health-none :
    (decimal : ℕ → String) (product namespace : String) (listed : Option (List Pod))
    → check_test_pods_health decimal product namespace listed ≡ none
    → (pods : List Pod) × (listed ≡ some pods) × All (IsPassed product namespace) pods
unfolding check_test_pods_health
check_test_pods_health-none decimal product namespace none h = cc h
check_test_pods_health-none decimal product namespace (some pods) h =
    (pods, refl, pod_errors_empty decimal product namespace pods (joined_errors-none _ h))
