-- ===== src/Kubernetes/Lookup.antt =====
-- Which pod the lookups by uid (common/k8sclient/lib_pod.go) find in a list of pods.
use mayastor_e2e.Prelude.{
  ◌≡◌, ◌≢◌, refl, sym, ap, subst, String, List, [], ◌∷◌, ◌++◌, Option, none, some, Outcome, ok, err,
  panic, true, false, arith, All, text_cases, text_self, text_ne, inl, inr, ◌∙◌,
}
use mayastor_e2e.Kubernetes.{
  Pod, pod_failed, Listing, listed, failed, find_pod, get_pod_by_uuid, get_pod_status,
  get_pod_exists_by_uuid,
}

-- The pods are listed, and the pod is the first of them with the uid.
abbrev pub IsThere : String → Listing → Pod → Type 0
IsThere uuid (failed e) pod = ⊥
IsThere uuid (listed pods) pod =
    (before after : List Pod) × (pods ≡ before ++ (pod ∷ after))
    × All (λ (x : Pod). x.uid ≢ uuid) before
    × (pod.uid ≡ uuid)

-- No pod with the uid is listed, or the pods could not be listed.
abbrev pub IsAbsent : String → Listing → Type 0
IsAbsent uuid (failed e) = Unit
IsAbsent uuid (listed pods) = All (λ (x : Pod). x.uid ≢ uuid) pods

some-injective {ℓ} : {A : Type ℓ} {a b : A} → some a ≡ some b → a ≡ b
some-injective h = cc h

ok-injective {ℓ} : {A : Type ℓ} {a b : A} → ok a ≡ ok b → a ≡ b
ok-injective h = cc h

find_pod-some :
    (uuid : String) (pods : List Pod) (pod : Pod)
    → find_pod uuid pods ≡ some pod
    → IsThere uuid (listed pods) pod
unfolding find_pod
find_pod-some uuid [] pod h = cc h
find_pod-some uuid (x ∷ pods) pod h = elim (text_cases uuid x.uid) [
  | inl (t, q) ↦
      let same : x ≡ pod = some-injective (ground (arith, t, h)) in
      (
        [],
        pods,
        ap (λ (y : Pod). y ∷ pods) same,
        tt,
        subst (λ (y : Pod). y.uid ≡ uuid) same (sym q),
      )
  | inr (t, d) ↦
      let (before, after, q, b, u) = find_pod-some uuid pods pod (ground (arith, t, h)) in
      (x ∷ before, after, ap (λ (l : List Pod). x ∷ l) q, ((λ e. d (sym e)), b), u)
]

find_pod-none :
    (uuid : String) (pods : List Pod) → find_pod uuid pods ≡ none → IsAbsent uuid (listed pods)
unfolding find_pod
find_pod-none uuid [] h = tt
find_pod-none uuid (x ∷ pods) h = elim (text_cases uuid x.uid) [
  | inl (t, q) ↦ ground (arith, t, h)
  | inr (t, d) ↦ ((λ e. d (sym e)), find_pod-none uuid pods (ground (arith, t, h)))
]

find_pod_first :
    (uuid : String) (before after : List Pod) (pod : Pod)
    → All (λ (x : Pod). x.uid ≢ uuid) before
    → pod.uid ≡ uuid
    → find_pod uuid (before ++ (pod ∷ after)) ≡ some pod
unfolding find_pod
find_pod_first uuid [] after pod b u = rw (find_pod, u, text_self uuid) refl
find_pod_first uuid (x ∷ before) after pod b u =
    rw (find_pod, text_ne uuid x.uid (λ e. b.0 (sym e)))
      (find_pod_first uuid before after pod b.1 u)

pub get_pod_by_uuid-IsThere :
    (l : Listing) (uuid : String) (pod : Pod)
    → get_pod_by_uuid l uuid ≡ ok (some pod)
    → IsThere uuid l pod
unfolding get_pod_by_uuid
get_pod_by_uuid-IsThere (failed e) uuid pod h = cc h
get_pod_by_uuid-IsThere (listed pods) uuid pod h = find_pod-some uuid pods pod (ok-injective h)

pub get_pod_by_uuid_there :
    (l : Listing) (uuid : String) (pod : Pod)
    → IsThere uuid l pod
    → get_pod_by_uuid l uuid ≡ ok (some pod)
unfolding get_pod_by_uuid
get_pod_by_uuid_there (failed e) uuid pod h = absurd h
get_pod_by_uuid_there (listed pods) uuid pod (before, after, q, b, u) =
    ap (λ o. ok o) (ap (find_pod uuid) q ∙ find_pod_first uuid before after pod b u)

-- GetPodStatus says that a pod has failed of a pod that is there and has.
pub get_pod_status-failed :
    (l : Listing) (uuid : String)
    → get_pod_status l uuid ≡ some pod_failed
    → (pod : Pod) × IsThere uuid l pod × (pod.phase ≡ pod_failed)
unfolding get_pod_status
get_pod_status-failed l uuid h = go (get_pod_by_uuid l uuid) refl
  where
    go :
        (o : Outcome (Option Pod))
        → get_pod_by_uuid l uuid ≡ o
        → (pod : Pod) × IsThere uuid l pod × (pod.phase ≡ pod_failed)
    go (err e) q = ground (arith, q, h)
    go panic q = ground (arith, q, h)
    go (ok none) q = ground (arith, q, h)
    go (ok (some pod)) q =
        (pod, get_pod_by_uuid-IsThere l uuid pod q, some-injective (ground (arith, q, h)))

pub get_pod_status_there :
    (l : Listing) (uuid : String) (pod : Pod)
    → IsThere uuid l pod
    → get_pod_status l uuid ≡ some pod.phase
unfolding get_pod_status
get_pod_status_there l uuid pod h = rw (get_pod_status, get_pod_by_uuid_there l uuid pod h) refl

pub get_pod_exists_by_uuid-true :
    (l : Listing) (uuid : String)
    → get_pod_exists_by_uuid l uuid ≡ true
    → (pod : Pod) × IsThere uuid l pod
unfolding get_pod_exists_by_uuid
get_pod_exists_by_uuid-true l uuid h = go (get_pod_by_uuid l uuid) refl
  where
    go : (o : Outcome (Option Pod)) → get_pod_by_uuid l uuid ≡ o → (pod : Pod) × IsThere uuid l pod
    go (err e) q = ground (arith, q, h)
    go panic q = ground (arith, q, h)
    go (ok none) q = ground (arith, q, h)
    go (ok (some pod)) q = (pod, get_pod_by_uuid-IsThere l uuid pod q)

pub get_pod_exists_by_uuid-false :
    (l : Listing) (uuid : String) → get_pod_exists_by_uuid l uuid ≡ false → IsAbsent uuid l
unfolding get_pod_exists_by_uuid get_pod_by_uuid
get_pod_exists_by_uuid-false (failed e) uuid h = tt
get_pod_exists_by_uuid-false (listed pods) uuid h = go (find_pod uuid pods) refl
  where
    go : (o : Option Pod) → find_pod uuid pods ≡ o → IsAbsent uuid (listed pods)
    go none q = find_pod-none uuid pods q
    go (some pod) q = ground (arith, q, h)
