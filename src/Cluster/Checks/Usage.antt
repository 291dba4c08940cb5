-- ===== src/Cluster/Checks/Usage.antt =====
-- The use of the pools that getMspUsage (src/common/k8stest/test.go) adds up, and its bounds.
use mayastor_e2e.Prelude.{ℕ, ◌+◌, ◌<◌, ◌≡◌, refl, List, [], ◌∷◌, none, Outcome, ok, arith, All}
use Prim.Native.Nat.{◌%◌, ◌^◌}
use mayastor_e2e.Types.{MayastorPool}
use mayastor_e2e.Cluster.Checks.{Count, sum_used, get_msp_usage}

-- The use of all the pools, as a number without bound.
abbrev pub total_used : List MayastorPool → ℕ
total_used [] = 0
total_used (p ∷ ps) = p.status.used + total_used ps

sum_used-mod :
    (ps : List MayastorPool) (n : ℕ) → n < 2 ^ 64 → sum_used ps n ≡ (n + total_used ps) % 2 ^ 64
unfolding sum_used
sum_used-mod [] n l = omega arith
sum_used-mod (p ∷ ps) n l =
    let ih = sum_used-mod ps ((n + p.status.used) % 2 ^ 64) (omega arith) in omega (arith, ih)

-- No pool is used where the total is 0.
total_used-zero :
    (ps : List MayastorPool) → total_used ps ≡ 0 → All (λ (p : MayastorPool). p.status.used ≡ 0) ps
total_used-zero [] h = tt
total_used-zero (p ∷ ps) h = (omega arith, total_used-zero ps (omega arith))

-- The number of a count, where it comes with no error.
abbrev counted : ℕ → Outcome Count
counted n = ok (record { number = n; error = none })

counted-injective : (n m : ℕ) → counted n ≡ counted m → n ≡ m
counted-injective n m h = cc h

-- The use that getMspUsage gives of the pools that are listed is the sum of what is used of each,
-- modulo 2 ^ 64, and less than that. So where the sum is below 2 ^ 64 it is 0 only if no pool is used.
pub get_msp_usage-total :
    (ps : List MayastorPool)
    → (get_msp_usage (ok ps) ≡ ok (record { number = total_used ps % 2 ^ 64; error = none }))
      × (total_used ps % 2 ^ 64 < 2 ^ 64)
      × (total_used ps < 2 ^ 64
          → get_msp_usage (ok ps) ≡ ok (record { number = 0; error = none })
          → All (λ (p : MayastorPool). p.status.used ≡ 0) ps)
unfolding get_msp_usage
get_msp_usage-total ps =
    let q = sum_used-mod ps 0 (omega arith) in
    let same : sum_used ps 0 ≡ total_used ps % 2 ^ 64 = omega (arith, q) in
    (
      rw same refl,
      omega arith,
      λ l h.
          let zero = counted-injective (sum_used ps 0) 0 h in
          total_used-zero ps (omega (arith, q, zero)),
    )
