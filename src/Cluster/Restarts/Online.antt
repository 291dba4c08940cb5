-- ===== src/Cluster/Restarts/Online.antt =====
-- The wait for the pools in restartMayastor (src/common/k8stest/util_testpods.go).
use mayastor_e2e.Prelude.{
  ℕ, zero, suc, ◌+◌, ◌⊎◌, inl, inr, eqb, ◌≤◌, ◌<◌, ◌≡◌, refl, subst, String, Option, none, some,
  arith, Bool-cases,
}
use mayastor_e2e.Cluster.Restarts.{online_rounds}

-- The number of the question after a wait of so many rounds: the wait goes on while the answers are
-- errors, and then one more question is asked.
abbrev pub IsLastAsked : ℕ → (ℕ → Option String) → ℕ → Type 0
IsLastAsked rounds answer n =
    (n ≤ rounds)
    × ((i : ℕ) → suc i < n → (e : String) × (answer i ≡ some e))
    × (n < rounds → (i : ℕ) × (n ≡ suc i) × (answer i ≡ none))

split : (n i : ℕ) → n ≤ i → (n ≡ i) ⊎ (suc n ≤ i)
split n i l = elim (Bool-cases (eqb n i)) [
  | inl e ↦ inl (ground (arith, e))
  | inr e ↦ inr (ground (arith, e))
]

online_rounds-last :
    (left n : ℕ) (answer : ℕ → Option String)
    → let m = online_rounds left n answer in
      (m ≤ n + left)
      × ((i : ℕ) → n ≤ i → suc i < m → (e : String) × (answer i ≡ some e))
      × (m < n + left → (i : ℕ) × (m ≡ suc i) × (answer i ≡ none))
unfolding online_rounds
online_rounds-last zero n answer =
    (omega arith, λ i a b. absurd (omega arith), λ a. absurd (omega arith))
online_rounds-last (suc left) n answer = go (answer n) refl (online_rounds-last left (suc n) answer)
  where
    Known : ℕ → ℕ → Type 0
    Known from m =
        (m ≤ n + suc left)
        × ((i : ℕ) → from ≤ i → suc i < m → (e : String) × (answer i ≡ some e))
        × (m < n + suc left → (i : ℕ) × (m ≡ suc i) × (answer i ≡ none))

    extend : (e : String) (m : ℕ) → answer n ≡ some e → Known (suc n) m → Known n m
    extend e m q (a, b, c) = (a, errors, c)
      where
        errors : (i : ℕ) → n ≤ i → suc i < m → (e' : String) × (answer i ≡ some e')
        errors i l h = elim (split n i l) [
          | inl p ↦ (e, subst (λ (j : ℕ). answer j ≡ some e) p q)
          | inr p ↦ b i p h
        ]

    go :
        (o : Option String)
        → answer n ≡ o
        → (online_rounds left (suc n) answer ≤ suc n + left)
          × ((i : ℕ)
              → suc n ≤ i
              → suc i < online_rounds left (suc n) answer
              → (e : String) × (answer i ≡ some e))
          × (online_rounds left (suc n) answer < suc n + left
              → (i : ℕ) × (online_rounds left (suc n) answer ≡ suc i) × (answer i ≡ none))
        → Known n (online_rounds (suc left) n answer)
    go none q ih =
        rw (online_rounds, q) (omega arith, (λ i a b. absurd (omega arith)), λ a. (n, refl, q))
    go (some e) q (a, b, c) =
        rw (online_rounds, q)
          (extend e (online_rounds left (suc n) answer) q (omega arith, b, λ l. c (omega arith)))

pub online_rounds-IsLastAsked :
    (rounds : ℕ) (answer : ℕ → Option String)
    → IsLastAsked rounds answer (online_rounds rounds 0 answer)
online_rounds-IsLastAsked rounds answer =
    let (most, errors, first) = online_rounds-last rounds 0 answer in
    (omega arith, (λ i. errors i (omega arith)), λ l. first (omega arith))
