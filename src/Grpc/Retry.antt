-- ===== src/Grpc/Retry.antt =====
-- What retryBackoff (src/common/mayastorclient/util.go) does to a call, for every course of replies,
-- and what that makes of the calls that use it.
use mayastor_e2e.Prelude.{
  ℕ, zero, suc, ◌+◌, ◌<◌, ◌≡◌, refl, subst, ap, String, List, none, true, false, arith,
}
use Prim.Native.Nat.{◌*◌}
use mayastor_e2e.Grpc.{
  Error, deadline_exceeded, Reply, replied, failed, Attempts, wants_retry, is_deadline_exceeded,
  retry_rounds, retry_backoff,
}
use mayastor_e2e.Grpc.Nodes.{Node, fault, list_node, read_reply}

-- The seconds that `n` waits take, the first of `timeout` and each twice the one before.
unfoldable pub waited : (timeout n : ℕ) → ℕ
waited timeout zero = 0
waited timeout (suc n) = timeout + waited (timeout * 2) n

module _ {ℓ} {R : Type ℓ} where
  rounds_stop :
      (left timeout : ℕ) (attempt : ℕ → Reply R) (done : Attempts R)
      → wants_retry (attempt done.calls) ≡ false
      → retry_rounds (suc left) timeout attempt done
        ≡ record { last = attempt done.calls; calls = suc done.calls; slept = done.slept }
  unfolding retry_rounds
  rounds_stop left timeout attempt done stop = rw stop refl

  rounds_again :
      (left timeout : ℕ) (attempt : ℕ → Reply R) (done : Attempts R)
      → wants_retry (attempt done.calls) ≡ true
      → retry_rounds (suc left) timeout attempt done
        ≡ retry_rounds left (timeout * 2) attempt (record {
          last = attempt done.calls;
          calls = suc done.calls;
          slept = done.slept + timeout;
        })
  unfolding retry_rounds
  rounds_again left timeout attempt done again = rw again refl

  rounds_first :
      (k left timeout : ℕ) (attempt : ℕ → Reply R) (done : Attempts R)
      → k < left
      → ((i : ℕ) → i < k → wants_retry (attempt (done.calls + i)) ≡ true)
      → wants_retry (attempt (done.calls + k)) ≡ false
      → retry_rounds left timeout attempt done ≡ record {
        last = attempt (done.calls + k);
        calls = done.calls + suc k;
        slept = done.slept + waited timeout k;
      }
  unfolding waited
  rounds_first k zero timeout attempt done lt again stop = absurd (omega arith)
  rounds_first zero (suc left) timeout attempt done lt again stop =
      ground (arith, rounds_stop left timeout attempt done)
  rounds_first (suc k) (suc left) timeout attempt done lt again stop = ground (
    arith,
    rounds_again left timeout attempt done,
    again 0,
    rounds_first k left (timeout * 2) attempt
        (record { last = attempt done.calls; calls = suc done.calls; slept = done.slept + timeout })
        (omega arith)
        (λ (i : ℕ) (l : i < k).
          subst (λ j. wants_retry (attempt j) ≡ true) (omega arith) (again (suc i) (omega arith)))
        (subst (λ j. wants_retry (attempt j) ≡ false) (omega arith) stop),
  )

  -- Where the first `k` replies are errors that the deadline was exceeded, fewer than six, and the next is
  -- not, retryBackoff ends with that reply: it has called once more than `k` times, and has slept
  -- between the calls, five seconds first and each time twice as long.
  pub retry_backoff_first :
      (k : ℕ) (attempt : ℕ → Reply R)
      → k < 6
      → ((i : ℕ) → i < k → wants_retry (attempt i) ≡ true)
      → wants_retry (attempt k) ≡ false
      → retry_backoff attempt ≡ record { last = attempt k; calls = suc k; slept = waited 5 k }
  unfolding retry_backoff
  retry_backoff_first k attempt lt again stop = ground (
    arith,
    rounds_first k 6 5 attempt (record { last = replied none; calls = 0; slept = 0 }) lt
        (λ (i : ℕ) (l : i < k).
          subst (λ j. wants_retry (attempt j) ≡ true) (omega arith) (again i l))
        (subst (λ j. wants_retry (attempt j) ≡ false) (omega arith) stop),
  )

  -- Where all six replies are errors that the deadline was exceeded, retryBackoff has called six times,
  -- slept for 315 seconds, and ends with the sixth error.
  pub retry_backoff_gives_up :
      (attempt : ℕ → Reply R)
      → ((i : ℕ) → i < 6 → wants_retry (attempt i) ≡ true)
      → retry_backoff attempt ≡ record { last = attempt 5; calls = 6; slept = 315 }
  unfolding retry_backoff
  retry_backoff_gives_up attempt again =
      rw
        (
          again 0 (omega arith),
          again 1 (omega arith),
          again 2 (omega arith),
          again 3 (omega arith),
          again 4 (omega arith),
          again 5 (omega arith),
        )
        refl

-- One context bounds all the attempts of a call. Where it has run out, so that each of the six
-- attempts ends with an exceeded deadline, listing what a node has fails: with the short text of
-- niceError, or with the error of the sixth attempt where niceError is not applied.
pub list_node_expired {ℓ κ} :
    {R : Type ℓ} {A : Type κ} (nice : Error → Error) (infos : R → List A) (name : String)
    (n : Node R)
    → n.call.dial ≡ none
    → (e : ℕ → String) → ((i : ℕ) → i < 6 → n.call.attempt i ≡ failed (deadline_exceeded (e i)))
    → list_node nice infos name n ≡ fault (nice (deadline_exceeded (e 5)))
unfolding list_node read_reply wants_retry is_deadline_exceeded
list_node_expired {R} {A} nice infos name n dialled e expired =
    rw (dialled, ap last (retry_backoff_gives_up n.call.attempt again), expired 5 (omega arith))
      refl
  where
    last : Attempts R → Reply R
    last a = a.last

    again : (i : ℕ) → i < 6 → wants_retry (n.call.attempt i) ≡ true
    again i lt = rw (expired i lt) refl
