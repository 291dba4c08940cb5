-- ===== src/Grpc.antt =====
-- The gRPC client of the data plane (src/common/mayastorclient/util.go, pool.go, nexus.go, replica.go,
-- nvmecontrollers.go). What a node answers to a call is a parameter: whether dialling it fails, and
-- the reply to the n-th attempt. So is the text that `%v` prints for an error.
pub mod Nodes
pub mod Retry
pub mod Gather
pub mod Removal
use mayastor_e2e.Prelude.{
  ℕ, zero, suc, ◌+◌, String, List, [], ◌∷◌, Option, none, some, Bool, true, false, if◌then◌else◌,
}
use Prim.Native.Nat.{◌*◌}

-- An error: a gRPC status with the code DeadlineExceeded, or any other error.
pub data Error : Type 0 where
  deadline_exceeded failure : String → Error

-- What a unary call leaves in its response (which may be nil) and its error.
pub data Reply {ℓ} (R : Type ℓ) : Type ℓ where
  replied : Option R → Reply R
  failed : Error → Reply R

-- A connection: the error of grpc.Dial, and the reply to the n-th attempt of the call.
pub record Call {ℓ} (R : Type ℓ) : Type ℓ where
  pub dial : Option Error
  pub attempt : ℕ → Reply R

-- isDeadlineExceeded
unfoldable pub is_deadline_exceeded : Error → Bool
is_deadline_exceeded (deadline_exceeded e) = true
is_deadline_exceeded (failure e) = false

-- niceError, at an error that is not nil.
unfoldable pub nice_error : Error → Error
nice_error (deadline_exceeded e) = deadline_exceeded "context deadline exceeded"
nice_error (failure e) = failure e

-- What retryBackoff has done: the reply that its closure left last, the number of its calls, and the
-- seconds slept.
pub record Attempts {ℓ} (R : Type ℓ) : Type ℓ where
  pub last : Reply R
  pub calls : ℕ
  pub slept : ℕ

module _ {ℓ} {R : Type ℓ} where
  -- isDeadlineExceeded at the error that the closure given to retryBackoff returns.
  unfoldable pub wants_retry : Reply R → Bool
  unfolding is_deadline_exceeded
  wants_retry (replied r) = false
  wants_retry (failed e) = is_deadline_exceeded e

  -- The loop of retryBackoff with `left` rounds to go.
  unfoldable pub retry_rounds : (left timeout : ℕ) → (ℕ → Reply R) → Attempts R → Attempts R
  unfolding wants_retry
  retry_rounds zero timeout attempt done = done
  retry_rounds (suc left) timeout attempt done =
      let reply = attempt done.calls in
      let rest =
        retry_rounds left (timeout * 2) attempt
          (record { last = reply; calls = suc done.calls; slept = done.slept + timeout }) in
      if wants_retry reply
      then rest
      else record { last = reply; calls = suc done.calls; slept = done.slept }

  -- retryBackoff: at most six rounds, the first wait of five seconds.
  unfoldable pub retry_backoff : (ℕ → Reply R) → Attempts R
  unfolding retry_rounds
  retry_backoff attempt =
      retry_rounds 6 5 attempt (record { last = replied none; calls = 0; slept = 0 })

-- mayastorInfo, as CheckAndSetConnect reads it: whether a node answers with its information.
unfoldable pub answers_info {ℓ} : {R : Type ℓ} → Call R → Bool
answers_info c = elim c.dial [
  | some e ↦ false
  | none ↦ elim (c.attempt 0) [
    | failed e ↦ false
    | replied r ↦ elim r [ none ↦ false | some info ↦ true ]
  ]
]

-- The loop of CheckAndSetConnect, which stops at the first node that does not answer.
unfoldable pub all_connected {ℓ} : {R : Type ℓ} → List (Call R) → Bool
unfolding answers_info
all_connected [] = true
all_connected (node ∷ nodes) =
    let rest = all_connected nodes in if answers_info node then rest else false

-- CheckAndSetConnect: the next value of canConnect, which is kept where there is no node.
unfoldable pub check_and_set_connect {ℓ} : {R : Type ℓ} → Bool → List (Call R) → Bool
unfolding all_connected
check_and_set_connect can_connect [] = can_connect
check_and_set_connect can_connect (node ∷ nodes) = all_connected (node ∷ nodes)
