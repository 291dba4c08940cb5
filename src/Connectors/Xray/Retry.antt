-- ===== src/Connectors/Xray/Retry.antt =====
-- What five rounds of sendXrayQuery (connectors/xray/xray.go) amount to.
use Prim.Native.String.{len}
use mayastor_e2e.Prelude.{
  ℕ, zero, suc, ◌+◌, ◌<◌, ◌≤◌, ◌≡◌, ◌≢◌, refl, ap, subst, ◌∙◌, ◌⊎◌, inl, inr, String, List, [], ◌∷◌,
  Outcome, ok, err, panic, true, false, arith, if◌then◌else◌, text_self, text_ne,
}
use mayastor_e2e.World.{World, Exchange, replied}
use mayastor_e2e.Models.{TestRun}
use mayastor_e2e.Connectors.Xray.{
  send_request, wants_retry, query_loop, send_xray_query, update_test_run,
}

-- The first outcome that ends the retries, or else the last outcome.
abbrev pub first_final : List (Outcome String) → Outcome String → Outcome String
first_final [] last = last
first_final (o ∷ os) last = if wants_retry o then first_final os o else o

attempts : (ℕ → Exchange) → ℕ → ℕ → List (Outcome String)
attempts x i zero = []
attempts x i (suc r) = send_request (x i) ∷ attempts x (suc i) r

query_loop_final :
    (r i : ℕ) (x : ℕ → Exchange) (last : Outcome String)
    → query_loop r i x last ≡ (if wants_retry last then first_final (attempts x i r) last else last)
unfolding query_loop attempts
query_loop_final zero i x last = ground arith
query_loop_final (suc r) i x last =
    ground (arith, query_loop_final r (suc i) x (send_request (x i)))

send_xray_query_lem :
    (w : World) (q : String)
    → let o = λ (i : ℕ). send_request (w.xray q i) in
      send_xray_query w q ≡ first_final (o 0 ∷ o 1 ∷ o 2 ∷ o 3 ∷ o 4 ∷ []) (ok "")
unfolding send_xray_query wants_retry attempts
send_xray_query_lem w q = query_loop_final 5 0 (w.xray q) (ok "")

-- An attempt that brings nothing: an empty text or an error.
abbrev pub IsNothing : Outcome String → Type 0
IsNothing o = (o ≡ ok "") ⊎ ((e : String) × (o ≡ err e))

-- An attempt that ends the retries: a text that is not empty, or a panic.
abbrev pub IsFinal : Outcome String → Type 0
IsFinal o = ((s : String) × (s ≢ "") × (o ≡ ok s)) ⊎ (o ≡ panic)

wants_retry-true : (o : Outcome String) → IsNothing o → wants_retry o ≡ true
unfolding wants_retry
wants_retry-true o (inl h) = rw h (text_self "")
wants_retry-true o (inr (e, h)) = rw h refl

wants_retry-false : (o : Outcome String) → IsFinal o → wants_retry o ≡ false
unfolding wants_retry
wants_retry-false o (inl (s, d, h)) = rw h (text_ne s "" d)
wants_retry-false o (inr h) = rw h refl

add_zero : (n : ℕ) → n + 0 ≡ n
add_zero n = omega arith

add_suc : (n m : ℕ) → n + suc m ≡ suc n + m
add_suc n m = omega arith

-- The loop ends at once where the last attempt ends the retries.
query_loop_done :
    (r i : ℕ) (x : ℕ → Exchange) (last : Outcome String)
    → wants_retry last ≡ false
    → query_loop r i x last ≡ last
unfolding query_loop
query_loop_done zero i x last h = refl
query_loop_done (suc r) i x last h = rw (query_loop, h) refl

query_loop_first :
    (k r i : ℕ) (x : ℕ → Exchange) (last : Outcome String)
    → k < r
    → wants_retry last ≡ true
    → ((j : ℕ) → j < k → IsNothing (send_request (x (i + j))))
    → IsFinal (send_request (x (i + k)))
    → query_loop r i x last ≡ send_request (x (i + k))
unfolding query_loop
query_loop_first k zero i x last lt again nothing final = absurd (omega arith)
query_loop_first zero (suc r) i x last lt again nothing final =
    let f = subst (λ (j : ℕ). IsFinal (send_request (x j))) (add_zero i) final in
    let done = query_loop_done r (suc i) x (send_request (x i)) (wants_retry-false _ f) in
    rw (query_loop, again, done, add_zero i) refl
query_loop_first (suc k) (suc r) i x last lt again nothing final =
    let n =
      subst (λ (j : ℕ). IsNothing (send_request (x j))) (add_zero i) (nothing 0 (omega arith)) in
    let later =
      query_loop_first k r (suc i) x (send_request (x i)) (omega arith) (wants_retry-true _ n)
        (λ j l.
          subst (λ (t : ℕ). IsNothing (send_request (x t))) (add_suc i j)
            (nothing (suc j) (omega arith)))
        (subst (λ (t : ℕ). IsFinal (send_request (x t))) (add_suc i k) final) in
    rw (query_loop, again, later, add_suc i k) refl

-- A query is sent until an attempt brings a text that is not empty or panics, at most five times: if
-- each of the first `k` attempts, for a `k` below five, brings an empty text or an error, and the next
-- does not, its outcome is that of the query; if each of the first five does, the outcome of the query
-- is that of the fifth.
pub send_xray_query_first :
    (w : World) (q : String)
    → ((k : ℕ)
        → k < 5
        → ((i : ℕ) → i < k → IsNothing (send_request (w.xray q i)))
        → IsFinal (send_request (w.xray q k))
        → send_xray_query w q ≡ send_request (w.xray q k))
      × (((i : ℕ) → i < 5 → IsNothing (send_request (w.xray q i)))
          → send_xray_query w q ≡ send_request (w.xray q 4))
unfolding send_xray_query
send_xray_query_first w q = (
  λ k lt nothing final.
      query_loop_first k 5 0 (w.xray q) (ok "") lt (wants_retry-true _ (inl refl))
        (λ j l.
          subst (λ (t : ℕ). IsNothing (send_request (w.xray q t))) (omega arith) (nothing j l))
        (subst (λ (t : ℕ). IsFinal (send_request (w.xray q t))) (omega arith) final)
      ∙ ap (λ (t : ℕ). send_request (w.xray q t)) (omega arith),
  λ nothing.
      send_xray_query_lem w q
      ∙ ground (
        arith,
        wants_retry-true _ (nothing 0 (omega arith)),
        wants_retry-true _ (nothing 1 (omega arith)),
        wants_retry-true _ (nothing 2 (omega arith)),
        wants_retry-true _ (nothing 3 (omega arith)),
        wants_retry-true _ (nothing 4 (omega arith)),
      ),
)

-- Xray authorises both times, and refuses the query with a status code of 300 or more.
pub record IsRefusal (x : Exchange) : Type 0 where
  pub first_body : String
  pub second_body : String
  pub code : ℕ
  pub body : String
  pub first_token : x.auth ≡ replied 200 first_body
  pub second_token : x.auth_again ≡ replied 200 second_body
  pub first_long : 2 ≤ len first_body
  pub second_long : 2 ≤ len second_body
  pub answered : x.answer ≡ replied code body
  pub is_error : 300 ≤ code

send_request_refused : (x : Exchange) → IsRefusal x → send_request x ≡ ok ""
unfolding send_request
send_request_refused x r = ground arith

send_xray_query_refused :
    (w : World) (q : String) → ((i : ℕ) → IsRefusal (w.xray q i)) → send_xray_query w q ≡ ok ""
unfolding wants_retry
send_xray_query_refused w q h =
    send_xray_query_lem w q
    ∙ ground (
      arith,
      send_request_refused _ (h 0),
      send_request_refused _ (h 1),
      send_request_refused _ (h 2),
      send_request_refused _ (h 3),
      send_request_refused _ (h 4),
    )

-- If Xray authorises every query and refuses each with a status code of 300 or more, UpdateTestRun
-- returns no error.
pub update_test_run_refused :
    (w : World) (run : TestRun)
    → ((q : String) (i : ℕ) → IsRefusal (w.xray q i))
    → update_test_run w run ≡ ok tt
unfolding update_test_run
update_test_run_refused w run h = simp (λ (q : String). send_xray_query_refused w q (h q))
