-- ===== src/Grpc/Gather.antt =====
-- What the loops over the nodes (src/common/mayastorclient: ListPools, ListNexuses, ListReplicas,
-- ListNvmeControllers, FindReplicas, FindNexus) gather, whichever nodes answer.
use mayastor_e2e.Prelude.{
  ◌≡◌, refl, String, List, [], ◌∷◌, ◌++◌, Option, none, some, arith, or_else, Option-cases, inl,
  inr, if_cases, eq_iff, text_differs, ap, ◌≢◌, ◌==◌, All,
}
use mathlib.Core.List.{append_assoc, append-nil}
use mayastor_e2e.Grpc.{Error, nice_error}
use mayastor_e2e.Grpc.Nodes.{
  MayastorReplica, MayastorNexus, Answer, value, fault, Node, accumulate, gather, list_replica,
  list_nexus, list_replicas, list_nexuses, find_replicas, with_uuid, nexus_with, find_nexus_from,
  find_nexus,
}

module _ {ℓ κ} {R : Type ℓ} {A : Type κ} where
  -- What the nodes that answer have, in the order of the nodes.
  unfoldable pub reached : (Node R → Answer (List A)) → List (Node R) → List A
  reached list [] = []
  reached list (n ∷ nodes) = elim (list n) [
    | value l ↦ l ++ reached list nodes
    | fault e ↦ reached list nodes
  ]

  -- The errors of the nodes that do not.
  unfoldable pub faults : (Node R → Answer (List A)) → List (Node R) → List Error
  faults list [] = []
  faults list (n ∷ nodes) = elim (list n) [
    | value l ↦ faults list nodes
    | fault e ↦ e ∷ faults list nodes
  ]

-- The errors of a list, accumulated to what there is.
unfoldable pub accumulated : (Error → String) → Option Error → List Error → Option Error
accumulated print acc [] = acc
accumulated print acc (e ∷ es) = accumulated print (some (accumulate print acc e)) es

pub accumulated-some :
    (print : Error → String) (a : Error) (es : List Error)
    → (b : Error) × (accumulated print (some a) es ≡ some b)
unfolding accumulated
accumulated-some print a [] = (a, refl)
accumulated-some print a (e ∷ es) = accumulated-some print (accumulate print (some a) e) es

module _ {ℓ κ} {R : Type ℓ} {A : Type κ} where
  pub gather_all :
      (print : Error → String) (list : Node R → Answer (List A)) (keep : List A → List A)
      (nodes : List (Node R)) (infos : List A) (acc : Option Error)
      → ((xs ys : List A) → keep (xs ++ ys) ≡ keep xs ++ keep ys)
      → keep [] ≡ []
      → gather print list keep nodes infos acc
        ≡ (infos ++ keep (reached list nodes), accumulated print acc (faults list nodes))
  unfolding gather reached faults accumulated
  gather_all print list keep [] infos acc split nil = rw (nil, append-nil infos) refl
  gather_all print list keep (n ∷ nodes) infos acc split nil =
      go (list n) refl (λ i a. gather_all print list keep nodes i a split nil)
    where
      go :
          (o : Answer (List A))
          → list n ≡ o
          → ((i : List A) (a : Option Error)
              → gather print list keep nodes i a
                ≡ (i ++ keep (reached list nodes), accumulated print a (faults list nodes)))
          → gather print list keep (n ∷ nodes) infos acc ≡ (
            infos ++ keep (reached list (n ∷ nodes)),
            accumulated print acc (faults list (n ∷ nodes)),
          )
      go (value l) e ih =
          rw
            (
              gather,
              reached,
              faults,
              e,
              ih (infos ++ keep l) acc,
              split l (reached list nodes),
              append_assoc infos (keep l) (keep (reached list nodes)),
            )
            refl
      go (fault f) e ih =
          rw (gather, reached, faults, e, ih infos (some (accumulate print acc f))) refl

-- Two lists of replicas, filtered one after the other.
with_uuid-append :
    (uuid : String) (xs ys : List MayastorReplica)
    → with_uuid uuid (xs ++ ys) ≡ with_uuid uuid xs ++ with_uuid uuid ys
unfolding with_uuid
with_uuid-append uuid [] ys = refl
with_uuid-append uuid (x ∷ xs) ys = ground (arith, with_uuid-append uuid xs ys)

-- ListReplicas gives the replicas of the nodes that answer, in the order of the nodes, and the errors
-- of the others joined in that order: it goes on after a node that does not answer.
pub list_replicas_lem :
    (print : Error → String) (nodes : List (Node (List MayastorReplica)))
    → list_replicas print nodes
      ≡ (reached list_replica nodes, accumulated print none (faults list_replica nodes))
unfolding list_replicas
list_replicas_lem print nodes =
    gather_all print list_replica (λ l. l) nodes [] none (λ xs ys. refl) refl

-- The replicas of a list with a uuid, in its order, as a relation between the two lists.
pub data Selects (uuid : String) : List MayastorReplica → List MayastorReplica → Type 0 where
  ended : Selects uuid [] []
  kept :
      (r : MayastorReplica) (rs found : List MayastorReplica)
      → r.uuid ≡ uuid
      → Selects uuid rs found
      → Selects uuid (r ∷ rs) (r ∷ found)
  passed :
      (r : MayastorReplica) (rs found : List MayastorReplica)
      → r.uuid ≢ uuid
      → Selects uuid rs found
      → Selects uuid (r ∷ rs) found

with_uuid-Selects :
    (uuid : String) (rs : List MayastorReplica) → Selects uuid rs (with_uuid uuid rs)
unfolding with_uuid
with_uuid-Selects uuid [] = ended
with_uuid-Selects uuid (r ∷ rs) =
    if_cases (λ (l : List MayastorReplica). Selects uuid (r ∷ rs) l) (r.uuid == uuid)
      (r ∷ with_uuid uuid rs) (with_uuid uuid rs)
      (λ e. kept r rs (with_uuid uuid rs) ((eq_iff r.uuid uuid).0 e) (with_uuid-Selects uuid rs))
      (λ e.
        passed r rs (with_uuid uuid rs) (text_differs r.uuid uuid e) (with_uuid-Selects uuid rs))

-- ListReplicas gives the replicas of the nodes that answer, in the order of the nodes, and the errors
-- of the others joined in that order. FindReplicas finds, for every uuid, exactly those of these
-- replicas whose uuid it is, in the same order, and returns the same error.
pub find_replicas-list_replicas :
    (print : Error → String) (uuid : String) (nodes : List (Node (List MayastorReplica)))
    → (list_replicas print nodes
        ≡ (reached list_replica nodes, accumulated print none (faults list_replica nodes)))
      × Selects uuid (reached list_replica nodes) (find_replicas print uuid nodes).0
      × ((find_replicas print uuid nodes).1 ≡ accumulated print none (faults list_replica nodes))
unfolding find_replicas with_uuid
find_replicas-list_replicas print uuid nodes =
    let q =
      gather_all print list_replica (with_uuid uuid) nodes [] none (with_uuid-append uuid) refl in
    (
      list_replicas_lem print nodes,
      rw q (with_uuid-Selects uuid (reached list_replica nodes)),
      rw q refl,
    )

list_nexuses_lem :
    (print : Error → String) (nodes : List (Node (List MayastorNexus)))
    → list_nexuses print nodes
      ≡ (reached list_nexus nodes, accumulated print none (faults list_nexus nodes))
unfolding list_nexuses
list_nexuses_lem print nodes =
    gather_all print list_nexus (λ l. l) nodes [] none (λ xs ys. refl) refl

nexus_with-append :
    (uuid : String) (xs ys : List MayastorNexus)
    → nexus_with uuid (xs ++ ys) ≡ or_else (nexus_with uuid xs) (nexus_with uuid ys)
unfolding nexus_with
nexus_with-append uuid [] ys = refl
nexus_with-append uuid (x ∷ xs) ys = ground (arith, nexus_with-append uuid xs ys)

find_nexus_from_found :
    (print : Error → String) (uuid : String) (nodes : List (Node (List MayastorNexus)))
    (acc : Option Error)
    → (find_nexus_from print uuid nodes acc).0 ≡ nexus_with uuid (reached list_nexus nodes)
unfolding find_nexus_from reached nexus_with
find_nexus_from_found print uuid [] acc = refl
find_nexus_from_found print uuid (n ∷ nodes) acc =
    go (list_nexus n) refl acc (find_nexus_from_found print uuid nodes)
  where
    go :
        (o : Answer (List MayastorNexus))
        → list_nexus n ≡ o
        → (a : Option Error)
        → ((b : Option Error)
            → (find_nexus_from print uuid nodes b).0 ≡ nexus_with uuid (reached list_nexus nodes))
        → (find_nexus_from print uuid (n ∷ nodes) a).0
          ≡ nexus_with uuid (reached list_nexus (n ∷ nodes))
    go (value l) e a ih = elim (Option-cases (nexus_with uuid l)) [
      | inl q ↦ ground (arith, nexus_with-append uuid l (reached list_nexus nodes), ih a)
      | inr (x, q) ↦ ground (arith, nexus_with-append uuid l (reached list_nexus nodes))
    ]
    go (fault f) e none ih = rw (find_nexus_from, reached, e) (ih (some f))
    go (fault f) e (some a) ih =
        rw (find_nexus_from, reached, e) (ih (some (accumulate print (some a) (nice_error f))))

-- The first nexus of a list with a uuid, or that it has none.
abbrev pub IsFirst : String → List MayastorNexus → Option MayastorNexus → Type 0
IsFirst uuid l none = All (λ (n : MayastorNexus). n.uuid ≢ uuid) l
IsFirst uuid l (some x) =
    (before : List MayastorNexus) × (after : List MayastorNexus) × (l ≡ before ++ (x ∷ after))
    × All (λ (n : MayastorNexus). n.uuid ≢ uuid) before
    × (x.uuid ≡ uuid)

nexus_with-IsFirst : (uuid : String) (l : List MayastorNexus) → IsFirst uuid l (nexus_with uuid l)
unfolding nexus_with
nexus_with-IsFirst uuid [] = tt
nexus_with-IsFirst uuid (n ∷ ns) =
    if_cases (λ (o : Option MayastorNexus). IsFirst uuid (n ∷ ns) o) (n.uuid == uuid) (some n)
      (nexus_with uuid ns) (λ e. ([], ns, refl, tt, (eq_iff n.uuid uuid).0 e))
      (λ e. later (text_differs n.uuid uuid e) (nexus_with uuid ns) (nexus_with-IsFirst uuid ns))
  where
    later : n.uuid ≢ uuid → (o : Option MayastorNexus) → IsFirst uuid ns o → IsFirst uuid (n ∷ ns) o
    later d none h = (d, h)
    later d (some x) (before, after, q, h, u) = (n ∷ before, after, ap (λ l. n ∷ l) q, (d, h), u)

-- ListNexuses gives the nexuses of the nodes that answer, in the order of the nodes. FindNexus finds,
-- for every uuid, the first of these whose uuid it is, and nothing only where it is the uuid of none.
pub find_nexus-list_nexuses :
    (print : Error → String) (uuid : String) (nodes : List (Node (List MayastorNexus)))
    → ((list_nexuses print nodes).0 ≡ reached list_nexus nodes)
      × IsFirst uuid (reached list_nexus nodes) (find_nexus print uuid nodes).0
unfolding find_nexus
find_nexus-list_nexuses print uuid nodes = (
  rw (list_nexuses_lem print nodes) refl,
  rw (find_nexus_from_found print uuid nodes none)
      (nexus_with-IsFirst uuid (reached list_nexus nodes)),
)
