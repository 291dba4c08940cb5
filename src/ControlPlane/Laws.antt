-- ===== src/ControlPlane/Laws.antt =====
-- What the control plane (src/common/controlplane) gives its callers: bounds of the sizes of a pool,
-- and which answers of the plugin make a volume, an error or a panic.
use mayastor_e2e.Prelude.{
  ℕ, zero, suc, ◌+◌, ◌-◌, ◌≤◌, ◌<◌, ◌≡◌, refl, ◌≢◌, String, List, [], ◌∷◌, ◌++◌, map, Option, some,
  Outcome, ok, panic, true, arith, if◌then◌else◌, ℤ, pos, length, Bool-cases, text_eq, text_ne,
}
use Prim.Native.Nat.{◌^◌}
use mayastor_e2e.Types.{Replica}
use mayastor_e2e.ControlPlane.{State, is_supported, make_control_plane, ask}
use mayastor_e2e.ControlPlane.Plugin.{Plugin}
use mayastor_e2e.ControlPlane.Pools.{MayastorCpPool, minus_u64, cp_msp_to_msp}
use mayastor_e2e.ControlPlane.Volumes.{
  MayastorCpVolume, MayastorCpReplica, Fetch, no_response, broken_off, fetch_replica,
  get_mayastor_cp_replica,
}
use mayastor_e2e.ControlPlane.Volumes.Queries.{
  get_mayastor_cp_volume, msv_of, get_msv, get_msv_replicas, fill_nodes, empty_slots, make_slots,
  get_msv_nodes,
}

-- For a pool whose capacity and use are below 2 ^ 64, what is available is the capacity less the use
-- where no more is used than there is; otherwise it is that difference plus 2 ^ 64.
pub cp_msp_to_msp-avail :
    (p : MayastorCpPool)
    → p.state.capacity < 2 ^ 64
    → p.state.used < 2 ^ 64
    → ((p.state.used ≤ p.state.capacity
          → (cp_msp_to_msp p).status.avail + p.state.used ≡ p.state.capacity)
        × (p.state.capacity < p.state.used
            → (cp_msp_to_msp p).status.avail + p.state.used ≡ p.state.capacity + 2 ^ 64))
unfolding cp_msp_to_msp minus_u64
cp_msp_to_msp-avail p c u = (λ h. omega arith, λ h. omega arith)

fetch_replica_skips :
    (ts : List String) (t : String) (rest : List Fetch)
    → fetch_replica (map broken_off ts ++ (no_response ∷ rest)) t ≡ panic
unfolding fetch_replica
fetch_replica_skips [] t rest = refl
fetch_replica_skips (x ∷ ts) t rest = fetch_replica_skips ts x rest

-- Reading a replica ends in a panic where an address gives no response and those before it have given
-- a part of a body, whatever the addresses after it would answer.
pub get_mayastor_cp_replica_unreachable :
    (json : String → Outcome MayastorCpReplica) (ts : List String) (rest : List Fetch)
    → get_mayastor_cp_replica json (map broken_off ts ++ (no_response ∷ rest)) ≡ panic
unfolding get_mayastor_cp_replica fetch_replica
get_mayastor_cp_replica_unreachable json [] rest = refl
get_mayastor_cp_replica_unreachable json (b ∷ ts) rest = rw (fetch_replica_skips ts b rest) refl

-- The nodes of the replicas, into as many texts as the volume counts.
fill_nodes_short :
    (rs : List Replica) (n : ℕ) → n < length rs → fill_nodes rs (empty_slots n) ≡ panic
unfolding fill_nodes empty_slots
fill_nodes_short [] n lt = absurd (omega arith)
fill_nodes_short (r ∷ rs) zero lt = refl
fill_nodes_short (r ∷ rs) (suc n) lt = rw (fill_nodes_short rs n (omega arith)) refl

abbrev pub replica_nodes : List Replica → List String
replica_nodes [] = []
replica_nodes (r ∷ rs) = r.node ∷ replica_nodes rs

sub_zero : (n : ℕ) → n - 0 ≡ n
sub_zero n = omega arith

sub_suc : (n m : ℕ) → suc n - suc m ≡ n - m
sub_suc n m = omega arith

fill_nodes_fits :
    (rs : List Replica) (n : ℕ)
    → length rs ≤ n
    → fill_nodes rs (empty_slots n) ≡ ok (replica_nodes rs ++ empty_slots (n - length rs))
unfolding fill_nodes empty_slots
fill_nodes_fits [] n le = rw (sub_zero n) refl
fill_nodes_fits (r ∷ rs) zero le = absurd (omega arith)
fill_nodes_fits (r ∷ rs) (suc n) le =
    rw (fill_nodes, empty_slots, fill_nodes_fits rs n (omega arith), sub_suc n (length rs)) refl

module _ (json : String → Option MayastorCpVolume) (get : String → Outcome MayastorCpReplica) where
  -- GetMsvNodes, where the plugin gives the volume and GetMsvReplicas gives its replicas: it panics where
  -- there are more of them than the volume's count, and otherwise it gives the node of the target and
  -- the nodes of the replicas, filled up with empty names to the count.
  pub get_msv_nodes_lem :
      (print_state : MayastorCpVolume → String) (print_count : ℤ → String) (first second : Plugin)
      (uuid : String) (v : MayastorCpVolume) (n : ℕ) (rs : List Replica)
      → get_mayastor_cp_volume json first uuid ≡ ok v
      → v.spec.num_replicas ≡ pos n
      → get_msv_replicas json get print_state print_count second uuid ≡ ok rs
      → ((n < length rs → get_msv_nodes json get print_state print_count first second uuid ≡ panic)
          × (length rs ≤ n
              → get_msv_nodes json get print_state print_count first second uuid
                ≡ ok (v.state.target.node, some (replica_nodes rs ++ empty_slots (n - length rs)))))
  unfolding get_msv_nodes make_slots
  get_msv_nodes_lem print_state print_count first second uuid v n rs answer count replicas = (
    λ lt. rw (get_msv_nodes, answer, make_slots, count, replicas, fill_nodes_short rs n lt) refl,
    λ le. rw (get_msv_nodes, answer, make_slots, count, replicas, fill_nodes_fits rs n le) refl,
  )

  -- GetMsvNodes panics at a volume that is still being created: where both answers of the plugin are
  -- that volume, with a uuid, the state pending and a count that is not negative.
  pub get_msv_nodes_pending :
      (print_state : MayastorCpVolume → String) (print_count : ℤ → String) (first second : Plugin)
      (uuid : String) (v : MayastorCpVolume) (n : ℕ)
      → get_mayastor_cp_volume json first uuid ≡ ok v
      → get_mayastor_cp_volume json second uuid ≡ ok v
      → v.spec.uuid ≢ ""
      → v.state.status ≡ "pending"
      → v.spec.num_replicas ≡ pos n
      → get_msv_nodes json get print_state print_count first second uuid ≡ panic
  unfolding get_msv_nodes get_msv_replicas get_msv msv_of make_slots
  get_msv_nodes_pending print_state print_count first second uuid v n a b named pending count =
      rw
        (
          get_msv_nodes,
          a,
          make_slots,
          count,
          get_msv_replicas,
          get_msv,
          b,
          msv_of,
          text_ne v.spec.uuid "" named,
          text_eq v.state.status "pending" pending,
        )
        refl

-- The sync.Once has not run, or it has made what the version asks for.
abbrev pub IsMade : String → State → Type 0
IsMade version s = s.done ≡ true → s.made ≡ is_supported version

-- Every call through controlplane.go, first or later, answers what the method answers at the addresses
-- that are set, where the version has a control plane, and panics where it has none, given that
-- the calls before it were made with the same version; and so for the calls after it.
pub ask_lem {ℓ} :
    {A : Type ℓ} (version : String) (method : List String → Outcome A) (s : State)
    → IsMade version s
    → (((ask version method s).0
          ≡ (if is_supported version then method s.node_ip_addresses else panic))
        × IsMade version (ask version method s).1)
unfolding ask make_control_plane
ask_lem version method s made = ground (arith, made, Bool-cases s.done)
