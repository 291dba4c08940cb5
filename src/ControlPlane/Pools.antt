-- ===== src/ControlPlane/Pools.antt =====
-- Pools of the control plane (src/common/controlplane/v1/msp_cp.go). The sizes are of the type uint64:
-- the difference of two of them wraps around at 2 ^ 64.
use mayastor_e2e.Prelude.{
  ℕ, ◌+◌, ◌-◌, String, List, [], ◌∷◌, Option, Outcome, ok, err, panic, concat, map, ◌>>=◌,
}
use Prim.Native.Nat.{◌%◌, ◌^◌}
use mayastor_e2e.Types.{MayastorPool}
use mayastor_e2e.ControlPlane.Plugin.{Plugin, unchecked, decoded}

pub record MspSpec : Type 0 where
  pub disks : List String
  pub id : String
  pub labels : List (String × String)
  pub node : String
  pub status : String

pub record MspState : Type 0 where
  pub capacity : ℕ
  pub disks : List String
  pub id : String
  pub node : String
  pub status : String
  pub used : ℕ

pub record MayastorCpPool : Type 0 where
  pub id : String
  pub spec : MspSpec
  pub state : MspState

-- `a - b` at the type uint64.
unfoldable pub minus_u64 : ℕ → ℕ → ℕ
minus_u64 a b = (a + 2 ^ 64 - b) % 2 ^ 64

-- cpMspToMsp
unfoldable pub cp_msp_to_msp : MayastorCpPool → MayastorPool
cp_msp_to_msp p = record {
  name = p.id;
  spec = record { node = p.spec.node; disks = p.spec.disks };
  status = record {
    capacity = p.state.capacity;
    used = p.state.used;
    disks = p.state.disks;
    spec = record { disks = p.spec.disks; node = p.spec.node };
    state = p.state.status;
    avail = minus_u64 p.state.capacity p.state.used;
    reason = "";
  };
}

module _ (json : String → Option MayastorCpPool) (plugin : Plugin) where
  -- GetMayastorCpPool
  unfoldable pub get_mayastor_cp_pool : String → Outcome MayastorCpPool
  get_mayastor_cp_pool name =
      decoded json (unchecked (plugin ("-ojson" ∷ "get" ∷ "pool" ∷ name ∷ [])))

  -- GetMsPool
  unfoldable pub get_ms_pool : String → Outcome MayastorPool
  get_ms_pool name = elim (get_mayastor_cp_pool name) [
    | ok p ↦ ok (cp_msp_to_msp p)
    | err e ↦ err (concat ("GetMsPool: " ∷ e ∷ []))
    | panic ↦ panic
  ]

module _ (json : String → Option (List MayastorCpPool)) (plugin : Plugin) where
  -- ListMayastorCpPools
  unfoldable pub list_mayastor_cp_pools : Outcome (List MayastorCpPool)
  list_mayastor_cp_pools = decoded json (unchecked (plugin ("-ojson" ∷ "get" ∷ "pools" ∷ [])))

  -- ListMsPools
  unfoldable pub list_ms_pools : Outcome (List MayastorPool)
  list_ms_pools = do l ← list_mayastor_cp_pools; ok (map cp_msp_to_msp l)
