-- ===== src/ControlPlane/Volumes.antt =====
-- Volumes and their replicas in the control plane (src/common/controlplane/v1/msv_cp.go and
-- replica_cp.go). What a node's REST server answers is a parameter.
pub mod Queries
use mayastor_e2e.Prelude.{
  ℕ, zero, suc, ◌+◌, String, ◌==◌, ◌&&◌, List, [], ◌∷◌, ◌++◌, Option, none, some, Outcome, ok, err,
  panic, Bool, true, false, not, concat, map, if◌then◌else◌, eqb, leb, ℤ, below_one, ◌>>=◌,
}
use Prim.Native.String
use Prim.Native.Char.{code}
use mayastor_e2e.Types.{MayastorVolume, NexusChild, Replica}

pub record Children : Type 0 where
  pub state : String
  pub uri : String

pub record StateTarget : Type 0 where
  pub children : List Children
  pub device_uri : String
  pub node : String
  pub rebuilds : ℤ
  pub protocol : String
  pub size : ℤ
  pub state : String
  pub uuid : String

pub record ReplicaTopology : Type 0 where
  pub node : String
  pub pool : String
  pub state : String

-- The map of the replicas by uuid is the list of its entries, in the order in which `range` visits them.
pub record MsvState : Type 0 where
  pub target : StateTarget
  pub size : ℤ
  pub status : String
  pub uuid : String
  pub replica_topology : List (String × ReplicaTopology)

pub record SpecTarget : Type 0 where
  pub protocol : String
  pub node : String

-- The topology and the policy of a volume are decoded, and then not read.
pub record MsvSpec : Type 0 where
  pub num_replicas : ℤ
  pub size : ℤ
  pub status : String
  pub target : SpecTarget
  pub uuid : String

pub record MayastorCpVolume : Type 0 where
  pub spec : MsvSpec
  pub state : MsvState

pub record MayastorCpReplica : Type 0 where
  pub node : String
  pub pool : String
  pub share : String
  pub size : ℤ
  pub state : String
  pub thin : Bool
  pub uri : String
  pub uuid : String

-- What comes of a GET request to one address: no request or no response, a body that ends in an
-- error with what was read of it, or the body.
pub data Fetch : Type 0 where
  no_request no_response : Fetch
  broken_off whole : String → Fetch

-- The loop of getMayastorCpReplica over the addresses, with what was read last: the header of a nil
-- request, and the body of a nil response, are nil dereferences.
unfoldable pub fetch_replica : List Fetch → String → Outcome String
fetch_replica [] read = ok read
fetch_replica (no_request ∷ fs) read = panic
fetch_replica (no_response ∷ fs) read = panic
fetch_replica (broken_off t ∷ fs) read = fetch_replica fs t
fetch_replica (whole t ∷ fs) read = ok t

-- getMayastorCpReplica. The loop's errors are variables of its body, so the error tested after it is nil.
unfoldable pub get_mayastor_cp_replica :
    (String → Outcome MayastorCpReplica) → List Fetch → Outcome MayastorCpReplica
get_mayastor_cp_replica json [] = err "mayastor nodes not found"
get_mayastor_cp_replica json (f ∷ fs) = do t ← fetch_replica (f ∷ fs) ""; json t

-- `unicode.ToLower`, for the letters that it makes ASCII letters of: A to Z, and the two others.
unfoldable pub lower : ℕ → ℕ
lower c =
    if leb b'A' c && leb c b'Z'
    then c + 32
    else if eqb c 0x130
    then b'i'
    else if eqb c 0x212a
    then b'k'
    else c

-- `strings.ToLower(s) == t`, for a text `t` of ASCII letters.
unfoldable pub lower_is : String → String → Bool
lower_is String.[] String.[] = true
lower_is String.[] (String.◌∷◌ d t) = false
lower_is (String.◌∷◌ c s) String.[] = false
lower_is (String.◌∷◌ c s) (String.◌∷◌ d t) = eqb (lower (code c)) (code d) && lower_is s t

abbrev pub no_volume : MayastorVolume
no_volume = record {
  name = "";
  spec = record { protocol = ""; replica_count = ℤ.pos 0; required_bytes = ℤ.pos 0 };
  status = record {
    nexus = record { children = []; device_uri = ""; node = ""; state = ""; uuid = "" };
    reason = "";
    replicas = [];
    size = ℤ.pos 0;
    state = "";
  };
}

-- The loop of cpVolumeToMsv over the children of the target.
unfoldable pub nexus_children : List Children → List NexusChild
nexus_children [] = []
nexus_children (c ∷ cs) = record { state = c.state; uri = c.uri } ∷ nexus_children cs

-- The replica that cpVolumeToMsv appends.
unfoldable pub replica_of : MayastorCpReplica → Replica
replica_of r = record {
  uri = r.uri;
  offline = not (lower_is r.state "online");
  node = r.node;
  pool = r.pool;
}

-- The loop of cpVolumeToMsv over the replicas: `none` where it returns early.
unfoldable pub replicas_of :
    (String → Outcome MayastorCpReplica)
    → List (String × ReplicaTopology)
    → Outcome (Option (List Replica))
replicas_of get [] = ok (some [])
replicas_of get ((uuid, t) ∷ rest) =
    let others = replicas_of get rest in
    elim (get uuid) [
      | panic ↦ panic
      | err e ↦ ok none
      | ok r ↦ elim others [
        | panic ↦ panic
        | err e ↦ err e
        | ok l ↦ elim l [ none ↦ ok none | some rs ↦ ok (some (replica_of r ∷ rs)) ]
      ]
    ]

-- The volume that cpVolumeToMsv makes, with its replicas. `int(cpMsv.Spec.Size)` has 64 bits, as an
-- int64 does.
unfoldable pub volume_with : MayastorCpVolume → List Replica → MayastorVolume
volume_with v replicas = record {
  name = v.spec.uuid;
  spec = record {
    protocol = v.spec.target.protocol;
    replica_count = v.spec.num_replicas;
    required_bytes = v.spec.size;
  };
  status = record {
    nexus = record {
      children = nexus_children v.state.target.children;
      device_uri = v.state.target.device_uri;
      node = v.state.target.node;
      state = v.state.target.state;
      uuid = v.state.target.uuid;
    };
    reason = "";
    replicas = replicas;
    size = v.state.size;
    state = v.state.status;
  };
}

-- cpVolumeToMsv, where `get` is getMayastorCpReplica of a uuid: the empty volume where the reading of
-- a replica fails.
unfoldable pub cp_volume_to_msv :
    (String → Outcome MayastorCpReplica) → MayastorCpVolume → Outcome MayastorVolume
cp_volume_to_msv get v = elim (replicas_of get v.state.replica_topology) [
  | panic ↦ panic
  | err e ↦ err e
  | ok l ↦ elim l [ none ↦ ok no_volume | some rs ↦ ok (volume_with v rs) ]
]
