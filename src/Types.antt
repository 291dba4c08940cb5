-- ===== src/Types.antt =====
-- The data that the control plane and the tests share (src/common/types.go). Numbers of the type
-- uint64 are natural numbers below 2 ^ 64.
mod Errors
unfoldable pub use Errors.{ErrorAccumulator, accumulate, get_error}
pub use Errors.{get_error-none, accumulate_empty}
use mayastor_e2e.Prelude.{ℕ, zero, suc, String, List, Bool, ℤ}

-- VolumeType and its String.
pub data VolumeType : Type 0 where
  vol_file_system vol_raw_block vol_type_none : VolumeType

unfoldable pub volume_type_text : VolumeType → String
volume_type_text vol_file_system = "FileSystem"
volume_type_text vol_raw_block = "RawBlock"
volume_type_text vol_type_none = "Unknown"

pub record MayastorVolumeSpec : Type 0 where
  pub protocol : String
  pub replica_count : ℤ
  pub required_bytes : ℤ

pub record NexusChild : Type 0 where
  pub state : String
  pub uri : String

pub record Nexus : Type 0 where
  pub children : List NexusChild
  pub device_uri : String
  pub node : String
  pub state : String
  pub uuid : String

pub record Replica : Type 0 where
  pub node : String
  pub offline : Bool
  pub pool : String
  pub uri : String

pub record MayastorVolumeStatus : Type 0 where
  pub nexus : Nexus
  pub reason : String
  pub replicas : List Replica
  pub size : ℤ
  pub state : String

pub record MayastorVolume : Type 0 where
  pub name : String
  pub spec : MayastorVolumeSpec
  pub status : MayastorVolumeStatus

pub record MayastorNodeSpec : Type 0 where
  pub grpc_endpoint : String
  pub id : String

pub record MayastorNodeState : Type 0 where
  pub grpc_endpoint : String
  pub id : String
  pub status : String

pub record MayastorNode : Type 0 where
  pub name : String
  pub spec : MayastorNodeSpec
  pub state : MayastorNodeState

pub record MayastorPoolSpec : Type 0 where
  pub disks : List String
  pub node : String

pub record MayastorPoolStatus : Type 0 where
  pub avail : ℕ
  pub capacity : ℕ
  pub disks : List String
  pub reason : String
  pub spec : MayastorPoolSpec
  pub state : String
  pub used : ℕ

pub record MayastorPool : Type 0 where
  pub name : String
  pub spec : MayastorPoolSpec
  pub status : MayastorPoolStatus
