-- ===== src/Builders/Volumes.antt =====
-- VolumeBuilder (src/common/k8stest/util_volume.go).
use mayastor_e2e.Prelude.{String, List, [], Option, none, some, Outcome, if◌then◌else◌, ℤ, is_zero}
use mayastor_e2e.Builders.{Builder, complain, change, with_text, with_pointer, build_with}

-- corev1.VolumeSource, as far as the builder sets it. Each source replaces the others but for the
-- empty directory, which is set beside them.
pub data Source : Type 0 where
  no_source : Source
  host_path : String → Option String → Source
  secret config_map : String → ℤ → Source
  claim : String → Source

pub record Volume (V : Type 0) : Type 0 where
  pub name : String
  pub source : Source
  pub empty_dir : Option V

module _ {V : Type 0} where
  -- NewVolumeBuilder
  unfoldable pub new_volume_builder : Builder (Volume V)
  new_volume_builder = record {
    object = record { name = ""; source = no_source; empty_dir = none };
    errors = [];
  }

  unfoldable pub set_source : Source → Volume V → Volume V
  set_source s v = record v { source = s; empty_dir = none }

  -- WithName
  unfoldable pub with_volume_name : String → Builder (Volume V) → Builder (Volume V)
  with_volume_name s b =
      with_text "failed to build Volume object: missing Volume name" s (λ v. record v { name = s })
        b

  -- WithHostDirectory
  unfoldable pub with_host_directory : String → Builder (Volume V) → Builder (Volume V)
  with_host_directory path b =
      with_text "failed to build volume object: missing volume path" path
        (set_source (host_path path none)) b

  -- The check of the mode in WithSecret and WithConfigMap, which goes on after its complaint.
  unfoldable pub check_mode : ℤ → Builder (Volume V) → Builder (Volume V)
  check_mode mode b =
      if is_zero mode then complain "failed to build volume object: missing defaultmode" b else b

  -- WithSecret, with the name of the secret, if it is not nil.
  unfoldable pub with_secret : Option String → ℤ → Builder (Volume V) → Builder (Volume V)
  with_secret none mode b = complain "failed to build volume object: nil ConfigMap" b
  with_secret (some n) mode b =
      change (λ v. record (set_source (secret n mode) v) { name = n }) (check_mode mode b)

  -- WithConfigMap
  unfoldable pub with_config_map : Option String → ℤ → Builder (Volume V) → Builder (Volume V)
  with_config_map none mode b = complain "failed to build volume object: nil ConfigMap" b
  with_config_map (some n) mode b =
      change (λ v. record (set_source (config_map n mode) v) { name = n }) (check_mode mode b)

  -- WithHostPathAndType
  unfoldable pub with_host_path_and_type :
      String → Option String → Builder (Volume V) → Builder (Volume V)
  with_host_path_and_type path none b = complain "failed to build volume object: nil volume type" b
  with_host_path_and_type path (some t) b =
      with_text "failed to build volume object: missing volume path" path
        (set_source (host_path path (some t))) b

  -- WithPVCSource
  unfoldable pub with_pvc_source : String → Builder (Volume V) → Builder (Volume V)
  with_pvc_source name b =
      with_text "failed to build volume object: missing pvc name" name (set_source (claim name)) b

  -- WithEmptyDir
  unfoldable pub with_empty_dir : Option V → Builder (Volume V) → Builder (Volume V)
  with_empty_dir dir b =
      with_pointer "failed to build volume object: nil dir" dir
        (λ d v. record v { empty_dir = some d }) b

  -- Build
  unfoldable pub build_volume : (List String → String) → Builder (Volume V) → Outcome (Volume V)
  build_volume print b = build_with print b
