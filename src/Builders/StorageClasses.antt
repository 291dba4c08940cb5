-- ===== src/Builders/StorageClasses.antt =====
-- ScBuilder (src/common/k8stest/util_storageclass.go).
use mayastor_e2e.Prelude.{
  String, List, [], ◌∷◌, Option, none, some, Outcome, ok, err, panic, Bool, ◌&&◌, if◌then◌else◌,
  ◌==◌, concat, ℤ, is_zero,
}
use mayastor_e2e.GoMap.{lookup, insert}
use mayastor_e2e.Builders.{Builder, complain, change, with_text}

-- The parameters are a map that may be nil.
pub record StorageClass : Type 0 where
  pub name : String
  pub namespace : String
  pub generate_name : String
  pub annotations : List (String × String)
  pub parameters : Option (List (String × String))
  pub provisioner : String
  pub volume_binding_mode : Option String

abbrev pub entries : Option (List (String × String)) → List (String × String)
entries none = []
entries (some m) = m

-- `m[key]` at a map of texts.
abbrev pub text_at : String → List (String × String) → String
text_at key m = elim (lookup key m) [ none ↦ "" | some v ↦ v ]

-- A parameter is set, in a map that is made where there is none.
unfoldable pub set_parameter : String → String → StorageClass → StorageClass
set_parameter key value sc = record sc {
  parameters = some (insert key value (entries sc.parameters));
}

-- WithName, WithNamespace, WithGenerateName
unfoldable pub with_name : String → Builder StorageClass → Builder StorageClass
with_name s b =
    with_text "failed to build storageclass: missing storageclass name" s
      (λ sc. record sc { name = s }) b

unfoldable pub with_namespace : String → Builder StorageClass → Builder StorageClass
with_namespace s b =
    with_text "failed to build storageclass: missing storageclass namespace" s
      (λ sc. record sc { namespace = s }) b

unfoldable pub with_generate_name : String → Builder StorageClass → Builder StorageClass
with_generate_name s b = change (λ sc. record sc { generate_name = concat (s ∷ "-" ∷ []) }) b

-- WithAnnotations, which goes on after its complaint.
unfoldable pub with_annotations :
    List (String × String) → Builder StorageClass → Builder StorageClass
with_annotations [] b =
    change (λ sc. record sc { annotations = [] })
      (complain "failed to build storageclass: missing annotations" b)
with_annotations (a ∷ as_) b = change (λ sc. record sc { annotations = a ∷ as_ }) b

-- WithReplicas, WithIOTimeout: `decimal` is strconv.Itoa.
unfoldable pub with_replicas : (ℤ → String) → ℤ → Builder StorageClass → Builder StorageClass
with_replicas decimal n b =
    if is_zero n
    then complain "failed to build storageclass: missing storageclass replicas" b
    else change (set_parameter "repl" (decimal n)) b

unfoldable pub with_io_timeout : (ℤ → String) → ℤ → Builder StorageClass → Builder StorageClass
with_io_timeout decimal n b = change (set_parameter "ioTimeout" (decimal n)) b

-- WithFileSystemType, WithProtocol, WithLocal
unfoldable pub with_file_system_type : String → Builder StorageClass → Builder StorageClass
with_file_system_type t b = if t == "" then b else change (set_parameter "fsType" t) b

unfoldable pub with_protocol : String → Builder StorageClass → Builder StorageClass
with_protocol p b = change (set_parameter "protocol" p) b

unfoldable pub with_local : Bool → Builder StorageClass → Builder StorageClass
with_local l b = change (set_parameter "local" (if l then "true" else "false")) b

-- WithProvisioner, WithVolumeBindingMode
unfoldable pub with_provisioner : String → Builder StorageClass → Builder StorageClass
with_provisioner p b =
    with_text "failed to build storageclass: missing provisioner name" p
      (λ sc. record sc { provisioner = p }) b

unfoldable pub with_volume_binding_mode : String → Builder StorageClass → Builder StorageClass
with_volume_binding_mode m b =
    if m == "" then b else change (λ sc. record sc { volume_binding_mode = some m }) b

-- NewScBuilder, with the configured provisioner and number of replicas.
unfoldable pub new_sc_builder : (ℤ → String) → String → ℤ → Builder StorageClass
new_sc_builder decimal provisioner replicas = with_replicas decimal replicas (
    with_provisioner provisioner (record {
      object = record {
        name = "";
        namespace = "";
        generate_name = "";
        annotations = [];
        parameters = none;
        provisioner = "";
        volume_binding_mode = none;
      };
      errors = [];
    }))

-- Build: the time limit of NVMe-oF is set where it is missing. Without an error there is a map, or no
-- protocol in it.
unfoldable pub build : (List String → String) → Builder StorageClass → Outcome StorageClass
build print b = elim b.errors [
  | e ∷ es ↦ err (print (e ∷ es))
  | [] ↦ ok (
      if text_at "protocol" (entries b.object.parameters) == "nvmf"
        && text_at "ioTimeout" (entries b.object.parameters) == ""
      then set_parameter "ioTimeout" "30" b.object
      else b.object)
]

-- BuildAndCreate, where `create` gives the error of CreateSc.
unfoldable pub build_and_create :
    (List String → String) → (StorageClass → Option String) → Builder StorageClass → Option String
build_and_create print create b = elim (build print b) [
  | ok sc ↦ create sc
  | err e ↦ some e
  | panic ↦ none
]
