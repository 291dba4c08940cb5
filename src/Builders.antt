-- ===== src/Builders.antt =====
-- The builders of Kubernetes objects (src/common/k8stest/util_container.go, util_volume.go,
-- util_podtemplatespec.go, util_deploy.go, util_storageclass.go). A builder is its object with the errors
-- so far. Values of the API's types that the builders only pass on are of a type `V`, which is a
-- parameter, and a nil slice, map or pointer is `none`.
pub mod Containers
pub mod Volumes
pub mod PodTemplates
pub mod StorageClasses
pub mod Laws
use mayastor_e2e.Prelude.{
  String, List, [], ◌∷◌, ◌++◌, Option, none, some, Outcome, ok, err, Bool, if◌then◌else◌, ◌==◌,
}
use mayastor_e2e.GoMap.{insert}

pub record Builder {ℓ} (A : Type ℓ) : Type ℓ where
  pub object : A
  pub errors : List String

module _ {ℓ} {A : Type ℓ} where
  -- `b.errs = append(b.errs, errors.New(e)); return b`
  unfoldable pub complain : String → Builder A → Builder A
  complain e b = record b { errors = b.errors ++ (e ∷ []) }

  -- A change of the object.
  unfoldable pub change : (A → A) → Builder A → Builder A
  change f b = record b { object = f b.object }

  -- `if len(s) == 0 { complain }`, or else the change.
  unfoldable pub with_text : String → String → (A → A) → Builder A → Builder A
  with_text e s f b = if s == "" then complain e b else change f b

  -- `if p == nil { complain }`, or else the change.
  unfoldable pub with_pointer {κ} :
      {P : Type κ} → String → Option P → (P → A → A) → Builder A → Builder A
  with_pointer e none f b = complain e b
  with_pointer e (some p) f b = change (f p) b

  -- A slice that must be neither nil nor empty.
  unfoldable pub with_slice {κ} :
      {P : Type κ}
      → (nil missing : String) → Option (List P)
      → (List P → A → A)
      → Builder A
      → Builder A
  with_slice nil missing none f b = complain nil b
  with_slice nil missing (some []) f b = complain missing b
  with_slice nil missing (some (p ∷ ps)) f b = change (f (p ∷ ps)) b

  -- A map that must not be empty.
  unfoldable pub with_map {κ} :
      {P : Type κ}
      → String
      → List (String × P)
      → (List (String × P) → A → A)
      → Builder A
      → Builder A
  with_map e [] f b = complain e b
  with_map e (p ∷ ps) f b = change (f (p ∷ ps)) b

  -- Build, where `print` is what is printed of the errors.
  unfoldable pub build_with : (List String → String) → Builder A → Outcome A
  build_with print b = elim b.errors [ [] ↦ ok b.object | e ∷ es ↦ err (print (e ∷ es)) ]

-- `for key, value := range from { to[key] = value }`
unfoldable pub merge {ℓ} : {P : Type ℓ} → List (String × P) → List (String × P) → List (String × P)
merge [] to = to
merge ((k, v) ∷ from) to = merge from (insert k v to)
