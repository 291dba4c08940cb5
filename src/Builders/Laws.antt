-- ===== src/Builders/Laws.antt =====
-- When the builders (src/common/k8stest/util_container.go, util_podtemplatespec.go,
-- util_storageclass.go) build, for every sequence of calls.
use mayastor_e2e.Prelude.{
  ◌≡◌, refl, sym, ◌∙◌, String, ◌==◌, List, [], ◌∷◌, ◌++◌, Option, none, some, Outcome, ok, err,
  Bool, true, false, ◌&&◌, arith, if◌then◌else◌, Bool-cases, eq_iff,
}
use mayastor_e2e.GoMap.{lookup-insert}
use mayastor_e2e.Builders.{
  Builder, complain, change, with_text, with_pointer, with_slice, build_with,
}
use mayastor_e2e.Builders.Containers.{
  Container, ContainerCall, call_container, set_envs, build_container, new_container_builder,
}
use mayastor_e2e.Builders.StorageClasses.{StorageClass, entries, text_at, set_parameter, build}

-- What each call is given: no argument that the method complains of.
unfoldable pub is_given : String → Bool
is_given s = if s == "" then false else true

abbrev pub is_there {ℓ} : {A : Type ℓ} → Option A → Bool
is_there none = false
is_there (some a) = true

abbrev pub is_full {ℓ} : {A : Type ℓ} → Option (List A) → Bool
is_full none = false
is_full (some []) = false
is_full (some (a ∷ l)) = true

module _ {V : Type 0} where
  unfoldable pub is_valid : ContainerCall V → Bool
  is_valid (ContainerCall.with_name s) = is_given s
  is_valid (ContainerCall.with_image s) = is_given s
  is_valid (ContainerCall.with_image_pull_policy s) = is_given s
  is_valid (ContainerCall.with_command_new l) = is_full l
  is_valid (ContainerCall.with_arguments_new l) = is_full l
  is_valid (ContainerCall.with_volume_mounts_new l) = is_full l
  is_valid (ContainerCall.with_volume_devices l) = is_full l
  is_valid (ContainerCall.with_ports_new l) = is_full l
  is_valid (ContainerCall.with_envs_new l) = is_full l
  is_valid (ContainerCall.with_envs l) = is_full l
  is_valid (ContainerCall.with_privileged_security_context p) = is_there p
  is_valid (ContainerCall.with_resources p) = is_there p
  is_valid (ContainerCall.with_liveness_probe p) = is_there p
  is_valid (ContainerCall.with_life_cycle p) = is_there p
  is_valid (ContainerCall.with_resources_by_value v) = true

  -- The calls one after another.
  unfoldable pub call_all : List (ContainerCall V) → Builder (Container V) → Builder (Container V)
  call_all [] b = b
  call_all (c ∷ cs) b = call_all cs (call_container c b)

abbrev pub is_nil {ℓ} : {A : Type ℓ} → List A → Bool
is_nil [] = true
is_nil (a ∷ l) = false

module _ {ℓ} {A : Type ℓ} where
  complained : (e : String) (b : Builder A) → is_nil (complain e b).errors ≡ false
  unfolding complain
  complained e b = go b.errors
    where
      go : (l : List String) → is_nil (l ++ (e ∷ [])) ≡ false
      go [] = refl
      go (x ∷ l) = refl

  with_text_lem :
      (e s : String) (f : A → A) (b : Builder A)
      → is_nil (with_text e s f b).errors ≡ (is_nil b.errors && is_given s)
  unfolding with_text is_given change
  with_text_lem e s f b =
      ground (arith, complained e b, Bool-cases (s == ""), Bool-cases (is_nil b.errors))

  with_pointer_lem {κ} :
      {P : Type κ} (e : String) (p : Option P) (f : P → A → A) (b : Builder A)
      → is_nil (with_pointer e p f b).errors ≡ (is_nil b.errors && is_there p)
  unfolding with_pointer change
  with_pointer_lem e none f b = ground (arith, complained e b, Bool-cases (is_nil b.errors))
  with_pointer_lem e (some x) f b = ground (arith, Bool-cases (is_nil b.errors))

  with_slice_lem {κ} :
      {P : Type κ} (e m : String) (l : Option (List P)) (f : List P → A → A) (b : Builder A)
      → is_nil (with_slice e m l f b).errors ≡ (is_nil b.errors && is_full l)
  unfolding with_slice change
  with_slice_lem e m none f b = ground (arith, complained e b, Bool-cases (is_nil b.errors))
  with_slice_lem e m (some []) f b = ground (arith, complained m b, Bool-cases (is_nil b.errors))
  with_slice_lem e m (some (x ∷ l)) f b = ground (arith, Bool-cases (is_nil b.errors))

and_assoc : (a b c : Bool) → ((a && b) && c) ≡ (a && (b && c))
and_assoc true b c = refl
and_assoc false b c = refl

and_true : (a : Bool) → (a && true) ≡ a
and_true true = refl
and_true false = refl

abbrev pub is_ok {ℓ} : {A : Type ℓ} → Outcome A → Bool
is_ok (ok a) = true
is_ok (err e) = false
is_ok Outcome.panic = false

module _ {V : Type 0} where
  abbrev pub all_valid : List (ContainerCall V) → Bool
  all_valid [] = true
  all_valid (c ∷ cs) = is_valid c && all_valid cs

  call_container_lem :
      (c : ContainerCall V) (b : Builder (Container V))
      → is_nil (call_container c b).errors ≡ (is_nil b.errors && is_valid c)
  unfolding call_container is_valid set_envs change
  call_container_lem (ContainerCall.with_name s) b = with_text_lem _ s _ b
  call_container_lem (ContainerCall.with_image s) b = with_text_lem _ s _ b
  call_container_lem (ContainerCall.with_image_pull_policy s) b = with_text_lem _ s _ b
  call_container_lem (ContainerCall.with_command_new l) b = with_slice_lem _ _ l _ b
  call_container_lem (ContainerCall.with_arguments_new l) b = with_slice_lem _ _ l _ b
  call_container_lem (ContainerCall.with_volume_mounts_new l) b = with_slice_lem _ _ l _ b
  call_container_lem (ContainerCall.with_volume_devices l) b = with_slice_lem _ _ l _ b
  call_container_lem (ContainerCall.with_ports_new l) b = with_slice_lem _ _ l _ b
  call_container_lem (ContainerCall.with_envs_new l) b = with_slice_lem _ _ l _ b
  call_container_lem (ContainerCall.with_envs l) b = with_slice_lem _ _ l _ b
  call_container_lem (ContainerCall.with_privileged_security_context p) b = with_pointer_lem _ p _ b
  call_container_lem (ContainerCall.with_resources p) b = with_pointer_lem _ p _ b
  call_container_lem (ContainerCall.with_liveness_probe p) b = with_pointer_lem _ p _ b
  call_container_lem (ContainerCall.with_life_cycle p) b = with_pointer_lem _ p _ b
  call_container_lem (ContainerCall.with_resources_by_value v) b = sym (and_true (is_nil b.errors))

  call_all_lem :
      (cs : List (ContainerCall V)) (b : Builder (Container V))
      → is_nil (call_all cs b).errors ≡ (is_nil b.errors && all_valid cs)
  unfolding call_all
  call_all_lem [] b = sym (and_true (is_nil b.errors))
  call_all_lem (c ∷ cs) b =
      rw (call_all_lem cs (call_container c b), call_container_lem c b)
        (and_assoc (is_nil b.errors) (is_valid c) (all_valid cs))

  build_ok :
      (print : List String → String) (b : Builder (Container V))
      → is_ok (build_container print b) ≡ is_nil b.errors
  unfolding build_container build_with
  build_ok print b = go b.errors refl
    where
      go : (l : List String) → b.errors ≡ l → is_ok (build_container print b) ≡ is_nil b.errors
      go [] e = ground (arith, e)
      go (x ∷ l) e = ground (arith, e)

  -- A container is built by a sequence of calls on a new builder exactly where every call was given what it
  -- asks for, in whatever order they come: an error is never forgotten, and there are no others.
  pub build_container-call_all :
      (print : List String → String) (cs : List (ContainerCall V))
      → is_ok (build_container print (call_all cs new_container_builder)) ≡ all_valid cs
  unfolding new_container_builder
  build_container-call_all print cs =
      build_ok print (call_all cs new_container_builder) ∙ call_all_lem cs new_container_builder

-- A storage class is built from a builder with no errors, and its parameters are those of the
-- builder, but for the time limit, which is 30 where the protocol is nvmf and none was given.
pub build_parameters :
    (print : List String → String) (b : Builder StorageClass) (sc : StorageClass) (key : String)
    → build print b ≡ ok sc
    → text_at key (entries sc.parameters) ≡ (
        if (key == "ioTimeout")
          && ((text_at "protocol" (entries b.object.parameters) == "nvmf")
              && (text_at "ioTimeout" (entries b.object.parameters) == ""))
        then "30"
        else text_at key (entries b.object.parameters))
unfolding build set_parameter
build_parameters print b sc key h = go b.errors refl h
  where
    go :
        (l : List String)
        → b.errors ≡ l
        → build print b ≡ ok sc
        → text_at key (entries sc.parameters) ≡ (
            if (key == "ioTimeout")
              && ((text_at "protocol" (entries b.object.parameters) == "nvmf")
                  && (text_at "ioTimeout" (entries b.object.parameters) == ""))
            then "30"
            else text_at key (entries b.object.parameters))
    go (e ∷ es) q t = ground (arith, q)
    go [] q t = ground (
      arith,
      q,
      lookup-insert "ioTimeout" key "30" (entries b.object.parameters),
      eq_iff key "ioTimeout",
      eq_iff "ioTimeout" key,
    )
