-- ===== src/Builders/Containers.antt =====
-- ContainerBuilder (src/common/k8stest/util_container.go).
use mayastor_e2e.Prelude.{String, List, [], ◌∷◌, ◌++◌, Option, none, some, Outcome, Bool, concat}
use mayastor_e2e.Builders.{Builder, change, with_text, with_pointer, with_slice, build_with}

-- The fields of the container that the builder sets; asContainer copies them with the others.
pub record Container (V : Type 0) : Type 0 where
  pub name : String
  pub image : String
  pub command : Option (List String)
  pub args : Option (List String)
  pub volume_mounts : Option (List V)
  pub volume_devices : Option (List V)
  pub image_pull_policy : String
  pub privileged : Option Bool  -- SecurityContext.Privileged
  pub resources : Option V
  pub ports : Option (List V)
  pub env : Option (List V)
  pub liveness_probe : Option V
  pub lifecycle : Option V

-- The calls of the builder's methods.
pub data ContainerCall (V : Type 0) : Type 0 where
  with_name with_image with_image_pull_policy : String → ContainerCall V
  with_command_new with_arguments_new : Option (List String) → ContainerCall V
  with_volume_mounts_new with_volume_devices with_ports_new with_envs_new with_envs :
      Option (List V) → ContainerCall V
  with_privileged_security_context : Option Bool → ContainerCall V
  with_resources with_liveness_probe with_life_cycle : Option V → ContainerCall V
  with_resources_by_value : V → ContainerCall V

module _ {V : Type 0} where
  -- NewContainerBuilder
  unfoldable pub new_container_builder : Builder (Container V)
  new_container_builder = record {
    object = record {
      name = "";
      image = "";
      command = none;
      args = none;
      volume_mounts = none;
      volume_devices = none;
      image_pull_policy = "";
      privileged = none;
      resources = none;
      ports = none;
      env = none;
      liveness_probe = none;
      lifecycle = none;
    };
    errors = [];
  }

  -- WithEnvsNew
  unfoldable pub set_envs : Option (List V) → Builder (Container V) → Builder (Container V)
  set_envs envs b =
      with_slice "failed to build container object: nil envs"
        "failed to build container object: missing envs" envs (λ l c. record c { env = some l }) b

  -- The end of WithEnvs: the variables after those that are there, or WithEnvsNew.
  unfoldable pub add_envs : List V → Container V → Container V
  add_envs l c = record c { env = elim c.env [ none ↦ some l | some old ↦ some (old ++ l) ] }

  -- The method that is called.
  unfoldable pub call_container : ContainerCall V → Builder (Container V) → Builder (Container V)
  call_container (with_name s) b =
      with_text "failed to build container object: missing name" s (λ c. record c { name = s }) b
  call_container (with_image s) b =
      with_text "failed to build container object: missing image" s (λ c. record c { image = s }) b
  call_container (with_image_pull_policy s) b =
      with_text "failed to build container object: missing imagepullpolicy" s
        (λ c. record c { image_pull_policy = s }) b
  call_container (with_command_new l) b =
      with_slice "failed to build container object: nil command"
        "failed to build container object: missing command" l (λ x c. record c { command = some x })
        b
  call_container (with_arguments_new l) b =
      with_slice "failed to build container object: nil arguments"
        "failed to build container object: missing arguments" l (λ x c. record c { args = some x })
        b
  call_container (with_volume_mounts_new l) b =
      with_slice "failed to build container object: nil volumemounts"
        "failed to build container object: missing volumemounts" l
        (λ x c. record c { volume_mounts = some x }) b
  call_container (with_volume_devices l) b =
      with_slice "failed to build container object: nil volumedevices"
        "failed to build container object: missing volumedevices" l
        (λ x c. record c { volume_devices = some x }) b
  call_container (with_ports_new l) b =
      with_slice "failed to build container object: nil ports"
        "failed to build container object: missing ports" l (λ x c. record c { ports = some x }) b
  call_container (with_envs_new l) b = set_envs l b
  call_container (with_envs l) b =
      with_slice "failed to build container object: nil envs"
        "failed to build container object: missing envs" l add_envs b
  call_container (with_privileged_security_context p) b =
      with_pointer "failed to build container object: missing securitycontext" p
        (λ x c. record c { privileged = some x }) b
  call_container (with_resources p) b =
      with_pointer "failed to build container object: missing resources" p
        (λ x c. record c { resources = some x }) b
  call_container (with_liveness_probe p) b =
      with_pointer "failed to build container object: nil liveness probe" p
        (λ x c. record c { liveness_probe = some x }) b
  call_container (with_life_cycle p) b =
      with_pointer "failed to build container object: nil lifecycle" p
        (λ x c. record c { lifecycle = some x }) b
  call_container (with_resources_by_value v) b = change (λ c. record c { resources = some v }) b

  -- Build, with validate.
  unfoldable pub build_container :
      (List String → String) → Builder (Container V) → Outcome (Container V)
  build_container print b =
      build_with (λ es. concat ("failed to validate: build errors were found: " ∷ print es ∷ [])) b
