-- ===== src/Builders/PodTemplates.antt =====
-- PodtemplatespecBuilder and DeploymentBuilder (src/common/k8stest/util_podtemplatespec.go,
-- util_deploy.go).
use mayastor_e2e.Prelude.{
  ℕ, String, List, [], ◌∷◌, ◌++◌, Option, none, some, Outcome, ok, err, panic, Bool, concat, ltb, ℤ,
  pos, negsuc,
}
use mayastor_e2e.Builders.{
  Builder, complain, change, with_text, with_pointer, with_slice, with_map, build_with, merge,
}
use mayastor_e2e.Builders.Containers.{Container, build_container}
use mayastor_e2e.Builders.Volumes.{Volume, build_volume}

-- A Go map of texts that may be nil.
abbrev pub TextMap : Type 0
TextMap = Option (List (String × String))

pub record PodTemplate (V : Type 0) : Type 0 where
  pub name : String
  pub namespace : String
  pub annotations : TextMap
  pub labels : TextMap
  pub node_selector : TextMap
  pub priority_class_name : String
  pub service_account_name : String
  pub affinity : Option V
  pub tolerations : List V
  pub containers : List (Container V)
  pub volumes : List (Volume V)

-- The map with the new entries: a copy of them where there is none.
abbrev pub merged : List (String × String) → TextMap → TextMap
merged new none = some (merge new [])
merged new (some old) = some (merge new old)

abbrev pub copied : List (String × String) → TextMap
copied new = some (merge new [])

-- The calls of the builder's methods but for those that take builders.
pub data TemplateCall (V : Type 0) : Type 0 where
  with_name with_namespace with_priority_class_name with_service_account_name :
      String → TemplateCall V
  with_annotations with_annotations_new with_labels with_labels_new with_node_selector
        with_node_selector_new with_node_selector_by_value :
      List (String × String) → TemplateCall V
  with_affinity : Option V → TemplateCall V
  with_tolerations_by_value : List V → TemplateCall V
  with_tolerations with_tolerations_new : Option (List V) → TemplateCall V
  with_container_builders with_container_builders_new :
      Option (List (Builder (Container V))) → TemplateCall V
  with_volume_builders with_volume_builders_new :
      Option (List (Builder (Volume V))) → TemplateCall V

module _ {V : Type 0} (print : List String → String) where
  -- The loops over the builders that append what each builds, up to the first that fails.
  unfoldable pub append_containers :
      List (Builder (Container V)) → Builder (PodTemplate V) → Builder (PodTemplate V)
  append_containers [] b = b
  append_containers (c ∷ cs) b = elim (build_container print c) [
    | ok x ↦
        append_containers cs (change (λ t. record t { containers = t.containers ++ (x ∷ []) }) b)
    | err e ↦ complain (concat ("failed to build podtemplatespec: " ∷ e ∷ [])) b
    | panic ↦ b
  ]

  unfoldable pub append_volumes :
      List (Builder (Volume V)) → Builder (PodTemplate V) → Builder (PodTemplate V)
  append_volumes [] b = b
  append_volumes (v ∷ vs) b = elim (build_volume print v) [
    | ok x ↦ append_volumes vs (change (λ t. record t { volumes = t.volumes ++ (x ∷ []) }) b)
    | err e ↦ complain (concat ("failed to build podtemplatespec: " ∷ e ∷ [])) b
    | panic ↦ b
  ]

  -- The loops that collect what the builders build, and set it where none fails.
  unfoldable pub set_containers :
      List (Builder (Container V))
      → List (Container V)
      → Builder (PodTemplate V)
      → Builder (PodTemplate V)
  set_containers [] built b = change (λ t. record t { containers = built }) b
  set_containers (c ∷ cs) built b = elim (build_container print c) [
    | ok x ↦ set_containers cs (built ++ (x ∷ [])) b
    | err e ↦ complain (concat ("failed to build podtemplatespec: " ∷ e ∷ [])) b
    | panic ↦ b
  ]

  unfoldable pub set_volumes :
      List (Builder (Volume V))
      → List (Volume V)
      → Builder (PodTemplate V)
      → Builder (PodTemplate V)
  set_volumes [] built b = change (λ t. record t { volumes = built }) b
  set_volumes (v ∷ vs) built b = elim (build_volume print v) [
    | ok x ↦ set_volumes vs (built ++ (x ∷ [])) b
    | err e ↦ complain (concat ("failed to build podtemplatespec: " ∷ e ∷ [])) b
    | panic ↦ b
  ]

  -- The method that is called.
  unfoldable pub call_template : TemplateCall V → Builder (PodTemplate V) → Builder (PodTemplate V)
  call_template (with_name s) b =
      with_text "failed to build podtemplatespec object: missing name" s
        (λ t. record t { name = s }) b
  call_template (with_namespace s) b =
      with_text "failed to build podtemplatespec object: missing namespace" s
        (λ t. record t { namespace = s }) b
  call_template (with_priority_class_name s) b =
      change (λ t. record t { priority_class_name = s }) b
  call_template (with_service_account_name s) b =
      with_text "failed to build podtemplatespec object: missing serviceaccountname" s
        (λ t. record t { service_account_name = s }) b
  call_template (with_annotations m) b =
      with_map "failed to build deployment object: missing annotations" m
        (λ x t. record t { annotations = merged x t.annotations }) b
  call_template (with_annotations_new m) b =
      with_map "failed to build podtemplatespec object: missing annotations" m
        (λ x t. record t { annotations = copied x }) b
  call_template (with_labels m) b =
      with_map "failed to build podtemplatespec object: missing labels" m
        (λ x t. record t { labels = merged x t.labels }) b
  call_template (with_labels_new m) b =
      with_map "failed to build podtemplatespec object: missing labels" m
        (λ x t. record t { labels = copied x }) b
  call_template (with_node_selector m) b =
      with_map "failed to build podtemplatespec object: missing nodeselectors" m
        (λ x t. record t { node_selector = merged x t.node_selector }) b
  call_template (with_node_selector_new m) b =
      with_map "failed to build podtemplatespec object: missing nodeselectors" m
        (λ x t. record t { node_selector = copied x }) b
  call_template (with_node_selector_by_value m) b =
      change (λ t. record t { node_selector = copied m }) b
  call_template (with_affinity p) b =
      with_pointer "failed to build podtemplatespec object: missing affinity" p
        (λ x t. record t { affinity = some x }) b
  call_template (with_tolerations_by_value l) b =
      change (λ t. record t { tolerations = t.tolerations ++ l }) b
  call_template (with_tolerations l) b =
      with_slice "failed to build podtemplatespec object: nil tolerations"
        "failed to build podtemplatespec object: missing tolerations" l
        (λ x t. record t { tolerations = t.tolerations ++ x }) b
  call_template (with_tolerations_new l) b =
      with_slice "failed to build podtemplatespec object: nil tolerations"
        "failed to build podtemplatespec object: missing tolerations" l
        (λ x t. record t { tolerations = x }) b
  call_template (with_container_builders none) b =
      complain "failed to build podtemplatespec: nil containerbuilder" b
  call_template (with_container_builders (some cs)) b = append_containers cs b
  call_template (with_container_builders_new none) b =
      complain "failed to build podtemplatespec: nil containerbuilder" b
  call_template (with_container_builders_new (some [])) b =
      complain "failed to build podtemplatespec: missing containerbuilder" b
  call_template (with_container_builders_new (some (c ∷ cs))) b = set_containers (c ∷ cs) [] b
  call_template (with_volume_builders none) b =
      complain "failed to build podtemplatespec: nil volumeBuilderList" b
  call_template (with_volume_builders (some vs)) b = append_volumes vs b
  call_template (with_volume_builders_new none) b =
      complain "failed to build podtemplatespec: nil volumeBuilderList" b
  call_template (with_volume_builders_new (some [])) b =
      complain "failed to build podtemplatespec: missing volumeBuilderList" b
  call_template (with_volume_builders_new (some (v ∷ vs))) b = set_volumes (v ∷ vs) [] b

  -- Build, with validate; the object is printed into the error as `shown`.
  unfoldable pub build_template : String → Builder (PodTemplate V) → Outcome (PodTemplate V)
  build_template shown b =
      build_with
        (λ es. concat (
          "failed to build a podtemplatespec: "
          ∷ shown
          ∷ ": failed to validate: build errors were found: "
          ∷ print es
          ∷ []))
        b

pub record Deployment (V : Type 0) : Type 0 where
  pub name : String
  pub namespace : String
  pub labels : TextMap
  pub match_labels : TextMap  -- Spec.Selector, which may be nil
  pub replicas : Option ℤ
  pub template : PodTemplate V

-- The calls of the DeploymentBuilder's methods; the template's builder may be nil.
pub data DeploymentCall (V : Type 0) : Type 0 where
  with_deployment_name with_deployment_namespace : String → DeploymentCall V
  with_deployment_labels_new with_selector_match_labels with_selector_match_labels_new
        with_deployment_node_selector with_deployment_node_selector_new :
      List (String × String) → DeploymentCall V
  with_replicas : Option ℤ → DeploymentCall V
  with_pod_template_spec_builder : Option (Builder (PodTemplate V)) → DeploymentCall V

module _ {V : Type 0} (print : List String → String) (decimal : ℤ → String)
    (show : PodTemplate V → String) where
  -- WithReplicas
  unfoldable pub set_replicas : Option ℤ → Builder (Deployment V) → Builder (Deployment V)
  set_replicas none b = complain "failed to build deployment object: nil replicas" b
  set_replicas (some (negsuc n)) b =
      complain
        (concat
          ("failed to build deployment object: invalid replicas {" ∷ decimal (negsuc n) ∷ "}" ∷ []))
        b
  set_replicas (some (pos n)) b = change (λ d. record d { replicas = some (pos n) }) b

  -- WithPodTemplateSpecBuilder
  unfoldable pub set_template :
      Option (Builder (PodTemplate V)) → Builder (Deployment V) → Builder (Deployment V)
  set_template none b = complain "failed to build deployment: nil templatespecbuilder" b
  set_template (some t) b = elim (build_template print (show t.object) t) [
    | ok x ↦ change (λ d. record d { template = x }) b
    | err e ↦ complain (concat ("failed to build deployment: " ∷ e ∷ [])) b
    | panic ↦ b
  ]

  -- The method that is called.
  unfoldable pub call_deployment :
      DeploymentCall V → Builder (Deployment V) → Builder (Deployment V)
  call_deployment (with_deployment_name s) b =
      with_text "failed to build deployment: missing name" s (λ d. record d { name = s }) b
  call_deployment (with_deployment_namespace s) b =
      with_text "failed to build deployment: missing namespace" s (λ d. record d { namespace = s })
        b
  call_deployment (with_deployment_labels_new m) b =
      with_map "failed to build deployment object: no new labels" m
        (λ x d. record d { labels = copied x }) b
  call_deployment (with_selector_match_labels m) b =
      with_map "failed to build deployment object: missing matchlabels" m
        (λ x d. record d { match_labels = merged x d.match_labels }) b
  call_deployment (with_selector_match_labels_new m) b =
      with_map "failed to build deployment object: no new matchlabels" m
        (λ x d. record d { match_labels = copied x }) b
  call_deployment (with_deployment_node_selector m) b =
      with_map "failed to build deployment object: no node selector" m
        (λ x d. record d {
          template = record d.template {
            node_selector = elim d.template.node_selector [
              | none ↦ some x
              | some old ↦ some (merge x old)
            ];
          };
        })
        b
  call_deployment (with_deployment_node_selector_new m) b =
      with_map "failed to build deployment object: no new node selector" m
        (λ x d. record d { template = record d.template { node_selector = some x } }) b
  call_deployment (with_replicas r) b = set_replicas r b
  call_deployment (with_pod_template_spec_builder t) b = set_template t b

  -- Build, with validate.
  unfoldable pub build_deployment : String → Builder (Deployment V) → Outcome (Deployment V)
  build_deployment shown b =
      build_with
        (λ es. concat (
          "failed to build a deployment: "
          ∷ shown
          ∷ ": failed to validate: build errors were found: "
          ∷ print es
          ∷ []))
        b

-- IsTerminationInProgress, VerifyReplicaStatus, IsNotSyncSpec and IsUpdateInProgress, on the numbers of the
-- status, which are not negative.
unfoldable pub is_termination_in_progress : (replicas updated : ℕ) → Bool
is_termination_in_progress replicas updated = ltb updated replicas

unfoldable pub is_not_sync_spec : (generation observed : ℕ) → Bool
is_not_sync_spec generation observed = ltb observed generation

unfoldable pub is_update_in_progress : (available updated : ℕ) → Bool
is_update_in_progress available updated = ltb available updated
