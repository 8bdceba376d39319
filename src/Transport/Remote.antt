-- ===== src/Transport/Remote.antt =====
-- The pods of `ClusterServer` in src/cluster/server.rs, on the worker's side.
use nexad.Prelude.{
  ℕ, Bool, true, false, Option, none, some, if◌then◌else◌, List, [], ◌++◌, Text, text,
}
use nexad.Result.{NexaError, Result, ok, err, Outcome, failed, value}
use nexad.Cluster.Nodes.{Pod}
use nexad.Transport.Container.{
  ContainerRuntime, DeploymentSpec, Core, network_name, config_of, remove_old, unwrap_or_false,
  ensure_network,
}

pub record AssignPodRequest : Type 0 where
  pub pod_data : List ℕ
  pub deployment_spec : List ℕ

pub record AssignPodResponse : Type 0 where
  pub success : Bool
  pub message : Text
  pub container_id : Text

-- A reply, or the status `invalid_argument` with its message.
module _ {ℓ} (A : Type ℓ) where
  pub data Reply : Type ℓ where
    invalid_argument : Text → Reply
    response : A → Reply

pub record PodResponse : Type 0 where
  pub success : Bool
  pub message : Text

abbrev pub not_assigned : Text → Reply AssignPodResponse
not_assigned message = response (record { success = false; message = message; container_id = [] })

-- `pod_of` and `spec_of` are `serde_json::from_slice`, `display` the text of an error.
module _ {ℓ κ} {R : Type ℓ} {Volume : Type κ} (rt : ContainerRuntime R) (core : Core Volume)
    (pod_of : List ℕ → Outcome Pod) (spec_of : List ℕ → Outcome (DeploymentSpec Volume))
    (display : NexaError → Text) where
  abbrev pub start_reply : Text → Result (Unit {0}) × R → Reply AssignPodResponse × R
  start_reply id (ok u, r) =
      (response (record { success = true; message = text "running"; container_id = id }), r)
  start_reply id (err e, r) = (not_assigned (text "start failed: " ++ display e), r)

  abbrev pub create_reply : Result Text × R → Reply AssignPodResponse × R
  create_reply (err e, r) = (not_assigned (text "create failed: " ++ display e), r)
  create_reply (ok id, r) = start_reply id (rt.start_container r id)

  -- A runtime that cannot tell whether the container is there counts as one without it.
  abbrev pub existing_check :
      Pod → DeploymentSpec Volume → Result Bool × R → Reply AssignPodResponse × R
  existing_check pod spec (found, r) =
      let cleared =
        if unwrap_or_false rt core found
        then remove_old rt core (core.container_name pod) r
        else r in
      create_reply (
        rt.create_container (ensure_network rt core (network_name rt core spec) cleared)
          (config_of rt core pod spec))

  unfoldable pub place : Pod → DeploymentSpec Volume → R → Reply AssignPodResponse × R
  place pod spec r =
      existing_check pod spec
        (rt.container_exists (rt.pull_image r spec.image).1 (core.container_name pod))

  unfoldable pub assign_pod : AssignPodRequest → R → Reply AssignPodResponse × R
  unfolding place
  assign_pod req r = elim (pod_of req.pod_data) [
    | failed e ↦ (invalid_argument (text "bad pod data: " ++ e), r)
    | value pod ↦ elim (spec_of req.deployment_spec) [
      | failed e ↦ (invalid_argument (text "bad spec: " ++ e), r)
      | value spec ↦ place pod spec r
    ]
  ]

-- The runtime is not asked.
unfoldable pub stop_pod : (pod_id : Text) → PodResponse
stop_pod pod_id = record { success = true; message = text "stopped" }

unfoldable pub remove_pod : (pod_id : Text) → PodResponse
remove_pod pod_id = record { success = true; message = text "removed" }

-- The statuses are logged only.
unfoldable pub report_status : (parse_uuid : Text → Option ℕ) (node_id : Text) → Reply (Unit {0})
report_status parse_uuid node_id = elim (parse_uuid node_id) [
  | none ↦ invalid_argument (text "bad node_id")
  | some id ↦ response tt
]
