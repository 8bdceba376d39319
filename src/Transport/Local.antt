-- ===== src/Transport/Local.antt =====
-- `LocalTransport` of src/adapters/transport/local.rs.
use nexad.Prelude.{ℕ, Bool, true, false, Option, Text, text}
use nexad.Result.{runtime, Result, ok, err}
use nexad.Cluster.Nodes.{Pod, Node, NodeStatus, NodeResources}
use nexad.Transport.Container.{
  ContainerRuntime, DeploymentSpec, Core, network_name, config_of, remove_old, ensure_network,
}

module _ {ℓ κ} {R : Type ℓ} {Volume : Type κ} (rt : ContainerRuntime R) (core : Core Volume) where
  abbrev pub started : Result Text × R → Result (Unit {0}) × R
  started (err e, r) = (err e, r)
  started (ok container_id, r) = rt.start_container r container_id

  -- the network, the container and its start
  abbrev pub create_and_start : Pod → DeploymentSpec Volume → R → Result (Unit {0}) × R
  create_and_start pod spec r = started (
      rt.create_container (ensure_network rt core (network_name rt core spec) r)
        (config_of rt core pod spec))

  abbrev pub existing_check : Pod → DeploymentSpec Volume → Result Bool × R → Result (Unit {0}) × R
  existing_check pod spec (err e, r) = (err e, r)
  existing_check pod spec (ok true, r) =
      create_and_start pod spec (remove_old rt core (core.container_name pod) r)
  existing_check pod spec (ok false, r) = create_and_start pod spec r

  -- An image that cannot be pulled is passed over.
  unfoldable pub assign_pod : Pod → DeploymentSpec Volume → R → Result (Unit {0}) × R
  assign_pod pod spec r =
      existing_check pod spec
        (rt.container_exists (rt.pull_image r spec.image).1 (core.container_name pod))

-- The other calls of the transport do nothing.
unfoldable pub register_node : Node → Result (Unit {0})
register_node node = ok tt

unfoldable pub heartbeat : ℕ → NodeStatus → NodeResources → Result (Unit {0})
heartbeat node_id status resources = ok tt

unfoldable pub stop_pod : ℕ → ℕ → Result (Unit {0})
stop_pod node_id pod_id = ok tt

unfoldable pub remove_pod : ℕ → ℕ → Result (Unit {0})
remove_pod node_id pod_id = ok tt

-- The stream of a result that is never given is of any type.
unfoldable pub stream_logs {ℓ} : {LogStream : Type ℓ} → ℕ → ℕ → Option ℕ → Result LogStream
stream_logs node_id pod_id tail =
    err (runtime (text "local transport: use runtime.logs() directly"))
