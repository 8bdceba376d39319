-- ===== src/Transport/Container.antt =====
-- What both sides ask of a container runtime, and the container that a pod's deployment asks for.
use nexad.Prelude.{
  ℕ, Bool, true, false, Option, none, some, List, [], ◌++◌, map, Text, text, ◌==◌, byte_eq, list_eq,
  if◌then◌else◌,
}
use nexad.HashMap.{HashMap, insert}
use nexad.Result.{Result, ok, err}
use nexad.Cluster.Nodes.{Pod}

pub record PortBinding : Type 0 where
  pub container_port : ℕ
  pub host_port : Option ℕ

pub record VolumeBinding : Type 0 where
  pub source : Text
  pub target : Text
  pub read_only : Bool

pub record ContainerConfig : Type 0 where
  pub name : Text
  pub image : Text
  pub command : List Text
  pub env : HashMap Text Text
  pub ports : List PortBinding
  pub volumes : List VolumeBinding
  pub labels : HashMap Text Text
  pub network : Option Text
  pub dns : List Text
  pub dns_search : List Text

-- The calls of `ContainerRuntime`, over a state that they may change.
pub record ContainerRuntime {ℓ} (R : Type ℓ) : Type ℓ where
  pub pull_image : R → Text → Result (Unit {0}) × R
  pub container_exists : R → Text → Result Bool × R
  pub stop_container : R → Text → ℕ → Result (Unit {0}) × R
  pub remove_container : R → Text → Bool → Result (Unit {0}) × R
  pub create_network : R → Text → Result Text × R
  pub create_container : R → ContainerConfig → Result Text × R
  pub start_container : R → Text → Result (Unit {0}) × R

-- The fields of a deployment's specification that are read; a volume is of a type of the core library.
pub record DeploymentSpec {ℓ} (Volume : Type ℓ) : Type ℓ where
  pub project : Text
  pub deployment_name : Text
  pub replicas : ℕ
  pub image : Text
  pub ports : List ℕ
  pub env : HashMap Text Text
  pub volumes : List Volume

-- The methods of the core library that are called on a pod, a volume and an id.
pub record Core {ℓ} (Volume : Type ℓ) : Type ℓ where
  pub container_name : Pod → Text
  pub source_name : Volume → Text
  pub mount_point : Volume → Text
  pub is_read_only : Volume → Bool
  pub show_uuid : ℕ → Text

module _ {ℓ κ} {R : Type ℓ} {Volume : Type κ} (runtime : ContainerRuntime R)
    (core : Core Volume) where
  abbrev pub network_name : DeploymentSpec Volume → Text
  network_name spec = text "nexa-" ++ spec.project

  -- A port is bound on the host where there is one replica only.
  unfoldable pub port_binding : DeploymentSpec Volume → ℕ → PortBinding
  port_binding spec p = record {
    container_port = p;
    host_port = if spec.replicas == 1 then some p else none;
  }

  unfoldable pub volume_binding : Volume → VolumeBinding
  volume_binding v = record {
    source = core.source_name v;
    target = core.mount_point v;
    read_only = core.is_read_only v;
  }

  unfoldable pub labels_of : Pod → DeploymentSpec Volume → HashMap Text Text
  labels_of pod spec =
      insert
        (insert
          (insert (insert [] (text "managed-by") (text "nexanet")) (text "nexa.project")
            spec.project)
          (text "nexa.deployment") spec.deployment_name)
        (text "nexa.pod-id") (core.show_uuid pod.id)

  unfoldable pub config_of : Pod → DeploymentSpec Volume → ContainerConfig
  unfolding port_binding volume_binding labels_of
  config_of pod spec = record {
    name = core.container_name pod;
    image = spec.image;
    command = [];
    env = spec.env;
    ports = map (port_binding spec) spec.ports;
    volumes = map volume_binding spec.volumes;
    labels = labels_of pod spec;
    network = some (network_name spec);
    dns = [];
    dns_search = [];
  }

  -- an old container of the name, stopped and removed whatever the calls report
  unfoldable pub remove_old : Text → R → R
  remove_old name r = (runtime.remove_container (runtime.stop_container r name 5).1 name true).1

  abbrev pub unwrap_or_false : Result Bool → Bool
  unwrap_or_false (ok b) = b
  unwrap_or_false (err e) = false

  unfoldable pub ensure_network : Text → R → R
  ensure_network name r =
      let (exists_, s) = runtime.container_exists r name in
      if unwrap_or_false exists_ then s else (runtime.create_network s name).1
