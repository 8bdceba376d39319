-- ===== src/Runtime/DockerClient.antt =====
-- What src/adapters/runtime/docker.rs takes from the client library bollard: the options that it sets,
-- the fields that it reads, and the calls.
use nexad.Prelude.{ℤ, Bool, Option, List, Text}
use nexad.HashMap.{HashMap}
use nexad.Result.{Outcome}

pub record CreateImageOptions : Type 0 where
  pub from_image : Text
  pub tag : Text

pub record BollardPortBinding : Type 0 where
  pub host_ip : Option Text
  pub host_port : Option Text

pub record HostConfig : Type 0 where
  pub port_bindings : Option (HashMap Text (Option (List BollardPortBinding)))
  pub binds : Option (List Text)
  pub network_mode : Option Text
  pub dns : Option (List Text)
  pub dns_search : Option (List Text)

-- A set of ports is a map to empty maps.
pub record Config : Type 0 where
  pub image : Option Text
  pub cmd : Option (List Text)
  pub env : Option (List Text)
  pub exposed_ports : Option (HashMap Text (HashMap (Unit {0}) (Unit {0})))
  pub labels : Option (HashMap Text Text)
  pub host_config : Option HostConfig

pub record RemoveContainerOptions : Type 0 where
  pub force : Bool
  pub v : Bool

pub record LogsOptions : Type 0 where
  pub stdout : Bool
  pub stderr : Bool
  pub follow : Bool
  pub tail : Text

pub record CreateNetworkOptions : Type 0 where
  pub name : Text
  pub driver : Text
  pub labels : HashMap Text Text

pub data ContainerStateStatusEnum : Type 0 where
  empty_ created running paused restarting removing exited dead : ContainerStateStatusEnum

-- An absent struct and an absent field of it are two levels of `Option`.
pub record ContainerInspectResponse : Type 0 where
  pub id : Option Text
  pub name : Option Text
  pub status : Option (Option ContainerStateStatusEnum)
  pub image : Option (Option Text)
  pub networks : Option (Option (HashMap Text (Option Text)))

pub record EventMessage : Type 0 where
  pub action : Option Text
  pub attributes : Option (Option (HashMap Text Text))

-- `D` is what the daemon keeps. A stream is the list of what it yields; the names of a listed container
-- may be absent.
pub record Docker {ℓ} (D : Type ℓ) : Type ℓ where
  pub ping : D → Outcome (Unit {0})
  pub create_image : D → CreateImageOptions → List (Outcome (Unit {0})) × D
  pub create_container : D → Text → Config → Outcome Text × D
  pub start_container : D → Text → Outcome (Unit {0}) × D
  pub stop_container : D → Text → ℤ → Outcome (Unit {0}) × D
  pub remove_container : D → Text → RemoveContainerOptions → Outcome (Unit {0}) × D
  pub inspect_container : D → Text → Outcome ContainerInspectResponse
  pub logs : D → Text → LogsOptions → List (Outcome Text)
  pub list_containers : D → Bool → HashMap Text (List Text) → Outcome (List (Option (List Text)))
  pub create_network : D → CreateNetworkOptions → Outcome Text × D
  pub remove_network : D → Text → Outcome (Unit {0}) × D
  pub connect_network : D → Text → Text → Outcome (Unit {0}) × D
  pub events : D → HashMap Text (List Text) → List (Outcome EventMessage)
