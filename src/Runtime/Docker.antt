-- ===== src/Runtime/Docker.antt =====
-- `DockerRuntime` of src/adapters/runtime/docker.rs, over the calls of its client.
use nexad.Prelude.{
  ℤ, negsuc, Option, none, some, List, [], ◌∷◌, ◌++◌, map, Text, text, ◌==◌, byte_eq, list_eq,
  if◌then◌else◌, is_empty,
}
use nexad.HashMap.{HashMap, get, insert}
use nexad.Str.{rsplit_once}
use nexad.Str.Decimal.{show}
use nexad.Result.{runtime, image_pull, Result, ok, err, Outcome, failed, value}
use nexad.Transport.Container.{PortBinding, VolumeBinding, ContainerConfig}
use nexad.Events.Watcher.{RuntimeEvent, container_died, container_oom, container_started}
use nexad.Runtime.Containerd.{ContainerState, ContainerInfo}
use nexad.Runtime.Containerd
use nexad.Runtime.CtrEvents.{trim_matches_start, parse_i64}
use nexad.Runtime.DockerClient.{
  CreateImageOptions, BollardPortBinding, HostConfig, Config, RemoveContainerOptions, LogsOptions,
  CreateNetworkOptions, ContainerStateStatusEnum, ContainerInspectResponse, EventMessage, Docker,
}
use nexad.Runtime.DockerClient

abbrev pub unwrap_or {ℓ} : {A : Type ℓ} → A → Option A → A
unwrap_or d none = d
unwrap_or d (some a) = a

abbrev pub flattened {ℓ} : {A : Type ℓ} → Option (Option A) → Option A
flattened none = none
flattened (some o) = o

-- `map_err(|e| NexaError::Runtime(e.to_string()))`
abbrev pub as_runtime {ℓ} : {A : Type ℓ} → Outcome A → Result A
as_runtime (failed e) = err (runtime e)
as_runtime (value a) = ok a

unfoldable pub image_options : Text → CreateImageOptions
image_options image = elim (rsplit_once b':' image) [
  | none ↦ record { from_image = image; tag = text "latest" }
  | some (r, t) ↦ record { from_image = r; tag = t }
]

-- the stream is read up to the first error
abbrev pub pulled : List (Outcome (Unit {0})) → Result (Unit {0})
pulled [] = ok tt
pulled (failed e ∷ results) = err (image_pull e)
pulled (value u ∷ results) = pulled results

abbrev pub env_list : HashMap Text Text → List Text
env_list env = map (λ e. e.0 ++ (text "=" ++ e.1)) env

abbrev pub port_key : PortBinding → Text
port_key port = show port.container_port ++ text "/tcp"

abbrev pub bound : PortBinding → Option (List BollardPortBinding)
bound port = some (
    record {
      host_ip = some (text "0.0.0.0");
      host_port = elim port.host_port [ none ↦ none | some p ↦ some (show p) ];
    }
    ∷ [])

-- the loop over the ports, on the map that it has so far
unfoldable pub bind_ports :
    HashMap Text (Option (List BollardPortBinding))
    → List PortBinding
    → HashMap Text (Option (List BollardPortBinding))
bind_ports m [] = m
bind_ports m (port ∷ ports) = bind_ports (insert m (port_key port) (bound port)) ports

unfoldable pub expose_ports :
    HashMap Text (HashMap (Unit {0}) (Unit {0}))
    → List PortBinding
    → HashMap Text (HashMap (Unit {0}) (Unit {0}))
expose_ports m [] = m
expose_ports m (port ∷ ports) = expose_ports (insert m (port_key port) []) ports

abbrev pub bind : VolumeBinding → Text
bind v =
    if v.read_only
    then v.source ++ (text ":" ++ (v.target ++ text ":ro"))
    else v.source ++ (text ":" ++ v.target)

abbrev pub unless_empty : List Text → Option (List Text)
unless_empty xs = if is_empty xs then none else some xs

unfoldable pub container_config : ContainerConfig → Config
container_config config = record {
  image = some config.image;
  cmd = unless_empty config.command;
  env = some (env_list config.env);
  exposed_ports = some (expose_ports [] config.ports);
  labels = some config.labels;
  host_config = some (record {
    port_bindings = some (bind_ports [] config.ports);
    binds = some (map bind config.volumes);
    network_mode = config.network;
    dns = unless_empty config.dns;
    dns_search = unless_empty config.dns_search;
  });
}

unfoldable pub state_of : Option ContainerStateStatusEnum → ContainerState
state_of (some DockerClient.running) = Containerd.running
state_of (some DockerClient.created) = Containerd.created
state_of (some DockerClient.exited) = Containerd.exited
state_of (some DockerClient.paused) = Containerd.paused
state_of (some DockerClient.restarting) = Containerd.restarting
state_of (some DockerClient.removing) = Containerd.removing
state_of (some DockerClient.dead) = Containerd.dead
state_of (some DockerClient.empty_) = Containerd.unknown
state_of none = Containerd.unknown

unfoldable pub info_of : ContainerInspectResponse → ContainerInfo
info_of info = record {
  id = unwrap_or [] info.id;
  name = trim_matches_start 47 (unwrap_or [] info.name);
  image = unwrap_or [] (flattened info.image);
  state = state_of (flattened info.status);
}

-- the filters of the events that are asked for
abbrev pub event_filters : HashMap Text (List Text)
event_filters =
    (text "type", text "container" ∷ [])
    ∷ (text "event", text "die" ∷ text "start" ∷ text "oom" ∷ [])
    ∷ (text "label", text "managed-by=nexanet" ∷ [])
    ∷ []

-- an attribute of the event's actor
abbrev pub attribute : EventMessage → Text → Option Text
attribute event name = elim (flattened event.attributes) [
  | none ↦ none
  | some attributes ↦ get attributes name
]

abbrev pub code_of : Option Text → ℤ
code_of none = negsuc 0
code_of (some code) = unwrap_or (negsuc 0) (parse_i64 code)

abbrev pub exit_code : EventMessage → ℤ
exit_code event = code_of (attribute event (text "exitCode"))

unfoldable pub runtime_event : EventMessage → Option RuntimeEvent
runtime_event event =
    let action = unwrap_or [] event.action in
    let container_id = unwrap_or [] (attribute event (text "nexa.pod-id")) in
    if action == text "die"
    then some (container_died container_id (exit_code event))
    else if action == text "start"
    then some (container_started container_id)
    else if action == text "oom"
    then some (container_oom container_id)
    else none

abbrev pub cons_event : Option RuntimeEvent → List RuntimeEvent → List RuntimeEvent
cons_event none events = events
cons_event (some e) events = e ∷ events

-- the stream: an error of the daemon's is logged and passed over
unfoldable pub mapped_events : List (Outcome EventMessage) → List RuntimeEvent
mapped_events [] = []
mapped_events (failed e ∷ results) = mapped_events results
mapped_events (value event ∷ results) = cons_event (runtime_event event) (mapped_events results)
