-- ===== src/Runtime/DockerTests.antt =====
-- A web server's pod, and its container's events.
use nexad.Prelude.{
  ℕ, pos, ◌≡◌, refl, none, some, [], ◌∷◌, ◌++◌, map, arith, Text, text, ◌==◌, byte_eq, list_eq,
  if◌then◌else◌, any, true, false, Option,
}
use nexad.HashMap.{get}
use nexad.Str.{rsplit_once}
use nexad.Str.Decimal.{show}
use nexad.Result.{ok, value}
use nexad.Cluster.Nodes.{Pod}
use nexad.Transport.Container.{ContainerRuntime, DeploymentSpec, Core, config_of}
use nexad.Events.Watcher.{handle_event_stream}
use nexad.Runtime.DockerClient.{EventMessage}
use nexad.Runtime.Docker.{container_config, mapped_events, image_options}
use nexad.Runtime.DockerLaws.{
  bindings_of, container_config-config_of, mapped_events-handle_event_stream,
}

abbrev runtime : ContainerRuntime ℕ
runtime = record {
  pull_image = λ r image. (ok tt, r);
  container_exists = λ r name. (ok false, r);
  stop_container = λ r id t. (ok tt, r);
  remove_container = λ r id force. (ok tt, r);
  create_network = λ r name. (ok name, r);
  create_container = λ r config. (ok (text "c"), r);
  start_container = λ r id. (ok tt, r);
}

abbrev core : Core Text
core = record {
  container_name = λ pod. text "web-0";
  source_name = λ v. v;
  mount_point = λ v. v;
  is_read_only = λ v. true;
  show_uuid = λ id. id ∷ [];
}

abbrev spec : DeploymentSpec Text
spec = record {
  project = text "p";
  deployment_name = text "web";
  replicas = 1;
  image = text "nginx";
  ports = 80 ∷ 443 ∷ [];
  env = [];
  volumes = [];
}

abbrev pod : Pod
pod = record {
  id = 7;
  deployment_id = 1;
  project = text "p";
  deployment_name = text "web";
  replica_index = 0;
  node_id = none;
  container_id = none;
  container_ip = none;
  status = 0;
  image = text "nginx";
  restart_count = 0;
  created_at = 0;
}

container_config-config_of_example :
    get (bindings_of (container_config (config_of runtime core pod spec))) (show 443 ++ text "/tcp")
    ≡ (if any (λ p. p == 443) spec.ports
        then some (
            some (
              record {
                host_ip = some (text "0.0.0.0");
                host_port = if spec.replicas == 1 then some (show 443) else none;
              }
              ∷ []))
        else none)
container_config-config_of_example = container_config-config_of runtime core spec pod 443

abbrev with_action : Text → EventMessage
with_action action = record {
  action = some action;
  attributes = some (some ((text "nexa.pod-id", 7 ∷ []) ∷ (text "exitCode", text "137") ∷ []));
}

abbrev parse_uuid : Text → Option ℕ
parse_uuid [] = none
parse_uuid (c ∷ s) = some c

mapped_events-handle_event_stream_example :
    let died = with_action (text "die") in
    let killed = with_action (text "oom") in
    ((handle_event_stream parse_uuid 2
        (map (λ e. (5, e)) (mapped_events (value died ∷ [])))).commands
      ≡ (7, pos 137) ∷ [])
    × ((handle_event_stream parse_uuid 2
          (map (λ e. (6, e)) (mapped_events (value killed ∷ value died ∷ [])))).commands
        ≡ (7, pos 137) ∷ (7, pos 137) ∷ [])
unfolding get show
mapped_events-handle_event_stream_example =
    mapped_events-handle_event_stream parse_uuid (with_action (text "die"))
      (with_action (text "oom")) 7 137 5 6 (7 ∷ []) (refl, refl, refl) refl refl refl (omega arith)

-- a registry's port is taken for the tag
registry_port :
    image_options (text "localhost:5000/img")
    ≡ record { from_image = text "localhost"; tag = text "5000/img" }
unfolding image_options rsplit_once
registry_port = refl
