-- ===== src/Runtime/DockerCalls.antt =====
-- The calls of `DockerRuntime` in src/adapters/runtime/docker.rs, as the runtime that the transports are
-- given.
use nexad.Prelude.{
  ℕ, u64_as_i64, Bool, true, false, Option, none, some, List, [], ◌∷◌, ◌++◌, Text, text, ◌==◌,
  byte_eq, list_eq, any, is_empty, map, if◌then◌else◌,
}
use nexad.HashMap.{get}
use nexad.Str.Decimal.{show}
use nexad.Result.{runtime, Result, ok, err, Outcome, failed, value}
use nexad.Events.Watcher.{RuntimeEvent}
use nexad.Transport.Container.{ContainerConfig, ContainerRuntime}
use nexad.Runtime.Containerd.{ContainerInfo}
use nexad.Runtime.DockerClient.{ContainerInspectResponse, Docker}
use nexad.Runtime.Docker.{
  flattened, as_runtime, image_options, pulled, container_config, info_of, event_filters,
  mapped_events,
}

-- the list contains the text
abbrev pub has : List Text → Text → Bool
has names name = any (λ n. n == name) names

abbrev pub names_has : Text → Option (List Text) → Bool
names_has name none = false
names_has name (some names) = has names name

abbrev pub on_state {ℓ κ} : {A : Type ℓ} {D : Type κ} → Outcome A × D → Result A × D
on_state (outcome, s) = (as_runtime outcome, s)

abbrev pub nonempty : Option Text → Option Text
nonempty none = none
nonempty (some ip) = if is_empty ip then none else some ip

-- the address on a network, if it has one that is not empty
unfoldable pub address_on : Text → ContainerInspectResponse → Option Text
address_on network info = elim (flattened info.networks) [
  | none ↦ none
  | some nets ↦ nonempty (flattened (get nets network))
]

module _ {ℓ} {D : Type ℓ} (client : Docker D) where
  unfoldable pub ping : D → Result (Unit {0})
  ping s = elim (client.ping s) [
    | failed e ↦ err (runtime (text "Docker daemon unreachable: " ++ e))
    | value u ↦ ok tt
  ]

  unfoldable pub pull_image : D → Text → Result (Unit {0}) × D
  pull_image s image =
      let (results, after_) = client.create_image s (image_options image) in
      (pulled results, after_)

  unfoldable pub create_container : D → ContainerConfig → Result Text × D
  create_container s config =
      on_state (client.create_container s config.name (container_config config))

  unfoldable pub start_container : D → Text → Result (Unit {0}) × D
  start_container s id = on_state (client.start_container s id)

  unfoldable pub stop_container : D → Text → ℕ → Result (Unit {0}) × D
  stop_container s id timeout_secs = on_state (client.stop_container s id (u64_as_i64 timeout_secs))

  unfoldable pub remove_container : D → Text → Bool → Result (Unit {0}) × D
  remove_container s id force =
      on_state (client.remove_container s id (record { force = force; v = true }))

  unfoldable pub inspect_container : D → Text → Result ContainerInfo
  inspect_container s id = elim (client.inspect_container s id) [
    | failed e ↦ err (runtime e)
    | value info ↦ ok (info_of info)
  ]

  unfoldable pub logs : D → Text → Option ℕ → List (Result Text)
  logs s id tail = map as_runtime (
      client.logs s id (record {
        stdout = true;
        stderr = true;
        follow = true;
        tail = elim tail [ none ↦ text "all" | some t ↦ show t ];
      }))

  -- the daemon filters by parts of names, so that the whole name is looked for in what it lists
  unfoldable pub container_exists : D → Text → Result Bool
  container_exists s name = elim (client.list_containers s true ((text "name", name ∷ []) ∷ [])) [
    | failed e ↦ err (runtime e)
    | value containers ↦ ok (any (names_has (b'/' ∷ name)) containers)
  ]

  unfoldable pub create_network : D → Text → Result Text × D
  create_network s name = on_state (
      client.create_network s (record {
        name = name;
        driver = text "bridge";
        labels = (text "managed-by", text "nexanet") ∷ [];
      }))

  unfoldable pub remove_network : D → Text → Result (Unit {0}) × D
  remove_network s name = on_state (client.remove_network s name)

  unfoldable pub connect_to_network : D → Text → Text → Result (Unit {0}) × D
  connect_to_network s container_id network =
      on_state (client.connect_network s network container_id)

  unfoldable pub container_ip : D → Text → Text → Result Text
  container_ip s container_id network = elim (client.inspect_container s container_id) [
    | failed e ↦ err (runtime e)
    | value info ↦ elim (address_on network info) [
      | none ↦ err (
          runtime (
            text "no IP found for container "
            ++ (container_id ++ (text " on network " ++ network))))
      | some ip ↦ ok ip
    ]
  ]

  unfoldable pub events : D → List RuntimeEvent
  events s = mapped_events (client.events s event_filters)

  -- the calls as the transports use them
  abbrev pub docker_runtime : ContainerRuntime D
  docker_runtime = record {
    pull_image = pull_image;
    container_exists = λ s name. (container_exists s name, s);
    stop_container = stop_container;
    remove_container = remove_container;
    create_network = create_network;
    create_container = create_container;
    start_container = start_container;
  }
