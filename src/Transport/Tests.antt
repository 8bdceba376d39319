-- ===== src/Transport/Tests.antt =====
-- A runtime that keeps the names of its containers and networks, and one pod for it.
use nexad.Prelude.{
  ◌≡◌, refl, false, none, List, [], ◌∷◌, Text, text, byte_eq, list_eq, contains, retain, ◌==◌, not,
}
use nexad.Result.{NexaError, ok, is_ok, value}
use nexad.Cluster.Nodes.{Pod}
use nexad.Transport.Container.{
  ContainerRuntime, DeploymentSpec, Core, ensure_network, remove_old, config_of,
}
use nexad.Transport.Local
use nexad.Transport.Remote.{AssignPodRequest, assign_pod}
use nexad.Transport.Agreement.{is_assigned, assign_pod-local}

-- The names are the state; a container's id is its name.
abbrev named : ContainerRuntime (List Text)
named = record {
  pull_image = λ r image. (ok tt, r);
  container_exists = λ r name. (ok (contains name r), r);
  stop_container = λ r name secs. (ok tt, r);
  remove_container = λ r name force. (ok tt, retain (λ n. not (n == name)) r);
  create_network = λ r name. (ok name, name ∷ r);
  create_container = λ r config. (ok config.name, config.name ∷ r);
  start_container = λ r id. (ok tt, r);
}

-- a volume is its name, mounted at its name
abbrev core : Core Text
core = record {
  container_name = λ pod. pod.deployment_name;
  source_name = λ v. v;
  mount_point = λ v. v;
  is_read_only = λ v. false;
  show_uuid = λ n. n ∷ [];
}

abbrev web : Pod
web = record {
  id = 7;
  deployment_id = 1;
  project = text "p";
  deployment_name = text "web";
  replica_index = 0;
  node_id = none;
  container_id = none;
  container_ip = none;
  status = 0;
  image = text "nginx";
  restart_count = 0;
  created_at = 0;
}

abbrev spec : DeploymentSpec Text
spec = record {
  project = text "p";
  deployment_name = text "web";
  replicas = 1;
  image = text "nginx";
  ports = 80 ∷ [];
  env = [];
  volumes = [];
}

abbrev request : AssignPodRequest
request = record { pod_data = []; deployment_spec = [] }

abbrev no_text : NexaError → Text
no_text e = []

assign_pod-local_example :
    let here = Local.assign_pod named core web spec (text "web" ∷ []) in
    let there =
      assign_pod named core (λ d. value web) (λ d. value spec) no_text request (text "web" ∷ []) in
    (here.1 ≡ there.1) × (is_ok here.0 ≡ is_assigned there.0)
assign_pod-local_example =
    assign_pod-local named core (λ d. value web) (λ d. value spec) no_text request web spec
      (text "web" ∷ []) refl refl

-- the old container is replaced
replaced :
    Local.assign_pod named core web spec (text "web" ∷ [])
    ≡ (ok tt, text "web" ∷ text "nexa-p" ∷ [])
unfolding Local.assign_pod ensure_network remove_old config_of
replaced = refl
