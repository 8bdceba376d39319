-- ===== src/Sqlite/Tests.antt =====
-- A driver whose text forms are single letters, and a run of statements on it.
use nexad.Prelude.{
  ℕ, ◌^◌, ◌≡◌, refl, true, false, Option, none, some, List, [], ◌∷◌, arith, Text, text, ◌==◌,
  byte_eq, ◌&&◌, if◌then◌else◌,
}
use nexad.Result.{runtime, ok, err, is_ok}
use nexad.Cluster.Nodes.{
  NodeRole, master, worker, NodeStatus, ready, not_ready, draining, Node, Pod, IsRegular, has_nan,
  is_nan,
}
use nexad.Sqlite.Driver.{Codec, IsFaithful, Driver}
use nexad.Sqlite.Tables.{
  Project, Deployment, Database, empty_database, project_row, deployment_row, pod_row, node_row,
  row_to_pod, row_to_node,
}
use nexad.Sqlite.Projects.{cascade_pods, insert_project, insert_deployment, delete_project}
use nexad.Sqlite.Pods.{insert_pod, list_pods}
use nexad.Sqlite.Nodes.{insert_node, get_node, update_node, null_column}
use nexad.Sqlite.Integrity.{IsSound}
use nexad.Sqlite.Runs.{
  Statement, insert_project_of, insert_deployment_of, insert_pod_of, delete_project_of, apply, run,
  run-IsSound,
}
use nexad.Sqlite.NodeLaws.{IsReadable, get_node-insert_node, get_node-update_node}

abbrev number : Codec ℕ
number = record {
  show = λ n. n ∷ [];
  parse = λ t. elim t [ [] ↦ none | n ∷ rest ↦ some n ];
  error = λ t. text "bad number";
}

abbrev show_role : NodeRole → Text
show_role master = text "m"
show_role worker = text "w"

abbrev role : Codec NodeRole
role = record {
  show = show_role;
  parse = λ t. elim t [ [] ↦ none | c ∷ rest ↦ some (if c == b'm' then master else worker) ];
  error = λ t. text "bad role";
}

role-IsFaithful : IsFaithful role
role-IsFaithful master = refl
role-IsFaithful worker = refl

abbrev show_status : NodeStatus → Text
show_status ready = text "r"
show_status not_ready = text "n"
show_status draining = text "d"

abbrev node_status : Codec NodeStatus
node_status = record {
  show = show_status;
  parse = λ t. elim t [
    | [] ↦ none
    | c ∷ rest ↦ some (if c == b'r' then ready else if c == b'n' then not_ready else draining)
  ];
  error = λ t. text "bad status";
}

node_status-IsFaithful : IsFaithful node_status
node_status-IsFaithful ready = refl
node_status-IsFaithful not_ready = refl
node_status-IsFaithful draining = refl

-- A specification is its project; its name is one letter more.
abbrev pub driver : Driver Text
driver = record {
  uuid = number;
  time = number;
  role = role;
  node_status = node_status;
  pod_status = number;
  deployment_status = number;
  project_status = number;
  spec_to_json = λ s. some s;
  spec_from_json = λ t. some t;
  spec_project = λ s. s;
  spec_name = λ s. b'x' ∷ s;
  unique_failed = λ t. t;
  not_null_failed = λ t. t;
  foreign_key_failed = text "FOREIGN KEY constraint failed";
}

pub driver-IsReadable : IsReadable driver
driver-IsReadable = record {
  uuid = λ n. refl;
  time = λ n. refl;
  role = role-IsFaithful;
  node_status = node_status-IsFaithful;
}

abbrev pod : ℕ → ℕ → Pod
pod id deployment_id = record {
  id = id;
  deployment_id = deployment_id;
  project = text "p";
  deployment_name = text "xp";
  replica_index = 0;
  node_id = none;
  container_id = none;
  container_ip = none;
  status = 0;
  image = text "nginx";
  restart_count = 0;
  created_at = 5;
}

abbrev deployment : ℕ → Text → Deployment Text
deployment id project = record {
  id = id;
  spec = project;
  status = 0;
  created_at = 2;
  updated_at = 3;
}

abbrev project : Text → Project
project name = record { name = name; status = 0; created_at = 1 }

-- A pod without its deployment is refused, and the removal of `p` leaves the rows of `q`.
abbrev statements : List (Option Text × Statement Text)
statements =
    (none, insert_project_of (project (text "p")))
    ∷ (none, insert_project_of (project (text "q")))
    ∷ (none, insert_deployment_of (deployment 10 (text "p")))
    ∷ (none, insert_deployment_of (deployment 11 (text "q")))
    ∷ (none, insert_pod_of (pod 20 10))
    ∷ (none, insert_pod_of (pod 21 99))
    ∷ (some (text "disk full"), insert_pod_of (pod 22 11))
    ∷ (none, insert_pod_of (pod 23 11))
    ∷ (none, delete_project_of (text "p"))
    ∷ []

pods_left : list_pods driver none (run driver statements empty_database) none ≡ ok (pod 23 11 ∷ [])
unfolding run apply insert_project insert_deployment insert_pod delete_project cascade_pods
    list_pods project_row deployment_row pod_row row_to_pod
pods_left = refl

run-IsSound_example : IsSound (run driver statements empty_database)
run-IsSound_example = run-IsSound driver statements

abbrev pub node : ℕ → Text → NodeStatus → ℕ → Node
node id name status joined = record {
  id = id;
  name = name;
  address = text "10.0.0.1:6444";
  role = worker;
  status = status;
  resources = record {
    cpu_cores = 0;
    memory_bytes = 2 ^ 63;
    cpu_available = 0;
    memory_available = 0;
    running_pods = 2 ^ 31;
  };
  last_heartbeat = 7;
  joined_at = joined;
}

pub node-IsRegular :
    (id : ℕ) (name : Text) (status : NodeStatus) (joined : ℕ)
    → IsRegular (node id name status joined).resources
unfolding has_nan is_nan
node-IsRegular id name status joined = record {
  memory_bytes = omega arith;
  memory_available = omega arith;
  running_pods = omega arith;
  numbers = refl;
}

-- the infinities are numbers, and the sign is not looked at
nan_bits :
    (is_nan 0x7FF0000000000000 ≡ false)
    × (is_nan 0xFFF0000000000000 ≡ false)
    × (is_nan 0x7FF8000000000000 ≡ true)
    × (is_nan 0xFFF8000000000001 ≡ true)
unfolding is_nan
nan_bits = (refl, refl, refl, refl)

abbrev no_number : Node
no_number = record (node 1 (text "a") ready 3) {
  resources = record (node 1 (text "a") ready 3).resources { cpu_available = 0x7FF8000000000000 };
}

nan_refused :
    insert_node driver none empty_database no_number
    ≡ (err (runtime (text "nodes.cpu_available")), empty_database)
unfolding insert_node has_nan is_nan null_column
nan_refused = refl

words_read_back :
    let done = insert_node driver none empty_database (node 1 (text "a") ready 3) in
    get_node driver none done.1 1 ≡ (
      if is_ok done.0 && ◌==◌ {K = ℕ} 1 1
      then ok (some (node 1 (text "a") ready 3))
      else get_node driver none empty_database 1)
words_read_back =
    get_node-insert_node driver driver-IsReadable none empty_database (node 1 (text "a") ready 3) 1
      (node-IsRegular 1 (text "a") ready 3)

abbrev one_node : Database
one_node = record empty_database { nodes = node_row driver (node 1 (text "a") ready 3) ∷ [] }

joined_at_kept :
    let done = update_node driver none one_node (node 1 (text "b") draining 9) in
    get_node driver none done.1 1 ≡ (
      if is_ok done.0 && ◌==◌ {K = ℕ} 1 1
      then ok (some (node 1 (text "b") draining 3))
      else get_node driver none one_node 1)
unfolding get_node node_row row_to_node
joined_at_kept =
    get_node-update_node driver driver-IsReadable none one_node (node 1 (text "b") draining 9)
      (node 1 (text "a") ready 3) 1 (node-IsRegular 1 (text "b") draining 9) refl
