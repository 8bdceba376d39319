-- ===== src/Api/Tests.antt =====
-- A cluster of a master and one worker, with its handlers.
use nexad.Prelude.{
  ℕ, ◌-◌, ◌*◌, ◌/◌, ltb, ◌≡◌, refl, true, arith, Option, none, some, List, [], ◌∷◌, Text, text,
  ◌==◌, byte_eq, list_eq, if◌then◌else◌,
}
use nexad.Result.{NexaError}
use nexad.Cluster.Nodes.{
  NodeRole, master, worker, NodeStatus, ready, NodeResources, has_nan, is_nan, IsRegular, Node,
}
use nexad.Cluster.Server.{heartbeat}
use nexad.Cluster.Sender.{System, F64, collect_resources, ping_of}
use nexad.Api.Undrained.{drain_node-heartbeat}
use nexad.Cluster.Lawful.{find_node}
use nexad.Cluster.Token.{generate_token, hash_token, verify_token}
use nexad.Api.Response.{status_ok, conflict, answer}
use nexad.Api.Admin.{
  drain_node, remove_node, cluster_init, cluster_token_rotate, cluster_token_show,
}
use nexad.Api.NodeLaws.{remove_node_lem, drain_node-remove_node}
use nexad.Api.TokenLaws.{cluster_token_rotate-cluster_token_show}
use nexad.Api.Table.{Tables, tables_store, tables_admin, tables_configured}

abbrev node : ℕ → Text → NodeRole → Node
node id name role = record {
  id = id;
  name = name;
  address = text "10.0.0.1:6444";
  role = role;
  status = ready;
  resources = record {
    cpu_cores = 0;
    memory_bytes = 0;
    cpu_available = 0;
    memory_available = 0;
    running_pods = 0;
  };
  last_heartbeat = 0;
  joined_at = 0;
}

abbrev w1 : Node
w1 = node 2 (text "w1") worker

abbrev state : Tables
state = (
  record {
    rows = node 1 (text "m") master ∷ w1 ∷ [];
    distinct = (refl, (refl, tt));
    pod_rows = [];
  },
  [],
)

abbrev no_text : NexaError → Text
no_text e = []

abbrev no_status : NodeStatus → Text
no_status s = []

drain_node-remove_node_example :
    let first = drain_node tables_store no_text no_status (text "w1") state in
    let then_ = remove_node tables_store no_text no_status (text "w1") first.1 in
    ((first.0.status ≡ status_ok) × (then_.0.status ≡ status_ok))
    × (find_node 2 then_.1.0.rows ≡ (if ◌==◌ {K = ℕ} 2 2 then none else find_node 2 state.0.rows))
drain_node-remove_node_example =
    drain_node-remove_node tables_store tables_admin no_text no_status (text "w1") state w1 2 refl

-- a ready worker is not removed
remove_node_lem_example :
    let done = remove_node tables_store no_text no_status (text "w1") state in
    (done.0.status ≡ conflict) × (find_node 2 done.1.0.rows ≡ some w1)
remove_node_lem_example =
    remove_node_lem tables_store tables_admin no_text no_status (text "w1") state 2

abbrev same : List ℕ → Text
same bytes = bytes

cluster_token_rotate-cluster_token_show_example :
    let done = cluster_token_rotate tables_store no_text no_status same same (1 ∷ 2 ∷ []) state in
    let token = generate_token same (λ t. true) same (1 ∷ 2 ∷ []) in
    let hash = hash_token same (λ t. true) same token in
    ((done ≡ cluster_init tables_store no_text no_status same same (1 ∷ 2 ∷ []) state)
      × (done.0.status ≡ status_ok))
    × (((tables_configured.config done.1 (text "join_token_hash") ≡ some hash)
          × (verify_token same (λ t. true) same token hash ≡ true))
        × (cluster_token_show tables_store no_text no_status done.1 ≡ answer token))
cluster_token_rotate-cluster_token_show_example =
    cluster_token_rotate-cluster_token_show tables_store tables_configured no_text no_status same
      same (1 ∷ 2 ∷ []) state

-- a processor that is idle, with numbers for floating-point numbers
abbrev system : System
system = record { cpus = 0 ∷ []; total_memory = 8; available_memory = 4 }

abbrev f64 : F64
f64 = record {
  of_usize = λ n. n;
  of_f32 = λ n. n;
  div = λ a b. a / b;
  sub = λ a b. a - b;
  max = λ a b. a;
  sum = λ xs. 0;
  mul = λ a b. a * b;
  round = λ a. a;
  lt = λ a b. ltb a b;
}

system-IsRegular : IsRegular (collect_resources f64 system)
unfolding collect_resources has_nan is_nan
system-IsRegular = record {
  memory_bytes = omega arith;
  memory_available = omega arith;
  running_pods = omega arith;
  numbers = refl;
}

abbrev show_uuid : ℕ → Text
show_uuid id = id ∷ []

abbrev parse_uuid : Text → Option ℕ
parse_uuid [] = none
parse_uuid (c ∷ s) = some c

abbrev new_node : Text → Text → NodeRole → NodeResources → Node
new_node name address role resources = record (node 4 name role) { resources = resources }

drain_node-heartbeat_example :
    let drained = drain_node tables_store no_text no_status (text "w1") state in
    let s' =
      (heartbeat tables_store.nodes
        (text "h")
        same
        show_uuid
        parse_uuid
        new_node
        w1.resources
        9
        (ping_of f64 show_uuid 2 system)
        drained.1).1 in
    let removed = remove_node tables_store no_text no_status (text "w1") s' in
    ((drained.0.status ≡ status_ok) × (removed.0.status ≡ conflict))
    × (find_node 2 removed.1.0.rows
        ≡ some (record w1 {
          last_heartbeat = 9;
          status = ready;
          resources = collect_resources f64 system;
        }))
drain_node-heartbeat_example =
    drain_node-heartbeat tables_store tables_admin no_text no_status (text "h") same show_uuid
      parse_uuid new_node w1.resources f64 system 9 (text "w1") state w1 refl refl refl
      system-IsRegular
