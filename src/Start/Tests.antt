-- ===== src/Start/Tests.antt =====
-- A start on a store whose token was rotated, and one on a fresh store.
use nexad.Prelude.{ℕ, ◌≡◌, refl, true, false, some, List, [], ◌∷◌, Text, text, byte_eq, list_eq}
use nexad.HashMap.{get, insert}
use nexad.Result.{NexaError, ok, value}
use nexad.Cluster.Nodes.{NodeRole, NodeStatus, master, ready, NodeResources, Node}
use nexad.Cluster.Token.{generate_token, hash_token}
use nexad.Cluster.Server
use nexad.Api.Response.{error, not_found}
use nexad.Api.Admin.{cluster_token_rotate, cluster_token_show}
use nexad.Api.Table.{Tables, tables_store, tables_configured}
use nexad.Runtime.Detect.{docker, from_str, resolve, auto_detect}
use nexad.Start.Choice.{runtime_of}
use nexad.Start.Master.{token_hash, start_master}
use nexad.Start.MasterLaws.{start_master-cluster_token_rotate}

abbrev empty : Tables
empty = (record { rows = []; distinct = tt; pod_rows = [] }, [])

abbrev no_text : NexaError → Text
no_text e = []

abbrev no_status : NodeStatus → Text
no_status s = []

abbrev same : List ℕ → Text
same bytes = bytes

abbrev zero_resources : NodeResources
zero_resources = record {
  cpu_cores = 0;
  memory_bytes = 0;
  cpu_available = 0;
  memory_available = 0;
  running_pods = 0;
}

abbrev new_node : Text → Text → NodeRole → NodeResources → Node
new_node name address role resources = record {
  id = 1;
  name = name;
  address = address;
  role = role;
  status = ready;
  resources = resources;
  last_heartbeat = 0;
  joined_at = 0;
}

abbrev master_node : Node
master_node = new_node (text "m") (text "10.0.0.1") master zero_resources

start_master-cluster_token_rotate_example :
    let token = generate_token same (λ t. true) same (1 ∷ 2 ∷ []) in
    let hash = hash_token same (λ t. true) same token in
    let rotated =
      (cluster_token_rotate tables_store no_text no_status same same (1 ∷ 2 ∷ []) empty).1 in
    ((cluster_token_show tables_store no_text no_status
          (start_master tables_store same same master_node (3 ∷ []) empty).1
        ≡ cluster_token_show tables_store no_text no_status empty)
      × (start_master tables_store same same master_node (3 ∷ []) rotated
          ≡ (ok hash, (tables_store.nodes.insert_node rotated master_node).1)))
    × (Server.verify_token tables_store.nodes hash same
          (λ n. n ∷ [])
          (λ t. some 1)
          new_node
          zero_resources
          token
        ≡ true)
start_master-cluster_token_rotate_example =
    start_master-cluster_token_rotate tables_store tables_configured no_text no_status same same
      master_node (1 ∷ 2 ∷ []) (3 ∷ []) empty (λ n. n ∷ []) (λ t. some 1) new_node zero_resources
      refl

-- after the first start no token is shown
first_start :
    cluster_token_show tables_store no_text no_status
      (token_hash tables_store same same (3 ∷ []) empty).1
    ≡ record { status = not_found; body = error (text "cluster not initialized") }
unfolding cluster_token_show token_hash generate_token hash_token get insert
first_start = refl

-- where neither runtime is there, `auto` is Docker
no_runtime : runtime_of same (false, false) (text "auto") ≡ value docker
unfolding runtime_of from_str resolve auto_detect
no_runtime = refl
