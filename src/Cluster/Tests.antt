-- ===== src/Cluster/Tests.antt =====
-- A cluster of a master and two workers, one of which has been silent for a minute.
use nexad.Prelude.{
  ℕ, ◌+◌, ◌*◌, ◌/◌, ◌%◌, ◌≡◌, refl, true, Option, none, some, List, [], ◌∷◌, ◌++◌, arith, Text,
  text, ◌==◌, byte_eq, list_eq, ◌&&◌, not, if◌then◌else◌, All, length,
}
use nexad.HashMap.{is_some}
use nexad.Str.{starts_with}
use nexad.Result.{ok}
use nexad.Cluster.Nodes.{
  NodeRole, master, worker, ready, NodeResources, has_nan, is_nan, IsRegular, Node, Pod,
}
use nexad.Cluster.Heartbeat.{secs, check_nodes, check_all, check_node, mark_not_ready}
use nexad.Cluster.Lawful.{find_node, find_named}
use nexad.Cluster.Monitor.{IsDue, check_nodes-IsDue}
use nexad.Cluster.Server.{RegisterRequest, HeartbeatPing, node_of, register, refreshed, heartbeat}
use nexad.Cluster.Registration.{is_accepted, register_lem, heartbeat-check_nodes}
use nexad.Cluster.Token.{
  generate_token, hash_token, verify_token, validate_token_format, validate-generate,
  validate_token_format_lem, token_prefix,
}
use nexad.Cluster.Table.{Table, table_store, table_laws, put}

abbrev pub none_used : NodeResources
none_used = record {
  cpu_cores = 0;
  memory_bytes = 0;
  cpu_available = 0;
  memory_available = 0;
  running_pods = 0;
}

pub none_used-IsRegular : IsRegular none_used
unfolding has_nan is_nan
none_used-IsRegular = record {
  memory_bytes = omega arith;
  memory_available = omega arith;
  running_pods = omega arith;
  numbers = refl;
}

abbrev pub node : ℕ → Text → NodeRole → ℕ → Node
node id name role seen = record {
  id = id;
  name = name;
  address = text "10.0.0.1:6444";
  role = role;
  status = ready;
  resources = none_used;
  last_heartbeat = seen;
  joined_at = 0;
}

abbrev pod : ℕ → Option ℕ → Pod
pod id node_id = record {
  id = id;
  deployment_id = 1;
  project = text "p";
  deployment_name = text "web";
  replica_index = 0;
  node_id = node_id;
  container_id = none;
  container_ip = none;
  status = 1;
  image = text "nginx";
  restart_count = 0;
  created_at = 0;
}

abbrev pub table : Table
table = record {
  rows =
      node 1 (text "m") master (secs 0)
      ∷ node 2 (text "a") worker (secs 100)
      ∷ node 3 (text "b") worker (secs 40)
      ∷ [];
  distinct = (refl, (refl, (refl, tt)));
  pod_rows = pod 7 (some 3) ∷ pod 8 none ∷ pod 9 (some 2) ∷ [];
}

silent_worker : (check_nodes table_store (secs 101) table).1 ≡ (3, pod 7 (some 3) ∷ []) ∷ []
unfolding check_nodes check_all check_node mark_not_ready put
silent_worker = refl

check_nodes-IsDue_example :
    All (IsDue (secs 101) table.rows) (check_nodes table_store (secs 101) table).1
check_nodes-IsDue_example = check_nodes-IsDue table_store (secs 101) table table.rows refl

-- a digest, and a text form of an id, that keep their argument
abbrev pub digest : Text → Text
digest token = token

abbrev pub show_uuid : ℕ → Text
show_uuid id = id ∷ []

abbrev pub parse_uuid : Text → Option ℕ
parse_uuid [] = none
parse_uuid (c ∷ s) = some c

abbrev pub new_node : Text → Text → NodeRole → NodeResources → Node
new_node name address role resources = record (node 4 name role 0) { resources = resources }

abbrev request : RegisterRequest
request = record {
  token = text "nxa_1";
  node_name = text "c";
  node_address = text "10.0.0.4:6444";
  resources = none;
}

register_lem_example :
    let n =
      node_of table_store (text "nxa_1") digest show_uuid parse_uuid new_node none_used request in
    let done =
      register table_store
        (text "nxa_1")
        digest
        show_uuid
        parse_uuid
        new_node
        none_used
        request
        table in
    (is_accepted done.0 ≡ (
      text "nxa_1" == text "nxa_1"
      && (not (is_some (find_named (text "c") table.rows))
          && not (is_some (find_node n.id table.rows)))))
    × ((name : Text)
        → find_named name done.1.rows
          ≡ (if is_accepted done.0 && text "c" == name then some n else find_named name table.rows))
register_lem_example =
    register_lem table_store table_laws (text "nxa_1") digest show_uuid parse_uuid new_node
      none_used (λ n a r res. refl) request table none_used-IsRegular

abbrev ping : HeartbeatPing
ping = record { node_id = 3 ∷ []; status = text "ready"; resources = none }

pinged_stays_ready :
    let pinged =
      (heartbeat table_store
        (text "nxa_1")
        digest
        show_uuid
        parse_uuid
        new_node
        none_used
        (secs 90)
        ping
        table).1 in
    let kept =
      refreshed table_store
        (text "nxa_1")
        digest
        show_uuid
        parse_uuid
        new_node
        none_used
        (secs 90)
        ping
        (node 3 (text "b") worker (secs 40)) in
    (find_node 3 (check_nodes table_store (secs 101) pinged).2.rows ≡ some kept)
    × (kept.status ≡ ready)
pinged_stays_ready =
    heartbeat-check_nodes table_store table_laws (text "nxa_1") digest show_uuid parse_uuid new_node
      none_used (secs 90) (secs 101) 3 ping table (node 3 (text "b") worker (secs 40)) refl refl
      refl (omega arith) (λ r e. ground (arith, e))

-- two letters for each byte
abbrev letters : List ℕ → Text
letters [] = []
letters (b ∷ bytes) = (97 + b / 16) ∷ ((97 + b % 16) ∷ letters bytes)

length-letters : (bytes : List ℕ) → length (letters bytes) ≡ 2 * length bytes
length-letters [] = omega arith
length-letters (b ∷ bytes) = omega (arith, length-letters bytes)

abbrev bytes : List ℕ
bytes =
    0 ∷ 1 ∷ 2 ∷ 3 ∷ 4 ∷ 5 ∷ 6 ∷ 7 ∷ 8 ∷ 9 ∷ 10 ∷ 11 ∷ 12 ∷ 13 ∷ 14 ∷ 15 ∷ 16 ∷ 17 ∷ 18 ∷ 19 ∷ 20
    ∷ 21 ∷ 22 ∷ 23 ∷ 24 ∷ 25 ∷ 26 ∷ 27 ∷ 28 ∷ 29 ∷ 30 ∷ 255 ∷ []

generated_token :
    let token = generate_token letters (λ s. true) digest bytes in
    (validate_token_format letters (λ s. true) digest token ≡ ok tt)
    × (verify_token letters (λ s. true) digest token (hash_token letters (λ s. true) digest token)
        ≡ true)
generated_token =
    validate-generate letters (λ s. true) digest bytes refl length-letters (λ bs. refl)

accepted_token :
    (hex_part : Text) × (token_prefix ++ letters bytes ≡ token_prefix ++ hex_part)
    × (length hex_part ≡ 64)
    × (true ≡ true)
unfolding validate_token_format starts_with
accepted_token =
    validate_token_format_lem letters (λ s. true) digest (token_prefix ++ letters bytes) refl
