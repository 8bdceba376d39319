-- ===== src/Cluster/Nodes.antt =====
-- The nodes and pods that the cluster keeps, and the store that the cluster code is given
-- (`dyn StateStore`): what src/cluster/heartbeat.rs and src/cluster/server.rs use of them.
use nexad.Prelude.{ℕ, ◌<◌, ◌^◌, ◌%◌, ◌≡◌, ◌||◌, ltb, Bool, true, false, Option, List, Text}
use nexad.Result.{Result}

pub data NodeRole : Type 0 where
  master worker : NodeRole

pub data NodeStatus : Type 0 where
  ready not_ready draining : NodeStatus

abbrev pub is_master : NodeRole → Bool
is_master master = true
is_master worker = false

abbrev pub is_not_ready : NodeStatus → Bool
is_not_ready not_ready = true
is_not_ready ready = false
is_not_ready draining = false

-- A floating-point number is the 64 bits of its form, the two zeros counted as one: it is only passed
-- on.
pub record NodeResources : Type 0 where
  pub cpu_cores : ℕ
  pub memory_bytes : ℕ
  pub cpu_available : ℕ
  pub memory_available : ℕ
  pub running_pods : ℕ

-- Whether the 64 bits are those of no number.
unfoldable pub is_nan : ℕ → Bool
is_nan bits = ltb 0x7FF0000000000000 (bits % 2 ^ 63)

unfoldable pub has_nan : NodeResources → Bool
has_nan r = is_nan r.cpu_cores || is_nan r.cpu_available

-- The fields that Rust keeps in words are words, and the floating-point ones are numbers.
pub record IsRegular (r : NodeResources) : Type 0 where
  pub memory_bytes : r.memory_bytes < 2 ^ 64
  pub memory_available : r.memory_available < 2 ^ 64
  pub running_pods : r.running_pods < 2 ^ 32
  pub numbers : has_nan r ≡ false

-- An id is a number of 128 bits, a time the nanoseconds since 1970.
pub record Node : Type 0 where
  pub id : ℕ
  pub name : Text
  pub address : Text
  pub role : NodeRole
  pub status : NodeStatus
  pub resources : NodeResources
  pub last_heartbeat : ℕ
  pub joined_at : ℕ

-- The status is the number of its variant in the core library.
pub record Pod : Type 0 where
  pub id : ℕ
  pub deployment_id : ℕ
  pub project : Text
  pub deployment_name : Text
  pub replica_index : ℕ
  pub node_id : Option ℕ
  pub container_id : Option Text
  pub container_ip : Option Text
  pub status : ℕ
  pub image : Text
  pub restart_count : ℕ
  pub created_at : ℕ

pub record StateStore {ℓ} (S : Type ℓ) : Type ℓ where
  pub list_nodes : S → Result (List Node)
  pub get_node : S → ℕ → Result (Option Node)
  pub get_node_by_name : S → Text → Result (Option Node)
  pub insert_node : S → Node → Result (Unit {0}) × S
  pub update_node : S → Node → Result (Unit {0}) × S
  pub list_pods : S → Option Text → Result (List Pod)
