-- ===== src/Api/Stats.antt =====
-- `node_stats` of src/api/handlers.rs.
use nexad.Prelude.{
  ℕ, ◌+◌, ◌-◌, ◌%◌, ◌^◌, Bool, ◌||◌, Option, none, some, List, [], ◌∷◌, map, Text, text, ◌==◌,
  byte_eq, list_eq, if◌then◌else◌, is_empty, length, retain,
}
use nexad.Str.{starts_with}
use nexad.Result.{Result, ok, err}
use nexad.Cluster.Nodes.{NodeRole, NodeStatus, Node, Pod, StateStore}
use nexad.Cluster.Sender.{F64}

pub record NodeStats : Type 0 where
  pub name : Text
  pub role : Text
  pub status : Text
  pub cpu_cores : ℕ
  pub cpu_usage_percent : ℕ
  pub memory_total_bytes : ℕ
  pub memory_used_bytes : ℕ
  pub pod_count : ℕ

-- What the system reports: the usage of each processor in percent, a number of 32 bits, the memory, and
-- the host's name, if it can be read.
pub record Local : Type 0 where
  pub cpus : List ℕ
  pub total_memory : ℕ
  pub used_memory : ℕ
  pub hostname : Option Text

abbrev pub or_unknown : Option Text → Text
or_unknown none = text "unknown"
or_unknown (some name) = name

-- A subtraction of words, which wraps in a release build.
abbrev pub wrapping_sub : ℕ → ℕ → ℕ
wrapping_sub a b = (a + (2 ^ 64 - b)) % 2 ^ 64

abbrev pub nodes_or_default : Result (List Node) → List Node
nodes_or_default (err e) = []
nodes_or_default (ok nodes) = nodes

-- `role_text` and `status_text` are `to_string().to_lowercase()`, `is_running` the comparison with the
-- core library's status.
module _ (f : F64) (role_text : NodeRole → Text) (status_text : NodeStatus → Text)
    (is_running : ℕ → Bool) where
  abbrev pub rounded : ℕ → ℕ
  rounded x = f.div (f.round (f.mul x (f.of_usize 10))) (f.of_usize 10)

  abbrev pub cpu_count : Local → ℕ
  cpu_count l = f.of_usize (length l.cpus)

  abbrev pub cpu_usage : Local → ℕ
  cpu_usage l = f.div (f.sum (map f.of_f32 l.cpus)) (cpu_count l)

  abbrev pub running_count : Result (List Pod) → ℕ
  running_count (err e) = 0
  running_count (ok pods) = length (retain (λ p. is_running p.status) pods) % 2 ^ 32

  abbrev pub single_stats : Local → ℕ → NodeStats
  single_stats l pod_count = record {
    name = or_unknown l.hostname;
    role = text "master";
    status = text "ready";
    cpu_cores = cpu_count l;
    cpu_usage_percent = rounded (cpu_usage l);
    memory_total_bytes = l.total_memory;
    memory_used_bytes = l.used_memory;
    pod_count = pod_count;
  }

  abbrev pub local_stats : Local → Node → NodeStats
  local_stats l node = record {
    name = node.name;
    role = role_text node.role;
    status = status_text node.status;
    cpu_cores = cpu_count l;
    cpu_usage_percent = rounded (cpu_usage l);
    memory_total_bytes = l.total_memory;
    memory_used_bytes = l.used_memory;
    pod_count = node.resources.running_pods;
  }

  unfoldable pub remote_stats : Node → NodeStats
  remote_stats node =
      let r = node.resources in
      record {
        name = node.name;
        role = role_text node.role;
        status = status_text node.status;
        cpu_cores = r.cpu_cores;
        cpu_usage_percent =
            if f.lt (f.of_usize 0) r.cpu_cores
            then f.div
                (f.round (
                  f.mul
                    (f.mul (f.div (f.sub r.cpu_cores r.cpu_available) r.cpu_cores) (f.of_usize 100))
                    (f.of_usize 10)))
                (f.of_usize 10)
            else f.of_usize 0;
        memory_total_bytes = r.memory_bytes;
        memory_used_bytes = wrapping_sub r.memory_bytes r.memory_available;
        pod_count = r.running_pods;
      }

  abbrev pub is_local : Local → Node → Bool
  is_local l node = node.name == or_unknown l.hostname || starts_with node.address (text "127.")

  abbrev pub stats_of : Local → Node → NodeStats
  stats_of l node = if is_local l node then local_stats l node else remote_stats node

  -- the list that is answered
  unfoldable pub node_stats {ℓ} : {S : Type ℓ} → StateStore S → Local → S → List NodeStats
  node_stats store l s =
      let nodes = nodes_or_default (store.list_nodes s) in
      if is_empty nodes
      then single_stats l (running_count (store.list_pods s none)) ∷ []
      else map (stats_of l) nodes
