-- ===== src/Cluster/Sender.antt =====
-- The worker's side of src/cluster/heartbeat.rs: its readings of the system, and its messages.
use nexad.Prelude.{ℕ, some, Bool, true, false, List, [], ◌∷◌, map, Text, text, ◌++◌, length}
use nexad.Result.{Outcome, failed, value}
use nexad.Cluster.Nodes.{NodeResources}
use nexad.Cluster.Server.{HeartbeatPing}

-- What `sysinfo` reports: the usage of each processor in percent, a number of 32 bits, and the memory.
pub record System : Type 0 where
  pub cpus : List ℕ
  pub total_memory : ℕ
  pub available_memory : ℕ

-- The operations on floating-point numbers of 64 bits, a number being its bits.
pub record F64 : Type 0 where
  pub of_usize : ℕ → ℕ
  pub of_f32 : ℕ → ℕ
  pub div : ℕ → ℕ → ℕ
  pub sub : ℕ → ℕ → ℕ
  pub max : ℕ → ℕ → ℕ
  pub sum : List ℕ → ℕ
  pub mul : ℕ → ℕ → ℕ
  pub round : ℕ → ℕ
  pub lt : ℕ → ℕ → Bool

unfoldable pub collect_resources : F64 → System → NodeResources
collect_resources f sys =
    let cpu_cores = f.of_usize (length sys.cpus) in
    let cpu_used = f.sum (map (λ usage. f.div (f.of_f32 usage) (f.of_usize 100)) sys.cpus) in
    record {
      cpu_cores = cpu_cores;
      memory_bytes = sys.total_memory;
      cpu_available = f.max (f.sub cpu_cores cpu_used) (f.of_usize 0);
      memory_available = sys.available_memory;
      running_pods = 0;
    }

-- The message of a tick; its list of pod statuses is empty.
unfoldable pub ping_of : F64 → (ℕ → Text) → ℕ → System → HeartbeatPing
ping_of f show_uuid node_id sys = record {
  node_id = show_uuid node_id;
  status = text "ready";
  resources = some (collect_resources f sys);
}

-- The messages that the sender task puts on the channel, for what it reads at its ticks and whether the
-- channel is still open at them: it stops at the first tick where it is not.
unfoldable pub sent : F64 → (ℕ → Text) → ℕ → List (Bool × System) → List HeartbeatPing
sent f show_uuid node_id [] = []
sent f show_uuid node_id ((true, sys) ∷ later) =
    ping_of f show_uuid node_id sys ∷ sent f show_uuid node_id later
sent f show_uuid node_id ((false, sys) ∷ later) = []

-- `run_heartbeat_sender`: its result, and the messages that its task sends. The task is started before
-- the call of the master, and the answers are only read, until they end or one is an error.
unfoldable pub run_heartbeat_sender :
    F64
    → (ℕ → Text)
    → (connect : Text → Outcome (Unit {0})) (call : Outcome (Unit {0}))
      (sampled : List (Bool × System)) (master_addr : Text) (node_id : ℕ)
    → Outcome (Unit {0}) × List HeartbeatPing
run_heartbeat_sender f show_uuid connect call sampled master_addr node_id =
    elim (connect (text "http://" ++ master_addr)) [
      | failed e ↦ (failed e, [])
      | value u ↦ (call, sent f show_uuid node_id sampled)
    ]
