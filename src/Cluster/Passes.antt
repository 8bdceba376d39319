-- ===== src/Cluster/Passes.antt =====
-- `run_monitor` of src/cluster/heartbeat.rs: a pass at each tick of its interval; and its passes among
-- the messages of the workers. A pass is one step here: the code awaits between listing the nodes and
-- writing them, and a message that comes in between is the subject of Cluster.Lost.
use nexad.Prelude.{ℕ, zero, suc, ◌+◌, Text, Option, List, [], ◌∷◌, ◌++◌}
use nexad.Cluster.Nodes.{NodeRole, NodeResources, Node, StateStore}
use nexad.Cluster.Heartbeat.{secs, Call, check_nodes}
use nexad.Cluster.Server.{HeartbeatPing, heartbeat}

abbrev pub monitor_interval : ℕ
monitor_interval = secs 10

-- the times of the first ticks of an interval
abbrev pub interval : ℕ → ℕ → List ℕ
interval start zero = []
interval start (suc k) = start ∷ interval (start + monitor_interval) k

-- A pass at each of the times; the error of a pass is logged only. Of the loop, which never ends, the
-- ticks by some time.
unfoldable pub run_monitor {ℓ} : {S : Type ℓ} → StateStore S → List ℕ → S → List Call × S
run_monitor store [] s = ([], s)
run_monitor store (now ∷ later) s =
    let pass = check_nodes store now s in
    let rest = run_monitor store later pass.2 in (pass.1 ++ rest.0, rest.1)

-- a tick of the monitor, or a message of a worker, each with its time
pub data Event : Type 0 where
  tick : ℕ → Event
  message : ℕ → HeartbeatPing → Event

abbrev pub ticks : List Event → List ℕ
ticks [] = []
ticks (tick now ∷ events) = now ∷ ticks events
ticks (message t ping ∷ events) = ticks events

module _ {ℓ} {S : Type ℓ} (store : StateStore S) (token_hash : Text) (digest : Text → Text)
    (show_uuid : ℕ → Text) (parse_uuid : Text → Option ℕ)
    (new_node : Text → Text → NodeRole → NodeResources → Node)
    (zero_resources : NodeResources) where
  abbrev pub step : Event → S → S
  step (tick now) s = (check_nodes store now s).2
  step (message t ping) s =
      (heartbeat store token_hash digest show_uuid parse_uuid new_node zero_resources t ping s).1

  abbrev pub run : List Event → S → S
  run [] s = s
  run (event ∷ events) s = run events (step event s)
