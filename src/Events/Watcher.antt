-- ===== src/Events/Watcher.antt =====
-- `handle_event_stream` of src/adapters/event_watcher.rs.
use nexad.Prelude.{
  ℕ, ℤ, pos, negsuc, zero, suc, Bool, false, Option, none, some, List, [], ◌∷◌, ◌++◌, Text, text,
  ◌==◌, byte_eq, if◌then◌else◌,
}
use nexad.Str.Decimal.{show}

-- An exit code that the runtime does not know is -1.
abbrev pub show_int : ℤ → Text
show_int (pos n) = show n
show_int (negsuc n) = b'-' ∷ show (suc n)

abbrev pub is_killed : ℤ → Bool
is_killed (pos n) = n == 137
is_killed (negsuc n) = false

pub data RuntimeEvent : Type 0 where
  container_died : Text → ℤ → RuntimeEvent
  container_oom container_started : Text → RuntimeEvent

pub record ClusterEvent : Type 0 where
  pub timestamp : ℕ
  pub kind : Text
  pub name : Text
  pub action : Text
  pub message : Text

-- `Command::ContainerExited`: the pod and the exit code
abbrev pub Command : Type 0
Command = ℕ × ℤ

-- The commands that the orchestrator got, the broadcast events, and the recorded metrics.
pub record Outcome : Type 0 where
  pub commands : List Command
  pub broadcasts : List ClusterEvent
  pub metrics : List Text

abbrev pub quiet : Outcome
quiet = record { commands = []; broadcasts = []; metrics = [] }

abbrev pub metric : RuntimeEvent → Text
metric (container_died id code) = text "died"
metric (container_oom id) = text "oom"
metric (container_started id) = text "started"

abbrev pub pod_event : ℕ → Text → Text → Text → ClusterEvent
pod_event now id action message = record {
  timestamp = now;
  kind = text "pod";
  name = id;
  action = action;
  message = message;
}

unfoldable pub cluster_event : ℕ → RuntimeEvent → ClusterEvent
cluster_event now (container_died id code) =
    pod_event now id (if is_killed code then text "OOMKilled" else text "died")
      (text "Container exited with code " ++ show_int code)
cluster_event now (container_oom id) =
    pod_event now id (text "OOMKilled") (text "Container killed by OOM")
cluster_event now (container_started id) =
    pod_event now id (text "started") (text "Container started")

-- `parse_uuid` reads an id of 128 bits.
module _ (parse_uuid : Text → Option ℕ) where
  abbrev pub exited : ℤ → Option ℕ → Option Command
  exited code none = none
  exited code (some pod_id) = some (pod_id, code)

  abbrev pub command : RuntimeEvent → Option Command
  command (container_died id code) = exited code (parse_uuid id)
  command (container_oom id) = exited (pos 137) (parse_uuid id)
  command (container_started id) = none

  abbrev pub add_command : Command → Outcome → Outcome
  add_command c o = record o { commands = c ∷ o.commands }

  -- The channel takes `accepts` more commands and is then closed; the first refused one ends it all.
  abbrev pub send : ℕ → Option Command → (ℕ → Outcome) → Outcome
  send accepts none continue = continue accepts
  send zero (some c) continue = quiet
  send (suc accepts) (some c) continue = add_command c (continue accepts)

  abbrev pub announce : ℕ → RuntimeEvent → Outcome → Outcome
  announce now e o = record o {
    broadcasts = cluster_event now e ∷ o.broadcasts;
    metrics = metric e ∷ o.metrics;
  }

  -- Each event comes with the time at which it is handled; both listeners are there.
  unfoldable pub handle_event_stream : ℕ → List (ℕ × RuntimeEvent) → Outcome
  handle_event_stream accepts [] = quiet
  handle_event_stream accepts ((now, e) ∷ events) =
      announce now e (send accepts (command e) (λ left. handle_event_stream left events))
