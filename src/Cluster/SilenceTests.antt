-- ===== src/Cluster/SilenceTests.antt =====
-- A cluster in which one worker sends and another is silent.
use nexad.Prelude.{◌+◌, ◌≡◌, refl, none, some, List, [], ◌∷◌, arith, text, byte_eq, list_eq}
use nexad.Cluster.Nodes.{worker, not_ready}
use nexad.Cluster.Heartbeat.{secs}
use nexad.Cluster.Lawful.{find_node}
use nexad.Cluster.Passes.{Event, tick, message, monitor_interval, run}
use nexad.Cluster.Silence.{run-silent}
use nexad.Cluster.Server.{HeartbeatPing}
use nexad.Cluster.Table.{Table, table_store, table_laws}
use nexad.Cluster.Tests.{none_used, node, table, digest, show_uuid, parse_uuid, new_node}

abbrev ping_of_a : HeartbeatPing
ping_of_a = record { node_id = 2 ∷ []; status = text "ready"; resources = none }

abbrev events : List Event
events =
    tick (secs 50)
    ∷ message (secs 55) ping_of_a
    ∷ tick (secs 50 + monitor_interval)
    ∷ tick (secs 50 + monitor_interval + monitor_interval)
    ∷ []

run-silent_example :
    find_node 3
      (run table_store
        (text "nxa_1")
        digest
        show_uuid
        parse_uuid
        new_node
        none_used
        events
        table).rows
    ≡ some (record (node 3 (text "b") worker (secs 40)) { status = not_ready })
run-silent_example =
    run-silent table_store table_laws (text "nxa_1") digest show_uuid parse_uuid new_node none_used
      3 (secs 50) 2 events table (node 3 (text "b") worker (secs 40)) refl refl (refl, tt) refl
      (omega arith)

abbrev ping_of_b : HeartbeatPing
ping_of_b = record { node_id = 3 ∷ []; status = text "ready"; resources = none }
