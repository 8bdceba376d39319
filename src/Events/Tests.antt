-- ===== src/Events/Tests.antt =====
-- A stream of three events, one of a container whose id names no pod.
use nexad.Prelude.{
  ℕ, negsuc, ◌≡◌, refl, Option, none, some, List, [], ◌∷◌, arith, Text, text, take, map,
}
use nexad.Events.Watcher.{
  RuntimeEvent, container_died, container_oom, cluster_event, handle_event_stream,
}
use nexad.Events.Reconnect.{spawn_event_watcher, all_requested, spawn_event_watcher-commands}
use nexad.Events.Delivery.{requested, handle_event_stream-commands, handle_event_stream-broadcasts}

-- an id of one byte
abbrev parse_uuid : Text → Option ℕ
parse_uuid [] = none
parse_uuid (c ∷ []) = some c
parse_uuid (c ∷ d ∷ s) = none

abbrev events : List (ℕ × RuntimeEvent)
events =
    (1, container_died (text "a") (negsuc 0))
    ∷ (2, container_oom (text "web-1"))
    ∷ (3, container_oom (text "b"))
    ∷ []

commands_taken : (handle_event_stream parse_uuid 1 events).commands ≡ (97, negsuc 0) ∷ []
unfolding handle_event_stream
commands_taken = refl

commands_in_order :
    (handle_event_stream parse_uuid 1 events).commands ≡ take 1 (requested parse_uuid events)
commands_in_order = handle_event_stream-commands parse_uuid 1 events

announced_in_order :
    (handle_event_stream parse_uuid 5 events).broadcasts ≡ map (λ p. cluster_event p.0 p.1) events
announced_in_order = handle_event_stream-broadcasts parse_uuid 5 events (omega arith)

spawn_event_watcher-commands_example :
    (spawn_event_watcher parse_uuid 3 (some events ∷ none ∷ some events ∷ [])).commands
    ≡ take 3 (all_requested parse_uuid (some events ∷ none ∷ some events ∷ []))
spawn_event_watcher-commands_example =
    spawn_event_watcher-commands parse_uuid 3 (some events ∷ none ∷ some events ∷ [])
