-- ===== src/Events/Delivery.antt =====
-- Which commands reach the orchestrator, and which events are announced.
use nexad.Prelude.{
  ℕ, zero, suc, ◌≡◌, ◌≤◌, refl, ap, Option, none, some, List, [], ◌∷◌, arith, Text, take, length,
  map,
}
use nexad.Events.Watcher.{RuntimeEvent, Command, cluster_event, command, send, handle_event_stream}

module _ (parse_uuid : Text → Option ℕ) where
  abbrev cons_some : Option Command → List Command → List Command
  cons_some none cs = cs
  cons_some (some c) cs = c ∷ cs

  -- the commands that the events ask for
  abbrev pub requested : List (ℕ × RuntimeEvent) → List Command
  requested [] = []
  requested ((now, e) ∷ events) = cons_some (command parse_uuid e) (requested events)

  send_lem :
      (accepts : ℕ) (c : Option Command) (events : List (ℕ × RuntimeEvent))
      → ((left : ℕ)
          → (handle_event_stream parse_uuid left events).commands ≡ take left (requested events))
      → (send parse_uuid accepts c (λ left. handle_event_stream parse_uuid left events)).commands
        ≡ take accepts (cons_some c (requested events))
  send_lem accepts none events h = h accepts
  send_lem zero (some c) events h = refl
  send_lem (suc accepts) (some c) events h = ap (λ cs. c ∷ cs) (h accepts)

  -- The orchestrator gets the commands that the events ask for, in order, as many as the channel
  -- takes, and no other.
  pub handle_event_stream-commands :
      (accepts : ℕ) (events : List (ℕ × RuntimeEvent))
      → (handle_event_stream parse_uuid accepts events).commands ≡ take accepts (requested events)
  unfolding handle_event_stream
  handle_event_stream-commands zero [] = refl
  handle_event_stream-commands (suc accepts) [] = refl
  handle_event_stream-commands accepts ((now, e) ∷ events) =
      send_lem accepts (command parse_uuid e) events
        (λ left. handle_event_stream-commands left events)

  send_open :
      (accepts : ℕ) (c : Option Command) (events : List (ℕ × RuntimeEvent))
      → ((left : ℕ)
          → length (requested events) ≤ left
          → (handle_event_stream parse_uuid left events).broadcasts
            ≡ map (λ p. cluster_event p.0 p.1) events)
      → length (cons_some c (requested events)) ≤ accepts
      → (send parse_uuid accepts c (λ left. handle_event_stream parse_uuid left events)).broadcasts
        ≡ map (λ p. cluster_event p.0 p.1) events
  send_open accepts none events h l = h accepts l
  send_open zero (some c) events h l = ground (arith, l)
  send_open (suc accepts) (some c) events h l = h accepts (omega (arith, l))

  -- While the channel takes every command asked for, every event is announced once, in order.
  pub handle_event_stream-broadcasts :
      (accepts : ℕ) (events : List (ℕ × RuntimeEvent))
      → length (requested events) ≤ accepts
      → (handle_event_stream parse_uuid accepts events).broadcasts
        ≡ map (λ p. cluster_event p.0 p.1) events
  unfolding handle_event_stream
  handle_event_stream-broadcasts accepts [] l = refl
  handle_event_stream-broadcasts accepts ((now, e) ∷ events) l =
      ap (λ bs. cluster_event now e ∷ bs)
        (send_open accepts (command parse_uuid e) events
          (λ left. handle_event_stream-broadcasts left events) l)
