-- ===== src/Events/Reconnect.antt =====
-- The loop of src/adapters/event_watcher.rs around its streams, and what reaches the orchestrator over
-- all of them.
use nexad.Prelude.{
  ℕ, zero, suc, ◌-◌, ◌≡◌, refl, sym, ap, ◌∙◌, Option, none, some, List, [], ◌∷◌, ◌++◌, arith, Text,
  take, length,
}
use nexad.Events.Watcher.{RuntimeEvent, Command, Outcome, quiet, handle_event_stream}
use nexad.Events.Delivery.{requested, handle_event_stream-commands}

abbrev pub joined : Outcome → Outcome → Outcome
joined o p = record {
  commands = o.commands ++ p.commands;
  broadcasts = o.broadcasts ++ p.broadcasts;
  metrics = o.metrics ++ p.metrics;
}

-- Of the loop, which never ends, the first rounds: a stream with its events, or an error where it could
-- not be opened. The channel is one for all rounds.
unfoldable pub spawn_event_watcher :
    (Text → Option ℕ) → ℕ → List (Option (List (ℕ × RuntimeEvent))) → Outcome
spawn_event_watcher parse_uuid accepts [] = quiet
spawn_event_watcher parse_uuid accepts (none ∷ rounds) =
    spawn_event_watcher parse_uuid accepts rounds
spawn_event_watcher parse_uuid accepts (some events ∷ rounds) =
    let o = handle_event_stream parse_uuid accepts events in
    joined o (spawn_event_watcher parse_uuid (accepts - length o.commands) rounds)

abbrev pub all_requested :
    (Text → Option ℕ) → List (Option (List (ℕ × RuntimeEvent))) → List Command
all_requested parse_uuid [] = []
all_requested parse_uuid (none ∷ rounds) = all_requested parse_uuid rounds
all_requested parse_uuid (some events ∷ rounds) =
    requested parse_uuid events ++ all_requested parse_uuid rounds

take_append :
    {A : Type 0} (n : ℕ) (xs ys : List A)
    → take n (xs ++ ys) ≡ take n xs ++ take (n - length (take n xs)) ys
take_append zero [] ys = refl
take_append zero (x ∷ xs) ys = refl
take_append (suc n) [] ys = let whole : suc n ≡ suc n - 0 = omega arith in ap (λ k. take k ys) whole
take_append (suc n) (x ∷ xs) ys =
    let k = length (take n xs) in
    let less : n - k ≡ suc n - suc k = omega arith in
    ap (λ zs. x ∷ zs) (take_append n xs ys ∙ ap (λ j. take n xs ++ take j ys) less)

-- Over all streams, also where some cannot be opened, the orchestrator gets the commands that the
-- events ask for, in order, as many as the channel takes, and no other.
pub spawn_event_watcher-commands :
    (parse_uuid : Text → Option ℕ) (accepts : ℕ) (rounds : List (Option (List (ℕ × RuntimeEvent))))
    → (spawn_event_watcher parse_uuid accepts rounds).commands
      ≡ take accepts (all_requested parse_uuid rounds)
unfolding spawn_event_watcher
spawn_event_watcher-commands parse_uuid zero [] = refl
spawn_event_watcher-commands parse_uuid (suc accepts) [] = refl
spawn_event_watcher-commands parse_uuid accepts (none ∷ rounds) =
    spawn_event_watcher-commands parse_uuid accepts rounds
spawn_event_watcher-commands parse_uuid accepts (some events ∷ rounds) =
    let sent = handle_event_stream-commands parse_uuid accepts events in
    let left = accepts - length (take accepts (requested parse_uuid events)) in
    rw sent (
      ap (λ cs. take accepts (requested parse_uuid events) ++ cs)
        (spawn_event_watcher-commands parse_uuid left rounds)
      ∙ sym (take_append accepts (requested parse_uuid events) (all_requested parse_uuid rounds)))
