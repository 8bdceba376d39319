-- ===== src/Runtime/CtrTests.antt =====
-- A `ctr` that always succeeds, and lines that it prints.
use nexad.Prelude.{ℕ, ◌≡◌, refl, true, some, List, [], ◌∷◌, Text, text, byte_eq, list_eq, pos}
use nexad.Str.{find_text, starts_with, split, lines}
use nexad.Str.Decimal.{parse_uint, parse_digits}
use nexad.Result.{runtime, err, Outcome, value}
use nexad.Events.Watcher.{container_died}
use nexad.Runtime.Containerd.{
  Output, running, state_in, state_of_line, connect_to_network, new, container_ip, no_ip,
}
use nexad.Runtime.ContainerdLaws.{
  call_start, call_stop, call_connect, RuntimeCall, after_calls, container_ip-after_calls,
}
use nexad.Runtime.CtrEvents.{event_of_line, extract_container_id, extract_exit_code}

abbrev succeed : ℕ → List Text → Outcome Output × ℕ
succeed n args = (value (record { success = true; stdout = []; stderr = [] }), n)

abbrev same : Text → Text
same t = t

abbrev no_words : Text → List Text
no_words t = []

abbrev busy : List RuntimeCall
busy = call_connect (text "c") (text "n") ∷ call_start (text "c") ∷ call_stop 2 (text "c") ∷ []

container_ip-after_calls_example :
    let rt = after_calls succeed same no_words busy (new succeed same 0) in
    (connect_to_network succeed same (text "c") (text "n") rt
      ≡ (err (runtime (text "CNI attach: CNI attach not yet implemented")), rt))
    × (container_ip succeed same (text "c") (text "n") rt
        ≡ no_ip succeed same (text "c") (text "n"))
container_ip-after_calls_example =
    container_ip-after_calls succeed same no_words 0 busy (text "c") (text "n")

died :
    event_of_line same (text "t /tasks/exit {\"container_id\":\"web\",\"exit_status\":137}")
    ≡ some (container_died (text "web") (pos 137))
unfolding event_of_line extract_container_id extract_exit_code find_text starts_with split
    parse_uint parse_digits
died = refl

-- the id of one container stands in the line of another
mistaken : state_in (text "web-1") (text "web-10 4711 RUNNING") ≡ running
unfolding state_in state_of_line lines find_text starts_with split
mistaken = refl
