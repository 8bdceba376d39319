-- ===== src/Runtime/CtrEvents.antt =====
-- The lines of `ctr events`, as src/adapters/runtime/containerd.rs reads them.
use nexad.Prelude.{
  ℕ, zero, suc, ◌+◌, ◌^◌, ◌≡◌, refl, true, false, ◌&&◌, ◌||◌, not, Option, none, some, List, [],
  ◌∷◌, ◌++◌, arith, Text, text, ◌==◌, byte_eq, list_eq, if◌then◌else◌, leb, find, is_empty,
  get_elem?, ℤ, pos, negsuc,
}
use nexad.Str.{split, find_text, contains_text, starts_with}
use nexad.Str.Decimal.{parse_uint}
use nexad.Str.Laws.{IsFree, split-head}
use nexad.Events.Watcher.{RuntimeEvent, container_died, container_oom, container_started}

abbrev pub trim_matches_start : ℕ → Text → Text
trim_matches_start c [] = []
trim_matches_start c (x ∷ s) = let rest = trim_matches_start c s in if x == c then rest else x ∷ s

abbrev pub trim_matches_end : ℕ → Text → Text
trim_matches_end c [] = []
trim_matches_end c (x ∷ s) =
    let rest = trim_matches_end c s in if x == c && is_empty rest then [] else x ∷ rest

abbrev pub negated : Option ℕ → Option ℤ
negated none = none
negated (some zero) = some (pos zero)
negated (some (suc n)) = some (negsuc n)

abbrev pub parse_negative : Text → Option ℤ
parse_negative [] = none
parse_negative (d ∷ ds) = if d == 43 then none else negated (parse_uint (2 ^ 63 + 1) (d ∷ ds))

-- `parse::<i64>()`
abbrev pub parse_i64 : Text → Option ℤ
parse_i64 [] = none
parse_i64 (c ∷ ds) =
    if c == 45
    then parse_negative ds
    else elim (parse_uint (2 ^ 63) (c ∷ ds)) [ none ↦ none | some n ↦ some (pos n) ]

-- the parts between bytes that are neither digits nor `-`
abbrev pub number_parts : Text → List Text
number_parts [] = [] ∷ []
number_parts (x ∷ s) =
    let ps = number_parts s in
    if leb 48 x && leb x 57 || x == 45
    then elim ps [ [] ↦ (x ∷ []) ∷ [] | p ∷ qs ↦ (x ∷ p) ∷ qs ]
    else [] ∷ ps

unfoldable pub extract_exit_code : Text → Option ℤ
extract_exit_code line = elim (find_text line (text "exit_status")) [
  | none ↦ none
  | some rest ↦ elim (find (λ p. not (is_empty p)) (number_parts rest)) [
    | none ↦ none
    | some p ↦ parse_i64 p
  ]
]

abbrev pub or_else : Option Text → Option Text → Option Text
or_else (some a) b = some a
or_else none b = b

-- what stands behind the first colon, without quotes at its ends
abbrev pub after_colon : Text → Option Text
after_colon rest = elim (get_elem? (split b':' rest) 1) [
  | none ↦ none
  | some s ↦ some (trim_matches_end 34 (trim_matches_start 34 s))
]

-- `trim` is that of `str`.
module _ (trim : Text → Text) where
  abbrev pub id_value : Text → Option Text
  id_value rest = elim (or_else (get_elem? (split 34 rest) 2) (after_colon rest)) [
    | none ↦ none
    | some s ↦ some (trim s)
  ]

  unfoldable pub extract_container_id : Text → Option Text
  extract_container_id line = elim (find_text line (text "container_id")) [
    | none ↦ none
    | some rest ↦ id_value rest
  ]

  abbrev pub id_or_empty : Option Text → Text
  id_or_empty none = []
  id_or_empty (some id) = id

  abbrev pub code_or_default : Option ℤ → ℤ
  code_or_default none = negsuc 0
  code_or_default (some code) = code

  -- One line of the stream: an event, or none.
  unfoldable pub event_of_line : Text → Option RuntimeEvent
  event_of_line line =
      let id = id_or_empty (extract_container_id line) in
      if contains_text line (text "/tasks/exit")
      then some (container_died id (code_or_default (extract_exit_code line)))
      else if contains_text line (text "/tasks/start")
      then some (container_started id)
      else if contains_text line (text "/tasks/oom")
      then some (container_oom id)
      else none

-- A text in which no occurrence of `p` begins, whatever follows.
abbrev pub HasNone : Text → Text → Text → Type 0
HasNone p [] after = Unit
HasNone p (x ∷ s) after = (starts_with (x ∷ (s ++ after)) p ≡ false) × HasNone p s after

find_text-append :
    (p before after : Text)
    → HasNone p before after
    → starts_with after p ≡ true
    → is_empty after ≡ false
    → find_text (before ++ after) p ≡ some after
unfolding find_text
find_text-append p [] [] h st ne = ground (arith, ne)
find_text-append p [] (y ∷ after) h st ne = ground (arith, st)
find_text-append p (x ∷ before) after (a, h) st ne =
    ground (arith, a, find_text-append p before after h st ne)

quoted :
    (id after : Text)
    → IsFree 34 id
    → get_elem? (split 34 (text "container_id\":\"" ++ (id ++ 34 ∷ after))) 2 ≡ some id
unfolding split
quoted id after f = ground (arith, split-head 34 id after f)

-- In a line with the JSON field `container_id`, which stands there first, the id is what is read.
extract_container_id_lem :
    (trim : Text → Text) (before id after : Text)
    → let field = text "container_id\":\"" ++ (id ++ 34 ∷ after) in
      HasNone (text "container_id") before field
      → IsFree 34 id
      → extract_container_id trim (before ++ field) ≡ some (trim id)
unfolding extract_container_id starts_with
extract_container_id_lem trim before id after h f =
    let field = text "container_id\":\"" ++ (id ++ 34 ∷ after) in
    ground
      (arith, find_text-append (text "container_id") before field h refl refl, quoted id after f)
