-- ===== src/Runtime/LogTailer.antt =====
-- The following of a log file: src/adapters/runtime/log_tailer.rs.
use nexad.Prelude.{
  ℕ, zero, suc, ◌-◌, ◌≤◌, ◌≡◌, refl, ap, Bool, Option, none, some, List, [], ◌∷◌, ◌++◌, arith, Text,
  text, if◌then◌else◌, is_empty, length, length-drop, drop,
}
use nexad.Result.{runtime, Result, ok, err, Outcome, failed, value}
use nexad.Str.{trim_end_matches}

-- What the calls of one stream report: the lines that the file holds, the reading of its length, the
-- second opening and the seeking, errors as the code passes them on, and then each reading of a line: its text, which is empty at the
-- end of the file, or an error. A stream that goes on waiting has no further reading.
pub record LogFile : Type 0 where
  pub path : Text
  pub exists_ : Bool
  pub first_reading : Outcome (List Text)
  pub metadata : Outcome ℕ
  pub second_opening : Option Text
  pub seeking : Option Text
  pub readings : List (Outcome Text)

abbrev pub default_tail : Option ℕ → ℕ
default_tail none = 100
default_tail (some n) = n

-- the last lines
unfoldable pub history : Option ℕ → List Text → List Text
history tail existing = drop (length existing - default_tail tail) existing

-- the loop over the readings, up to an error
unfoldable pub follow : List (Outcome Text) → List (Result Text)
follow [] = []
follow (failed e ∷ rs) = err (runtime e) ∷ []
follow (value [] ∷ rs) = follow rs
follow (value (c ∷ buf) ∷ rs) =
    let line = trim_end_matches 13 (trim_end_matches 10 (c ∷ buf)) in
    let rest = follow rs in if is_empty line then rest else ok line ∷ rest

abbrev pub all_ok : List Text → List (Result Text)
all_ok [] = []
all_ok (l ∷ ls) = ok l ∷ all_ok ls

unfoldable pub followed : LogFile → List (Result Text)
followed file = elim file.second_opening [
  | some e ↦ err (runtime e) ∷ []
  | none ↦ elim file.seeking [ some e ↦ err (runtime e) ∷ [] | none ↦ follow file.readings ]
]

-- What the stream yields, or why there is none.
unfoldable pub tail : LogFile → Option ℕ → Result (List (Result Text))
tail file n =
    if file.exists_
    then elim file.first_reading [
      | failed e ↦ err (runtime e)
      | value existing ↦ elim file.metadata [
        | failed e ↦ err (runtime e)
        | value size ↦ ok (all_ok (history n existing) ++ followed file)
      ]
    ]
    else err (runtime (text "log file not found: " ++ file.path))

drop-suffix : (k : ℕ) (xs : List Text) → k ≤ length xs → (ys : List Text) × (ys ++ drop k xs ≡ xs)
drop-suffix zero xs h = ([], refl)
drop-suffix (suc k) [] h = ([], refl)
drop-suffix (suc k) (x ∷ xs) h =
    let (ys, e) = drop-suffix k xs (omega (arith, h)) in (x ∷ ys, ap (λ zs. x ∷ zs) e)

-- The lines that come first are the last of the file, as many as were asked for or all.
pub history_lem :
    (n : Option ℕ) (existing : List Text)
    → (length (history n existing) ≡ length existing - (length existing - default_tail n))
      × ((ys : List Text) × (ys ++ history n existing ≡ existing))
unfolding history
history_lem n existing = (
  length-drop (length existing - default_tail n) existing,
  drop-suffix (length existing - default_tail n) existing (omega arith),
)
