-- ===== src/Dns/Wire/LabelLoop.antt =====
-- The loop of `parse_dns_question` over the labels of a name, without fuel: it ends, with this result.
use nexad.Prelude.{
  ℕ, zero, suc, ◌+◌, ◌≤◌, ◌<◌, ◌≡◌, refl, ap, ◌∙◌, true, false, inl, inr, Option, none, some,
  Option-cases, Bool-cases, List, [], ◌∷◌, arith, Text, length, get_elem?, byte_eq, sym, ltb, ◌==◌,
}
use nexad.Str.Utf8.{valid_utf8}
use nexad.Dns.Wire.{slice, with_label, parse_labels}
use nexad.Dns.Wire.Question.{get_elem?-lt}

-- `RunsTo bytes offset result`: started at the offset, the loop makes finitely many rounds and leaves
-- the result, `none` where it returns early.
pub data RunsTo (bytes : List ℕ) : ℕ → Option (List Text × ℕ) → Type 0 where
  past_end : (offset : ℕ) → length bytes ≤ offset → RunsTo bytes offset none
  closed :
      (offset : ℕ) → get_elem? bytes offset ≡ some 0 → RunsTo bytes offset (some ([], offset + 1))
  too_long :
      (offset n : ℕ)
      → get_elem? bytes offset ≡ some n
      → 0 < n
      → length bytes < offset + 1 + n
      → RunsTo bytes offset none
  no_text :
      (offset n : ℕ)
      → get_elem? bytes offset ≡ some n
      → 0 < n
      → offset + 1 + n ≤ length bytes
      → valid_utf8 (slice bytes (offset + 1) (offset + 1 + n)) ≡ false
      → RunsTo bytes offset none
  one_label :
      (offset n : ℕ) (result : Option (List Text × ℕ))
      → get_elem? bytes offset ≡ some n
      → 0 < n
      → offset + 1 + n ≤ length bytes
      → valid_utf8 (slice bytes (offset + 1) (offset + 1 + n)) ≡ true
      → RunsTo bytes (offset + 1 + n) result
      → RunsTo bytes offset (with_label (slice bytes (offset + 1) (offset + 1 + n)) result)

get_elem?-none : (bytes : List ℕ) (i : ℕ) → get_elem? bytes i ≡ none → length bytes ≤ i
get_elem?-none [] i h = omega arith
get_elem?-none (x ∷ bytes) zero h = cc
get_elem?-none (x ∷ bytes) (suc i) h = omega (arith, get_elem?-none bytes i h)

get_elem?-past : (bytes : List ℕ) (i : ℕ) → length bytes ≤ i → get_elem? bytes i ≡ none
get_elem?-past [] i h = refl
get_elem?-past (x ∷ bytes) zero h = absurd (omega arith)
get_elem?-past (x ∷ bytes) (suc i) h = get_elem?-past bytes i (omega arith)

parse_labels-RunsTo :
    (fuel : ℕ) (bytes : List ℕ) (offset : ℕ)
    → length bytes < offset + fuel
    → RunsTo bytes offset (parse_labels fuel bytes offset)
unfolding parse_labels
parse_labels-RunsTo zero bytes offset h = past_end offset (omega arith)
parse_labels-RunsTo (suc fuel) bytes offset h = elim (Option-cases (get_elem? bytes offset)) [
  | inl gone ↦ rw (gone, parse_labels) (past_end offset (get_elem?-none bytes offset gone))
  | inr (n, here) ↦ elim (Bool-cases (n == 0)) [
    | inl end ↦ rw (here, end, parse_labels) (closed offset (here ∙ ap some (ground (arith, end))))
    | inr more ↦
        let next = offset + 1 + n in
        let positive : 0 < n = ground (arith, more) in
        elim (Bool-cases (ltb (length bytes) next)) [
          | inl long ↦
              rw (here, more, long, parse_labels)
                (too_long offset n here positive (ground (arith, long)))
          | inr fits ↦
              let inside : next ≤ length bytes = ground (arith, fits) in
              elim (Bool-cases (valid_utf8 (slice bytes (offset + 1) next))) [
                | inr bad ↦
                    rw (here, more, fits, bad, parse_labels)
                      (no_text offset n here positive inside bad)
                | inl good ↦
                    rw (here, more, fits, good, parse_labels)
                      (one_label offset n (parse_labels fuel bytes next) here positive inside good
                        (parse_labels-RunsTo fuel bytes next (omega arith)))
              ]
        ]
  ]
]

RunsTo-parse_labels :
    (fuel : ℕ) (bytes : List ℕ) {offset : ℕ} {result : Option (List Text × ℕ)}
    → length bytes < offset + fuel
    → RunsTo bytes offset result
    → parse_labels fuel bytes offset ≡ result
unfolding parse_labels
RunsTo-parse_labels zero bytes h (past_end o p) = refl
RunsTo-parse_labels zero bytes h (closed o e) = absurd (omega (arith, get_elem?-lt bytes o e))
RunsTo-parse_labels zero bytes h (too_long o n e p q) = refl
RunsTo-parse_labels zero bytes h (no_text o n e p q b) = refl
RunsTo-parse_labels zero bytes h (one_label o n r e p q b d) =
    absurd (omega (arith, get_elem?-lt bytes o e))
RunsTo-parse_labels (suc fuel) bytes h (past_end o p) =
    rw (get_elem?-past bytes o p, parse_labels) refl
RunsTo-parse_labels (suc fuel) bytes h (closed o e) = rw (e, parse_labels) refl
RunsTo-parse_labels (suc fuel) bytes h (too_long o n e p q) = rw (e, parse_labels) (ground arith)
RunsTo-parse_labels (suc fuel) bytes h (no_text o n e p q b) =
    rw (e, parse_labels) (ground (arith, b))
RunsTo-parse_labels (suc fuel) bytes h (one_label o n r e p q b d) =
    rw (e, parse_labels) (ground (arith, b, RunsTo-parse_labels fuel bytes (omega arith) d))

-- Given more fuel than there are bytes behind the offset, the loop without fuel ends from there, with
-- the result that the function with fuel has, and with no other.
pub parse_labels_terminates :
    (fuel : ℕ) (bytes : List ℕ) (offset : ℕ)
    → length bytes < offset + fuel
    → RunsTo bytes offset (parse_labels fuel bytes offset)
      × ((result : Option (List Text × ℕ))
          → RunsTo bytes offset result
          → result ≡ parse_labels fuel bytes offset)
parse_labels_terminates fuel bytes offset h =
    (parse_labels-RunsTo fuel bytes offset h, λ result d. sym (RunsTo-parse_labels fuel bytes h d))
