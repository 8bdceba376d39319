-- ===== src/Dns/Wire/Question.antt =====
-- Reading the question of a query: what is encoded is read, and nothing outside the message is.
use nexad.Prelude.{
  ℕ, zero, suc, ◌+◌, ◌/◌, ◌%◌, ◌≤◌, ◌<◌, ◌≡◌, ◌≢◌, refl, true, inl, inr, Option, none, some,
  Option-cases, List, [], ◌∷◌, ◌++◌, arith, Text, text, length, get_elem?, drop, length-append,
  drop-append, All, byte_eq,
}
use mathlib.Core.List.{append_assoc}
use nexad.Str.{join}
use nexad.Str.Utf8.{valid_utf8}
use nexad.Dns.Wire.{be16, slice, with_label, parse_labels, parse_question}
use nexad.Dns.Wire.Codec.{drop-add, get_elem?-drop, byte_at-drop, slice-drop, le_length-drop}

-- A name on the wire: each label behind its length, and a zero.
unfoldable pub encode_name : List Text → List ℕ
encode_name [] = 0 ∷ []
encode_name (l ∷ ls) = length l ∷ (l ++ encode_name ls)

-- A label is not empty, and is text.
abbrev pub IsLabel : Text → Type 0
IsLabel l = (l ≢ []) × (valid_utf8 l ≡ true)

length-pos : (l : Text) → l ≢ [] → 0 < length l
length-pos [] h = absurd (h refl)
length-pos (x ∷ l) h = omega arith

length-encode_name : (ls : List Text) → length ls < length (encode_name ls)
unfolding encode_name
length-encode_name [] = omega arith
length-encode_name (l ∷ ls) = omega (arith, length-encode_name ls, length-append l (encode_name ls))

parse_labels-encode_name :
    (labels : List Text) (fuel : ℕ) (bytes : List ℕ) (offset : ℕ) (post : List ℕ)
    → length labels < fuel
    → All IsLabel labels
    → drop offset bytes ≡ encode_name labels ++ post
    → parse_labels fuel bytes offset ≡ some (labels, offset + length (encode_name labels))
unfolding parse_labels encode_name
parse_labels-encode_name labels zero bytes offset post h g e = absurd (omega arith)
parse_labels-encode_name [] (suc fuel) bytes offset post h g e =
    rw (get_elem?-drop offset bytes 0 post e, parse_labels) refl
parse_labels-encode_name (l ∷ ls) (suc fuel) bytes offset post h g e =
    let next = offset + 1 + length l in
    let here = get_elem?-drop offset bytes (length l) ((l ++ encode_name ls) ++ post) e in
    let behind : drop (offset + 1) bytes ≡ l ++ (encode_name ls ++ post) =
      rw (drop-add, e) (append_assoc l (encode_name ls) post) in
    let label =
      slice-drop bytes (offset + 1) (length l) next l (encode_name ls ++ post) behind refl refl in
    let rest : drop next bytes ≡ encode_name ls ++ post =
      rw (drop-add (offset + 1) (length l) bytes, behind)
        (drop-append l (encode_name ls ++ post)) in
    let ih = parse_labels-encode_name ls fuel bytes next post (omega arith) g.1 rest in
    let positive = length-pos l g.0.0 in
    let fits : next ≤ length bytes =
      le_length-drop (offset + 1) bytes (length l) positive
        (rw behind (omega (arith, length-append l (encode_name ls ++ post)))) in
    rw (here, parse_labels)
      (rw (label, g.0.1, ih) (ground (arith, positive, fits, length-append l (encode_name ls))))

-- A question that is written as the protocol says, behind any bytes and before any, is read back:
-- its labels joined by dots, its type, and the offset behind its class.
pub parse_question-encode_name :
    (pre post : List ℕ) (labels : List Text) (qtype qclass : ℕ)
    → All IsLabel labels
    → parse_question
        (pre ++ (encode_name labels ++ (be16 qtype ++ (be16 qclass ++ post))))
        (length pre)
      ≡ some (join (text ".") labels, qtype, length pre + length (encode_name labels) + 4)
unfolding parse_question
parse_question-encode_name pre post labels qtype qclass g =
    let fields = be16 qtype ++ (be16 qclass ++ post) in
    let bytes = pre ++ (encode_name labels ++ fields) in
    let tail = drop-append pre (encode_name labels ++ fields) in
    let end = length pre + length (encode_name labels) in
    let behind : drop end bytes ≡ fields =
      rw (drop-add, tail) (drop-append (encode_name labels) fields) in
    let enough : length labels < length bytes + 1 = omega (
      arith,
      length-encode_name labels,
      length-append pre (encode_name labels ++ fields),
      length-append (encode_name labels) fields,
    ) in
    let first = byte_at-drop end bytes (qtype / 256) (qtype % 256 ∷ (be16 qclass ++ post)) behind in
    let second =
      byte_at-drop (end + 1) bytes (qtype % 256) (be16 qclass ++ post)
        (rw (drop-add end 1 bytes, behind) refl) in
    rw (parse_labels-encode_name labels (length bytes + 1) bytes (length pre) fields enough g tail)
      (rw (first, second)
        (ground (
          arith,
          length-append pre (encode_name labels ++ fields),
          length-append (encode_name labels) fields,
        )))

pub get_elem?-lt : (bytes : List ℕ) (i : ℕ) {b : ℕ} → get_elem? bytes i ≡ some b → i < length bytes
get_elem?-lt [] i h = cc
get_elem?-lt (x ∷ bytes) zero h = omega arith
get_elem?-lt (x ∷ bytes) (suc i) h = omega (arith, get_elem?-lt bytes i h)

-- the offset behind the name lies behind the start and inside the message
abbrev IsWithin : List ℕ → ℕ → Option (List Text × ℕ) → Type 0
IsWithin bytes offset none = Unit
IsWithin bytes offset (some (labels, end)) = (offset < end) × (end ≤ length bytes)

IsWithin-later :
    (bytes : List ℕ) (offset next : ℕ) (label : Text) (rest : Option (List Text × ℕ))
    → offset < next
    → IsWithin bytes next rest
    → IsWithin bytes offset (with_label label rest)
IsWithin-later bytes offset next label none h w = tt
IsWithin-later bytes offset next label (some (ls, end)) h w = omega arith

parse_labels-IsWithin :
    (fuel : ℕ) (bytes : List ℕ) (offset : ℕ)
    → IsWithin bytes offset (parse_labels fuel bytes offset)
unfolding parse_labels
parse_labels-IsWithin zero bytes offset = tt
parse_labels-IsWithin (suc fuel) bytes offset = elim (Option-cases (get_elem? bytes offset)) [
  | inl gone ↦ rw (gone, parse_labels) tt
  | inr (n, here) ↦
      let next = offset + 1 + n in
      let label = slice bytes (offset + 1) next in
      rw (here, parse_labels)
        (ground (
          arith,
          get_elem?-lt bytes offset here,
          IsWithin-later bytes offset next label (parse_labels fuel bytes next) (omega arith)
              (parse_labels-IsWithin fuel bytes next),
        ))
]

-- An accepted question lies inside the message: every slice and every index that the code takes
-- for it is in range.
pub parse_question_bounds :
    (bytes : List ℕ) (offset : ℕ) (name : Text) (qtype end : ℕ)
    → parse_question bytes offset ≡ some (name, qtype, end)
    → (offset + 4 < end) × (end ≤ length bytes)
unfolding parse_question
parse_question_bounds bytes offset name qtype end h =
    ground (arith, parse_labels-IsWithin (length bytes + 1) bytes offset)
