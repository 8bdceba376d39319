-- ===== src/Sqlite/Kept.antt =====
-- The table of nodes after an insertion and an update, refused or not: its words, and that no id and
-- no name stands in it twice.
use nexad.Prelude.{
  ◌≡◌, false, not, ◌&&◌, ◌||◌, List, [], ◌∷◌, ◌++◌, arith, ◌==◌, byte_eq, if◌then◌else◌, All,
  All-append, Bool-cases, inl, inr,
}
use nexad.Cluster.Nodes.{has_nan, IsRegular, Node}
use nexad.Cluster.Lawful.{IsDistinct}
use nexad.Sqlite.NodeList.{
  word_of-IsRegular, worded, IsNamed, taken, known, clashes, over, updated, append-IsDistinct,
  append-IsNamed, updated-IsDistinct, updated-IsNamed,
}

-- the nodes that an insertion, an update and a deletion leave
abbrev pub inserted : Node → List Node → List Node
inserted n rows = if has_nan n.resources || taken n rows then rows else rows ++ worded n ∷ []

abbrev pub changed : Node → List Node → List Node
changed n rows =
    if known n rows && not (has_nan n.resources || clashes n rows) then updated n rows else rows

abbrev pub HasRegular : Node → Type 0
HasRegular n = IsRegular n.resources

pub inserted-words :
    (n : Node) (rows : List Node) → All HasRegular rows → All HasRegular (inserted n rows)
inserted-words n rows h = elim (Bool-cases (has_nan n.resources || taken n rows)) [
  | inl e ↦ rw e h
  | inr e ↦ rw e (
      All-append HasRegular rows (worded n ∷ []) h
        (word_of-IsRegular n.resources (ground (arith, e)), tt))
]

pub inserted-IsDistinct :
    (n : Node) (rows : List Node) → IsDistinct rows → IsDistinct (inserted n rows)
inserted-IsDistinct n rows h = elim (Bool-cases (has_nan n.resources || taken n rows)) [
  | inl e ↦ rw e h
  | inr e ↦ rw e (append-IsDistinct n rows (ground (arith, e)) h)
]

pub inserted-IsNamed : (n : Node) (rows : List Node) → IsNamed rows → IsNamed (inserted n rows)
inserted-IsNamed n rows h = elim (Bool-cases (has_nan n.resources || taken n rows)) [
  | inl e ↦ rw e h
  | inr e ↦ rw e (append-IsNamed n rows (ground (arith, e)) h)
]

pub over-words : (n m : Node) → has_nan n.resources ≡ false → HasRegular m → HasRegular (over n m)
over-words n m v h = elim (Bool-cases (m.id == n.id)) [
  | inl e ↦ rw e (word_of-IsRegular n.resources v)
  | inr e ↦ rw e h
]

pub updated-words :
    (n : Node) (rows : List Node)
    → has_nan n.resources ≡ false
    → All HasRegular rows
    → All HasRegular (updated n rows)
updated-words n [] v h = tt
updated-words n (m ∷ rows) v (a, b) = (over-words n m v a, updated-words n rows v b)

pub changed-words :
    (n : Node) (rows : List Node) → All HasRegular rows → All HasRegular (changed n rows)
changed-words n rows h =
    elim (Bool-cases (known n rows && not (has_nan n.resources || clashes n rows))) [
      | inl e ↦ rw e (updated-words n rows (ground (arith, e)) h)
      | inr e ↦ rw e h
    ]

pub changed-IsDistinct :
    (n : Node) (rows : List Node) → IsDistinct rows → IsDistinct (changed n rows)
changed-IsDistinct n rows h =
    elim (Bool-cases (known n rows && not (has_nan n.resources || clashes n rows))) [
      | inl e ↦ rw e (updated-IsDistinct n rows h)
      | inr e ↦ rw e h
    ]

pub changed-IsNamed :
    (n : Node) (rows : List Node) → IsDistinct rows → IsNamed rows → IsNamed (changed n rows)
changed-IsNamed n rows d h =
    elim (Bool-cases (known n rows && not (has_nan n.resources || clashes n rows))) [
      | inl e ↦ rw e (updated-IsNamed n rows (ground (arith, e)) d h)
      | inr e ↦ rw e h
    ]
