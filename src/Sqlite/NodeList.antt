-- ===== src/Sqlite/NodeList.antt =====
-- The table of nodes as a list of nodes: what the statements make of the list, and that no id and no
-- name stands in it twice.
use Prim.Native.Nat.{min}
use nexad.Prelude.{
  ℕ, ◌-◌, ◌^◌, ◌≡◌, refl, sym, ap, ◌∙◌, Bool, false, not, ◌&&◌, ◌||◌, none, List, [], ◌∷◌, ◌++◌,
  map, arith, Text, ◌==◌, byte_eq, list_eq, list_beq_iff, nat_beq_iff, if◌then◌else◌, any, find,
  retain, insert_by, sort_by, Bool-cases, inl, inr,
}
use nexad.Cluster.Nodes.{NodeResources, has_nan, IsRegular, Node}
use nexad.Cluster.Lawful.{find_node, find_named, IsDistinct}
use nexad.Sqlite.Sorted.{map_some, IsSingle, find-map, find-sort_by}

-- The words that a column takes from a number: one that fits is left as it is.
abbrev pub word_of : NodeResources → NodeResources
word_of r = record r {
  memory_bytes = min r.memory_bytes (2 ^ 64 - 1);
  memory_available = min r.memory_available (2 ^ 64 - 1);
  running_pods = min r.running_pods (2 ^ 32 - 1);
}

abbrev pub worded : Node → Node
worded n = record n { resources = word_of n.resources }

has_nan-word_of : (r : NodeResources) → has_nan (word_of r) ≡ has_nan r
unfolding has_nan
has_nan-word_of r = refl

pub word_of-IsRegular : (r : NodeResources) → has_nan r ≡ false → IsRegular (word_of r)
word_of-IsRegular r h = record {
  memory_bytes = omega arith;
  memory_available = omega arith;
  running_pods = omega arith;
  numbers = has_nan-word_of r ∙ h;
}

pub worded_same : (n : Node) → IsRegular n.resources → worded n ≡ n
worded_same n w = ground (arith, w.memory_bytes, w.memory_available, w.running_pods)

-- No name stands twice.
abbrev pub IsNamed : List Node → Type 0
IsNamed [] = Unit
IsNamed (n ∷ nodes) = (find_named n.name nodes ≡ none) × IsNamed nodes

abbrev pub taken : Node → List Node → Bool
taken n rows = any (λ m. m.id == n.id || m.name == n.name) rows

abbrev pub known : Node → List Node → Bool
known n rows = any (λ m. m.id == n.id) rows

-- another node has the name
abbrev pub clashes : Node → List Node → Bool
clashes n rows = any (λ m. not (m.id == n.id) && m.name == n.name) rows

abbrev pub over : Node → Node → Node
over n m = if m.id == n.id then record (worded n) { id = m.id; joined_at = m.joined_at } else m

abbrev pub updated : Node → List Node → List Node
updated n rows = map (over n) rows

abbrev pub deleted : ℕ → List Node → List Node
deleted id rows = retain (λ m. not (m.id == id)) rows

pub over-id : (n m : Node) → (over n m).id ≡ m.id
over-id n m = ground arith

pub IsDistinct-IsSingle :
    (id : ℕ) (rows : List Node) → IsDistinct rows → IsSingle (λ n. n.id == id) rows
IsDistinct-IsSingle id [] d = tt
IsDistinct-IsSingle id (m ∷ rows) (a, d) = (
  λ e. ap (λ i. find_node i rows) (sym ((nat_beq_iff m.id id).0 e)) ∙ a,
  IsDistinct-IsSingle id rows d,
)

pub IsNamed-IsSingle :
    (name : Text) (rows : List Node) → IsNamed rows → IsSingle (λ n. n.name == name) rows
IsNamed-IsSingle name [] d = tt
IsNamed-IsSingle name (m ∷ rows) (a, d) = (
  λ e. ap (λ i. find_named i rows) (sym ((list_beq_iff m.name name).0 e)) ∙ a,
  IsNamed-IsSingle name rows d,
)

find_node-append :
    (id : ℕ) (rows : List Node) (n : Node)
    → find_node id rows ≡ none
    → (n.id == id) ≡ false
    → find_node id (rows ++ n ∷ []) ≡ none
find_node-append id [] n h e = ground (arith, e)
find_node-append id (m ∷ rows) n h e = ground (arith, find_node-append id rows n, h, e)

find_named-append :
    (name : Text) (rows : List Node) (n : Node)
    → find_named name rows ≡ none
    → (n.name == name) ≡ false
    → find_named name (rows ++ n ∷ []) ≡ none
find_named-append name [] n h e = ground (arith, e)
find_named-append name (m ∷ rows) n h e = ground (arith, find_named-append name rows n, h, e)

pub append-IsDistinct :
    (n : Node) (rows : List Node)
    → taken n rows ≡ false
    → IsDistinct rows
    → IsDistinct (rows ++ worded n ∷ [])
append-IsDistinct n [] h d = (refl, tt)
append-IsDistinct n (m ∷ rows) h (a, d) = (
  find_node-append m.id rows (worded n) a (ground (arith, h)),
  append-IsDistinct n rows (ground (arith, h)) d,
)

pub append-IsNamed :
    (n : Node) (rows : List Node)
    → taken n rows ≡ false
    → IsNamed rows
    → IsNamed (rows ++ worded n ∷ [])
append-IsNamed n [] h d = (refl, tt)
append-IsNamed n (m ∷ rows) h (a, d) = (
  find_named-append m.name rows (worded n) a
      (ground (arith, h, list_beq_iff m.name n.name, list_beq_iff n.name m.name)),
  append-IsNamed n rows (ground (arith, h)) d,
)

pub find_node-updated :
    (n : Node) (id : ℕ) (rows : List Node)
    → find_node id (updated n rows) ≡ map_some (over n) (find_node id rows)
find_node-updated n id rows =
    find-map (over n) (λ m. m.id == id) (λ m. m.id == id) (λ m. ap (λ i. i == id) (over-id n m))
      rows

pub updated-IsDistinct :
    (n : Node) (rows : List Node) → IsDistinct rows → IsDistinct (updated n rows)
updated-IsDistinct n [] d = tt
updated-IsDistinct n (m ∷ rows) (a, d) = (
  ground (
    arith,
    find_node-updated n m.id rows,
    a,
    over-id n m,
    ap (λ i. find_node i (updated n rows)) (over-id n m),
  ),
  updated-IsDistinct n rows d,
)

find_named-own :
    (n : Node) (rows : List Node)
    → find_node n.id rows ≡ none
    → clashes n rows ≡ false
    → find_named n.name (updated n rows) ≡ none
find_named-own n [] h c = refl
find_named-own n (m ∷ rows) h c = ground (arith, find_named-own n rows, h, c)

find_named-other :
    (n : Node) (name : Text) (rows : List Node)
    → find_named name rows ≡ none
    → (n.name == name) ≡ false
    → find_named name (updated n rows) ≡ none
find_named-other n name [] h e = refl
find_named-other n name (m ∷ rows) h e = ground (arith, find_named-other n name rows, h, e)

pub updated-IsNamed :
    (n : Node) (rows : List Node)
    → clashes n rows ≡ false
    → IsDistinct rows
    → IsNamed rows
    → IsNamed (updated n rows)
updated-IsNamed n [] c d k = tt
updated-IsNamed n (m ∷ rows) c (a, d) (b, k) = (
  elim (Bool-cases (m.id == n.id)) [
    | inl e ↦ rw e (
        find_named-own n rows (ap (λ i. find_node i rows) (sym ((nat_beq_iff m.id n.id).0 e)) ∙ a)
          (ground (arith, c)))
    | inr e ↦ rw e (
        find_named-other n m.name rows b
          (ground (arith, c, e, list_beq_iff m.name n.name, list_beq_iff n.name m.name)))
  ],
  updated-IsNamed n rows (ground (arith, c)) d k,
)

pub find-deleted :
    (p : Node → Bool) (id : ℕ) (rows : List Node)
    → find p rows ≡ none
    → find p (deleted id rows) ≡ none
find-deleted p id [] h = refl
find-deleted p id (m ∷ rows) h = ground (arith, find-deleted p id rows, h)

pub deleted-IsDistinct :
    (id : ℕ) (rows : List Node) → IsDistinct rows → IsDistinct (deleted id rows)
deleted-IsDistinct id [] d = tt
deleted-IsDistinct id (m ∷ rows) (a, d) = elim (Bool-cases (m.id == id)) [
  | inl e ↦ rw e (deleted-IsDistinct id rows d)
  | inr e ↦ rw e (find-deleted (λ n. n.id == m.id) id rows a, deleted-IsDistinct id rows d)
]

pub deleted-IsNamed : (id : ℕ) (rows : List Node) → IsNamed rows → IsNamed (deleted id rows)
deleted-IsNamed id [] d = tt
deleted-IsNamed id (m ∷ rows) (a, d) = elim (Bool-cases (m.id == id)) [
  | inl e ↦ rw e (deleted-IsNamed id rows d)
  | inr e ↦ rw e (find-deleted (λ n. n.name == m.name) id rows a, deleted-IsNamed id rows d)
]

-- A sort keeps the ids distinct.
find_node-insert_by :
    (below : Node → Node → Bool) (id : ℕ) (x : Node) (ys : List Node)
    → find_node id ys ≡ none
    → (x.id == id) ≡ false
    → find_node id (insert_by below x ys) ≡ none
find_node-insert_by below id x [] h e = ground (arith, e)
find_node-insert_by below id x (y ∷ ys) h e =
    ground (arith, find_node-insert_by below id x ys, h, e)

insert_by-IsDistinct :
    (below : Node → Node → Bool) (x : Node) (ys : List Node)
    → find_node x.id ys ≡ none
    → IsDistinct ys
    → IsDistinct (insert_by below x ys)
insert_by-IsDistinct below x [] h d = (refl, tt)
insert_by-IsDistinct below x (y ∷ ys) h (a, d) = elim (Bool-cases (below x y)) [
  | inl e ↦ rw e (h, (a, d))
  | inr e ↦ rw e (
    find_node-insert_by below y.id x ys a (ground (arith, h)),
    insert_by-IsDistinct below x ys (ground (arith, h)) d,
  )
]

pub sort_by-IsDistinct :
    (below : Node → Node → Bool) (rows : List Node)
    → IsDistinct rows
    → IsDistinct (sort_by below rows)
sort_by-IsDistinct below [] d = tt
sort_by-IsDistinct below (x ∷ rows) (a, d) =
    insert_by-IsDistinct below x (sort_by below rows)
      (find-sort_by below (λ n. n.id == x.id) rows (IsDistinct-IsSingle x.id rows d) ∙ a)
      (sort_by-IsDistinct below rows d)
