-- ===== src/Sqlite/Replaced.antt =====
-- An update of the table of nodes puts the node in the place of the one that has its id.
use nexad.Prelude.{
  ℕ, Bool, ◌≡◌, refl, sym, ap, ◌∙◌, true, false, not, ◌&&◌, ◌||◌, none, some, List, [], ◌∷◌, arith,
  Text, ◌==◌, byte_eq, list_eq, list_beq_iff, nat_beq_iff, if◌then◌else◌, find, All, Bool-cases,
  inl, inr,
}
use mathlib.Core.Option.{some-injective}
use nexad.HashMap.{is_some}
use nexad.State.Subnets.{find-append_one, any-find, find_holds}
use nexad.Cluster.Nodes.{Node}
use nexad.Cluster.Lawful.{find_node, find_named, IsDistinct}
use nexad.Cluster.Table.{put}
use nexad.Api.Table.{put_absent}
use nexad.Sqlite.NodeList.{worded_same, IsNamed, taken, known, clashes, over, updated}
use nexad.Sqlite.Kept.{HasRegular, inserted, changed}

first_found :
    (p : Node → Bool) (x m : Node) (rows : List Node)
    → p x ≡ true
    → find p (x ∷ rows) ≡ some m
    → x ≡ m
first_found p x m rows h e =
    let here : find p (x ∷ rows) ≡ some x = rw h refl in some-injective x m (sym here ∙ e)

pub taken_found :
    (n : Node) (rows : List Node)
    → taken n rows ≡ (is_some (find_named n.name rows) || is_some (find_node n.id rows))
taken_found n [] = refl
taken_found n (m ∷ rows) = ground (arith, taken_found n rows)

pub known_found :
    (n m : Node) (rows : List Node) → find_node n.id rows ≡ some m → known n rows ≡ true
known_found n m [] h = ground (arith, h)
known_found n m (x ∷ rows) h = ground (arith, known_found n m rows, h)

clashes_absent :
    (n : Node) (rows : List Node) → find_named n.name rows ≡ none → clashes n rows ≡ false
clashes_absent n [] h = refl
clashes_absent n (x ∷ rows) h = ground (arith, clashes_absent n rows, h)

pub clashes_own :
    (n m : Node) (rows : List Node)
    → find_named n.name rows ≡ some m
    → m.id ≡ n.id
    → IsNamed rows
    → clashes n rows ≡ false
clashes_own n m [] h e k = refl
clashes_own n m (x ∷ rows) h e (a, k) = elim (Bool-cases (x.name == n.name)) [
  | inl j ↦
      let gone : find_named n.name rows ≡ none =
        ap (λ name. find_named name rows) (sym ((list_beq_iff x.name n.name).0 j)) ∙ a in
      let same : x.id ≡ n.id = ground (arith, h, j, e) in
      ground (arith, j, same, clashes_absent n rows gone)
  | inr j ↦ ground (arith, j, clashes_own n m rows (ground (arith, h, j)) e k)
]

pub found_words :
    (id : ℕ) (rows : List Node) (m : Node)
    → All HasRegular rows
    → find_node id rows ≡ some m
    → HasRegular m
found_words id [] m h e = ground (arith, e)
found_words id (x ∷ rows) m (a, b) e = elim (Bool-cases (x.id == id)) [
  | inl j ↦ rw⁻¹ (first_found (λ n. n.id == id) x m rows j e) a
  | inr j ↦ found_words id rows m b (ground (arith, e, j))
]

-- the name of a node that an id finds finds the node
pub find_node-find_named :
    (id : ℕ) (rows : List Node) (m : Node)
    → IsNamed rows
    → find_node id rows ≡ some m
    → find_named m.name rows ≡ some m
find_node-find_named id [] m k e = ground (arith, e)
find_node-find_named id (x ∷ rows) m (a, k) e = elim (Bool-cases (x.id == id)) [
  | inl j ↦
      let same = first_found (λ n. n.id == id) x m rows j e in
      let own : find_named x.name (x ∷ rows) ≡ some x =
        ground (arith, list_beq_iff x.name x.name) in
      ap (λ n. find_named n.name (x ∷ rows)) (sym same) ∙ own ∙ ap some same
  | inr j ↦
      let later = find_node-find_named id rows m k (ground (arith, e, j)) in
      elim (Bool-cases (x.name == m.name)) [
        | inl i ↦
            ground (
              arith,
              later,
              a,
              ap (λ name. find_named name rows) ((list_beq_iff x.name m.name).0 i),
            )
        | inr i ↦ ground (arith, later, i)
      ]
]

updated_absent : (n : Node) (rows : List Node) → find_node n.id rows ≡ none → updated n rows ≡ rows
updated_absent n [] h = refl
updated_absent n (x ∷ rows) h = ground (arith, updated_absent n rows, h)

over_found : (n m : Node) → m.id ≡ n.id → m.joined_at ≡ n.joined_at → HasRegular n → over n m ≡ n
over_found n m i j w = ground (arith, i, j, w.memory_bytes, w.memory_available, w.running_pods)

updated-put :
    (n m : Node) (rows : List Node)
    → IsDistinct rows
    → find_node n.id rows ≡ some m
    → m.joined_at ≡ n.joined_at
    → HasRegular n
    → updated n rows ≡ put n rows
unfolding put
updated-put n m [] d h j w = refl
updated-put n m (x ∷ rows) (a, d) h j w = elim (Bool-cases (x.id == n.id)) [
  | inl e ↦
      let gone : find_node n.id rows ≡ none =
        ap (λ i. find_node i rows) (sym ((nat_beq_iff x.id n.id).0 e)) ∙ a in
      let same = first_found (λ k. k.id == n.id) x m rows e h in
      rw (over_found n x ((nat_beq_iff x.id n.id).0 e) (ap (λ k. k.joined_at) same ∙ j) w, e)
        (ap (λ rest. n ∷ rest) (updated_absent n rows gone ∙ sym (put_absent n rows gone)))
  | inr e ↦ rw e (ap (λ rest. x ∷ rest) (updated-put n m rows d (ground (arith, h, e)) j w))
]

pub changed-put :
    (n m : Node) (rows : List Node)
    → All HasRegular rows
    → IsDistinct rows
    → IsNamed rows
    → find_node n.id rows ≡ some m
    → find_named n.name rows ≡ some m
    → m.joined_at ≡ n.joined_at
    → (HasRegular m → HasRegular n)
    → changed n rows ≡ put n rows
changed-put n m rows ws d k h g j w =
    let same = (nat_beq_iff m.id n.id).0 (find_holds (λ x. x.id == n.id) rows m h) in
    let regular = w (found_words n.id rows m ws h) in
    rw (known_found n m rows h, regular.numbers, clashes_own n m rows g same k)
      (updated-put n m rows d h j regular)

updated_other :
    (n : Node) (rows : List Node) (id : ℕ)
    → (n.id == id) ≡ false
    → find_node id (updated n rows) ≡ find_node id rows
updated_other n [] id h = refl
updated_other n (m ∷ rows) id h = ground (arith, updated_other n rows id h, h)

-- An update leaves every other id's node, whether it is carried out or not.
pub changed_other :
    (n : Node) (rows : List Node) (id : ℕ)
    → (n.id == id) ≡ false
    → find_node id (changed n rows) ≡ find_node id rows
changed_other n rows id h = ground (arith, updated_other n rows id h)

pub find_named-inserted :
    (n : Node) (rows : List Node) (name : Text)
    → HasRegular n
    → find_named name (inserted n rows)
      ≡ (if not (taken n rows) && n.name == name then some n else find_named name rows)
find_named-inserted n rows name w = elim (Bool-cases (taken n rows)) [
  | inl e ↦ rw (w.numbers, e) refl
  | inr e ↦
      rw (w.numbers, e, worded_same n w)
        (elim (Bool-cases (n.name == name)) [
          | inl i ↦ ground (
            arith,
            i,
            e,
            find-append_one (λ m. m.name == name) rows n,
            any-find (λ m. m.name == name) rows,
            taken_found n rows,
            ap (λ k. find_named k rows) ((list_beq_iff n.name name).0 i),
          )
          | inr i ↦ ground (
            arith,
            i,
            find-append_one (λ m. m.name == name) rows n,
            any-find (λ m. m.name == name) rows,
          )
        ])
]
