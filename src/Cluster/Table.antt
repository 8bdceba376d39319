-- ===== src/Cluster/Table.antt =====
-- A store that keeps its rows in lists: it has every law that the cluster relies on.
use nexad.Prelude.{
  ℕ, ◌≡◌, refl, false, not, ◌&&◌, Option, none, some, List, [], ◌∷◌, arith, Text, ◌==◌, byte_eq,
  list_eq, if◌then◌else◌, Bool-cases, inl, inr,
}
use nexad.HashMap.{is_some}
use nexad.Result.{invalid_spec, Result, ok, err, is_ok}
use nexad.Cluster.Nodes.{Node, Pod, StateStore}
use nexad.Cluster.Lawful.{find_node, find_named, IsDistinct, IsLawful}

pub record Table : Type 0 where
  pub rows : List Node
  pub distinct : IsDistinct rows
  pub pod_rows : List Pod

unfoldable pub put : Node → List Node → List Node
put n [] = []
put n (m ∷ rows) = let rest = put n rows in if m.id == n.id then n ∷ rest else m ∷ rest

find_node-put :
    (n : Node) (rows : List Node) (id : ℕ)
    → find_node id (put n rows)
      ≡ (if n.id == id && is_some (find_node id rows) then some n else find_node id rows)
unfolding put
find_node-put n [] id = ground arith
find_node-put n (m ∷ rows) id = ground (arith, find_node-put n rows id)

pub find_node-put_held :
    (n : Node) (rows : List Node) (m : Node) (id : ℕ)
    → find_node n.id rows ≡ some m
    → find_node id (put n rows) ≡ (if n.id == id then some n else find_node id rows)
find_node-put_held n rows m id h = ground (arith, find_node-put n rows id, h)

pub find_node-put_other :
    (n : Node) (rows : List Node) (id : ℕ)
    → (n.id == id) ≡ false
    → find_node id (put n rows) ≡ find_node id rows
find_node-put_other n rows id h = ground (arith, find_node-put n rows id, h)

pub put-IsDistinct : (n : Node) (rows : List Node) → IsDistinct rows → IsDistinct (put n rows)
unfolding put
put-IsDistinct n [] d = tt
put-IsDistinct n (m ∷ rows) (a, d) = elim (Bool-cases (m.id == n.id)) [
  | inl h ↦ rw h (ground (arith, find_node-put n rows n.id, a, h), put-IsDistinct n rows d)
  | inr h ↦ rw h (ground (arith, find_node-put n rows m.id, a, h), put-IsDistinct n rows d)
]

unfoldable pub insert_row :
    (n : Node) (s : Table) (o : Option Node) → find_node n.id s.rows ≡ o → Result (Unit {0}) × Table
insert_row n s none h =
    (ok tt, record { rows = n ∷ s.rows; distinct = (h, s.distinct); pod_rows = s.pod_rows })
insert_row n s (some m) h = (err (invalid_spec n.name), s)

unfoldable pub insert_unnamed : Node → Table → Option Node → Result (Unit {0}) × Table
unfolding insert_row
insert_unnamed n s none = insert_row n s (find_node n.id s.rows) refl
insert_unnamed n s (some m) = (err (invalid_spec n.name), s)

insert_row_ok :
    (n : Node) (s : Table) (o : Option Node) (h : find_node n.id s.rows ≡ o)
    → is_ok (insert_row n s o h).0 ≡ not (is_some o)
unfolding insert_row
insert_row_ok n s none h = refl
insert_row_ok n s (some m) h = refl

insert_row_named :
    (n : Node) (s : Table) (o : Option Node) (h : find_node n.id s.rows ≡ o) (name : Text)
    → find_named name (insert_row n s o h).1.rows
      ≡ (if is_ok (insert_row n s o h).0 && n.name == name then some n else find_named name s.rows)
unfolding insert_row
insert_row_named n s none h name = refl
insert_row_named n s (some m) h name = refl

pub insert_unnamed_ok :
    (n : Node) (s : Table) (o : Option Node)
    → is_ok (insert_unnamed n s o).0 ≡ (not (is_some o) && not (is_some (find_node n.id s.rows)))
unfolding insert_unnamed
insert_unnamed_ok n s none = insert_row_ok n s (find_node n.id s.rows) refl
insert_unnamed_ok n s (some m) = refl

pub insert_unnamed_named :
    (n : Node) (s : Table) (o : Option Node) (name : Text)
    → find_named name (insert_unnamed n s o).1.rows ≡ (
        if is_ok (insert_unnamed n s o).0 && n.name == name then some n else find_named name s.rows)
unfolding insert_unnamed
insert_unnamed_named n s none name = insert_row_named n s (find_node n.id s.rows) refl name
insert_unnamed_named n s (some m) name = refl

abbrev pub table_store : StateStore Table
table_store = record {
  list_nodes = λ s. ok s.rows;
  get_node = λ s id. ok (find_node id s.rows);
  get_node_by_name = λ s name. ok (find_named name s.rows);
  insert_node = λ s n. insert_unnamed n s (find_named n.name s.rows);
  update_node = λ s n. (
    ok tt,
    record {
      rows = put n s.rows;
      distinct = put-IsDistinct n s.rows s.distinct;
      pod_rows = s.pod_rows;
    },
  );
  list_pods = λ s project. ok s.pod_rows;
}

abbrev pub table_laws : IsLawful table_store
table_laws = record {
  nodes = λ s. s.rows;
  pods = λ s. s.pod_rows;
  list_nodes_lem = λ s. refl;
  list_pods_lem = λ s. refl;
  get_node_lem = λ s id. refl;
  get_node_by_name_lem = λ s name. refl;
  nodes_distinct = λ s. s.distinct;
  update_node_lem = λ s n m id h e j w. find_node-put_held n s.rows m id h;
  update_other = λ s n id h. find_node-put_other n s.rows id h;
  update_pods = λ s n. refl;
  insert_ok = λ s n w. insert_unnamed_ok n s (find_named n.name s.rows);
  insert_named = λ s n name w. insert_unnamed_named n s (find_named n.name s.rows) name;
}
