-- ===== src/Sqlite/Reading.antt =====
-- What is read of a stored table of nodes.
use nexad.Prelude.{
  ℕ, ◌≡◌, refl, sym, ap, ◌∙◌, Bool, none, List, [], ◌∷◌, Text, ◌==◌, byte_eq, list_eq, find,
  sort_by, All, Bool-cases, inl, inr,
}
use nexad.Secrets.Store.{text_leb}
use nexad.Result.{ok, collect}
use nexad.Cluster.Nodes.{Node}
use nexad.Cluster.Lawful.{find_node, find_named}
use nexad.Sqlite.Driver.{Driver, read_row}
use nexad.Sqlite.Tables.{node_row, row_to_node}
use nexad.Sqlite.Nodes.{get_node, get_node_by_name, list_nodes}
use nexad.Sqlite.Sorted.{find-sort_by, All-sort_by, sort_by-map, find-map, collect-map, map_some}
use nexad.Sqlite.NodeLaws.{IsReadable, show_same, row_to_node-node_row}
use nexad.Sqlite.NodeList
use nexad.Sqlite.NodeList.{sort_by-IsDistinct}
use nexad.Sqlite.NodeList.{
  word_of, worded, worded_same, word_of-IsRegular, taken, known, clashes, over, updated, deleted,
}
use nexad.Sqlite.Kept.{HasRegular}
use nexad.Sqlite.Store.{Stored}

abbrev pub below : Node → Node → Bool
below p q = text_leb p.name q.name

-- the nodes in the order of a listing
abbrev pub sorted : {Spec : Type 0} {d : Driver Spec} → Stored d → List Node
sorted s = sort_by below s.rows

module _ {Spec : Type 0} (d : Driver Spec) (r : IsReadable d) where
  pub sorted_node : (s : Stored d) (id : ℕ) → find_node id (sorted s) ≡ find_node id s.rows
  sorted_node s id =
      find-sort_by below (λ n. n.id == id) s.rows
        (NodeList.IsDistinct-IsSingle id s.rows s.distinct)

  pub sorted_named :
      (s : Stored d) (name : Text) → find_named name (sorted s) ≡ find_named name s.rows
  sorted_named s name =
      find-sort_by below (λ n. n.name == name) s.rows
        (NodeList.IsNamed-IsSingle name s.rows s.named)

  read_found :
      (p : Node → Bool) (rows : List Node)
      → All HasRegular rows
      → read_row (row_to_node d) (map_some (node_row d) (find p rows)) ≡ ok (find p rows)
  read_found p [] h = refl
  read_found p (m ∷ rows) (a, b) = elim (Bool-cases (p m)) [
    | inl e ↦ rw (e, row_to_node-node_row d r m a) refl
    | inr e ↦ rw e (read_found p rows b)
  ]

  node_row-shown : (id : ℕ) (m : Node) → ((node_row d m).id == d.uuid.show id) ≡ (m.id == id)
  unfolding node_row
  node_row-shown id m = show_same d r m.id id

  node_row-name : (name : Text) (m : Node) → ((node_row d m).name == name) ≡ (m.name == name)
  unfolding node_row
  node_row-name name m = refl

  node_row-below : (p q : Node) → text_leb (node_row d p).name (node_row d q).name ≡ below p q
  unfolding node_row
  node_row-below p q = refl

  pub get_node-sorted :
      (s : Stored d) (id : ℕ) → get_node d none s.db id ≡ ok (find_node id (sorted s))
  unfolding get_node
  get_node-sorted s id =
      rw
        (
          s.held,
          find-map (node_row d) (λ m. m.id == id) (λ m. m.id == d.uuid.show id) (node_row-shown id)
              s.rows,
        )
        (read_found (λ m. m.id == id) s.rows s.words ∙ ap ok (sym (sorted_node s id)))

  pub get_node_by_name-sorted :
      (s : Stored d) (name : Text)
      → get_node_by_name d none s.db name ≡ ok (find_named name (sorted s))
  unfolding get_node_by_name
  get_node_by_name-sorted s name =
      rw
        (
          s.held,
          find-map (node_row d) (λ m. m.name == name) (λ m. m.name == name) (node_row-name name)
              s.rows,
        )
        (read_found (λ m. m.name == name) s.rows s.words ∙ ap ok (sym (sorted_named s name)))

  readable_rows :
      (rows : List Node) → All HasRegular rows → All (λ m. row_to_node d (node_row d m) ≡ ok m) rows
  readable_rows [] h = tt
  readable_rows (m ∷ rows) (a, b) = (row_to_node-node_row d r m a, readable_rows rows b)

  pub list_nodes-sorted : (s : Stored d) → list_nodes d none s.db ≡ ok (sorted s)
  unfolding list_nodes
  list_nodes-sorted s =
      ap (λ rows. collect (row_to_node d) (sort_by (λ p q. text_leb p.name q.name) rows)) s.held
      ∙ ap (collect (row_to_node d))
          (sort_by-map (node_row d) below (λ p q. text_leb p.name q.name) node_row-below s.rows)
      ∙ collect-map (node_row d) (row_to_node d) (sorted s)
          (readable_rows (sorted s) (All-sort_by HasRegular below s.rows s.words))
