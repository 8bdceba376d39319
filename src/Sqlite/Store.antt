-- ===== src/Sqlite/Store.antt =====
-- The SQLite store without faults, for the parts of the daemon that are given a store.
use nexad.Prelude.{
  ℕ, ◌≡◌, refl, sym, ap, ◌∙◌, true, false, not, ◌&&◌, ◌||◌, none, List, [], ◌∷◌, ◌++◌, map, arith,
  Text, ◌==◌, byte_eq, list_eq, if◌then◌else◌, any, retain, sort_by, All, Bool-cases, inl, inr,
}
use nexad.Secrets.Store.{text_leb}
use nexad.Result.{ok, is_ok, collect}
use nexad.Cluster.Nodes.{has_nan, IsRegular, Node, Pod}
use nexad.Cluster.Lawful.{IsDistinct}
use nexad.Sqlite.Driver.{Driver}
use nexad.Sqlite.Tables.{Database, node_row, row_to_pod}
use nexad.Sqlite.Pods.{pod_of_project, list_pods}
use nexad.Sqlite.Nodes.{insert_node, update_node, delete_node, updated_row, set_cluster_config}
use nexad.Sqlite.Sorted.{retain-map}
use nexad.Sqlite.Kept.{inserted, changed}
use nexad.Sqlite.NodeLaws.{IsReadable, show_same}
use nexad.Sqlite.NodeList.{worded, IsNamed, taken, known, clashes, over, updated, deleted}

-- A database whose nodes are a list of nodes as they are written, with words and numbers for resources and no id and
-- no name twice, and whose pods are read.
pub record Stored {Spec : Type 0} (d : Driver Spec) : Type 0 where
  pub db : Database
  pub rows : List Node
  pub held : db.nodes ≡ map (node_row d) rows
  pub words : All (λ n. IsRegular n.resources) rows
  pub distinct : IsDistinct rows
  pub named : IsNamed rows
  pub pods : List Pod
  pub pods_read : list_pods d none db none ≡ ok pods

module _ {Spec : Type 0} (d : Driver Spec) (r : IsReadable d) where
  node_row-worded : (n : Node) → node_row d (worded n) ≡ node_row d n
  unfolding node_row
  node_row-worded n = ground arith

  pub list_pods-pods :
      (db db' : Database)
      → db'.pods ≡ db.pods
      → list_pods d none db' none ≡ list_pods d none db none
  unfolding list_pods
  list_pods-pods db db' h =
      ap
        (λ rows. collect (row_to_pod d) (
          sort_by (λ p q. text_leb p.created_at q.created_at)
            (retain (pod_of_project d none db none) rows)))
        h

  taken-rows :
      (n : Node) (rows : List Node)
      → any
          (λ m. m.id == (node_row d n).id || m.name == (node_row d n).name)
          (map (node_row d) rows)
        ≡ taken n rows
  unfolding node_row
  taken-rows n [] = refl
  taken-rows n (m ∷ rows) = ground (arith, show_same d r m.id n.id, taken-rows n rows)

  known-rows :
      (n : Node) (rows : List Node)
      → any (λ m. m.id == (node_row d n).id) (map (node_row d) rows) ≡ known n rows
  unfolding node_row
  known-rows n [] = refl
  known-rows n (m ∷ rows) = ground (arith, show_same d r m.id n.id, known-rows n rows)

  clashes-rows :
      (n : Node) (rows : List Node)
      → any
          (λ m. not (m.id == (node_row d n).id) && m.name == (node_row d n).name)
          (map (node_row d) rows)
        ≡ clashes n rows
  unfolding node_row
  clashes-rows n [] = refl
  clashes-rows n (m ∷ rows) = ground (arith, show_same d r m.id n.id, clashes-rows n rows)

  over-row :
      (n m : Node)
      → (if (node_row d m).id == (node_row d n).id
          then updated_row (node_row d n) (node_row d m)
          else node_row d m)
        ≡ node_row d (over n m)
  unfolding node_row updated_row
  over-row n m = elim (Bool-cases (m.id == n.id)) [
    | inl e ↦
        rw (show_same d r m.id n.id, e)
          (sym (ap (λ row. updated_row row (node_row d m)) (node_row-worded n)))
    | inr e ↦ rw (show_same d r m.id n.id, e) refl
  ]

  updated-rows :
      (n : Node) (rows : List Node)
      → map
          (λ m. if m.id == (node_row d n).id then updated_row (node_row d n) m else m)
          (map (node_row d) rows)
        ≡ map (node_row d) (updated n rows)
  updated-rows n [] = refl
  updated-rows n (m ∷ rows) =
      rw (over-row n m) (ap (λ rest. node_row d (over n m) ∷ rest) (updated-rows n rows))

  map-append :
      (rows : List Node) (n : Node)
      → map (node_row d) (rows ++ n ∷ []) ≡ map (node_row d) rows ++ node_row d n ∷ []
  map-append [] n = refl
  map-append (m ∷ rows) n = ap (λ rest. node_row d m ∷ rest) (map-append rows n)

  pub insert_node-held :
      (db : Database) (rows : List Node) (n : Node)
      → db.nodes ≡ map (node_row d) rows
      → (insert_node d none db n).1.nodes ≡ map (node_row d) (inserted n rows)
  unfolding insert_node
  insert_node-held db rows n h = elim (Bool-cases (has_nan n.resources)) [
    | inl v ↦ rw (h, v) refl
    | inr v ↦ elim (Bool-cases (taken n rows)) [
      | inl e ↦ rw (h, v, taken-rows n rows, e) refl
      | inr e ↦
          rw (h, v, taken-rows n rows, e)
            (sym (
              map-append rows (worded n)
              ∙ ap (λ row. map (node_row d) rows ++ row ∷ []) (node_row-worded n)))
    ]
  ]

  pub update_node-held :
      (db : Database) (rows : List Node) (n : Node)
      → db.nodes ≡ map (node_row d) rows
      → (update_node d none db n).1.nodes ≡ map (node_row d) (changed n rows)
  unfolding update_node
  update_node-held db rows n h = elim (Bool-cases (known n rows)) [
    | inl e ↦ elim (Bool-cases (has_nan n.resources)) [
      | inl v ↦ rw (h, known-rows n rows, e, v) refl
      | inr v ↦ elim (Bool-cases (clashes n rows)) [
        | inl c ↦ rw (h, known-rows n rows, e, v, clashes-rows n rows, c) refl
        | inr c ↦ rw (h, known-rows n rows, e, v, clashes-rows n rows, c) (updated-rows n rows)
      ]
    ]
    | inr e ↦ rw (h, known-rows n rows, e) refl
  ]

  pub delete_node-held :
      (db : Database) (rows : List Node) (id : ℕ)
      → db.nodes ≡ map (node_row d) rows
      → (delete_node d none db id).1.nodes ≡ map (node_row d) (deleted id rows)
  unfolding delete_node node_row
  delete_node-held db rows id h = rw h (
      retain-map (node_row d) (λ m. not (m.id == id)) (λ m. not (m.id == d.uuid.show id))
        (λ m. ap not (show_same d r m.id id)) rows)

  pub insert_node-pods : (db : Database) (n : Node) → (insert_node d none db n).1.pods ≡ db.pods
  unfolding insert_node
  insert_node-pods db n = ground arith

  pub update_node-pods : (db : Database) (n : Node) → (update_node d none db n).1.pods ≡ db.pods
  unfolding update_node
  update_node-pods db n = ground arith

  pub delete_node-pods : (db : Database) (id : ℕ) → (delete_node d none db id).1.pods ≡ db.pods
  unfolding delete_node
  delete_node-pods db id = refl

  -- which statements succeed
  pub insert_node-ok :
      (db : Database) (rows : List Node) (n : Node)
      → db.nodes ≡ map (node_row d) rows
      → is_ok (insert_node d none db n).0 ≡ (not (has_nan n.resources) && not (taken n rows))
  unfolding insert_node
  insert_node-ok db rows n h = rw (h, taken-rows n rows) (ground arith)

  pub update_node-ok :
      (db : Database) (rows : List Node) (n : Node)
      → db.nodes ≡ map (node_row d) rows
      → known n rows ≡ true
      → has_nan n.resources ≡ false
      → clashes n rows ≡ false
      → (update_node d none db n).0 ≡ ok tt
  unfolding update_node
  update_node-ok db rows n h k v c = rw (h, known-rows n rows, k, v, clashes-rows n rows, c) refl

module _ {Spec : Type 0} (d : Driver Spec) where
  pub set_cluster_config-nodes :
      (db : Database) (key value : Text)
      → (set_cluster_config d none db key value).1.nodes ≡ db.nodes
  unfolding set_cluster_config
  set_cluster_config-nodes db key value = refl

  pub set_cluster_config-pods :
      (db : Database) (key value : Text) → (set_cluster_config d none db key value).1.pods ≡ db.pods
  unfolding set_cluster_config
  set_cluster_config-pods db key value = refl

  pub delete_node-ok : (db : Database) (id : ℕ) → (delete_node d none db id).0 ≡ ok tt
  unfolding delete_node
  delete_node-ok db id = refl
