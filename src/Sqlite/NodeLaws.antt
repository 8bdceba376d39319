-- ===== src/Sqlite/NodeLaws.antt =====
-- What is read of a node after it was inserted, updated or deleted.
use nexad.Prelude.{
  ℕ, as_u64-u64_as_i64, as_u32-u32_as_i32, ◌≡◌, refl, sym, ◌∙◌, ap, true, false, ◌&&◌, ◌||◌, Option,
  none, some, List, [], ◌∷◌, map, arith, Text, ◌==◌, byte_eq, list_eq, list_beq_iff, if◌then◌else◌,
  any, find, Bool-cases, inl, inr,
}
use mathlib.Core.Option.{some-injective}
use nexad.Result.{ok, is_ok}
use nexad.Cluster.Nodes.{Node, IsRegular}
use nexad.State.Subnets.{any-find, find-append_one, find_holds}
use nexad.Sqlite.Driver.{Codec, IsFaithful, Driver, read_row, parsed}
use nexad.Sqlite.Tables.{NodeRow, Database, node_row, row_to_node}
use nexad.Sqlite.Nodes.{updated_row, insert_node, get_node, update_node}

-- The text forms of the values of a node parse to what they were.
pub record IsReadable {Spec : Type 0} (d : Driver Spec) : Type 0 where
  pub uuid : IsFaithful d.uuid
  pub time : IsFaithful d.time
  pub role : IsFaithful d.role
  pub node_status : IsFaithful d.node_status

pub parsed-show :
    {A : Type 0} (c : Codec A) (context : Text) (a : A)
    → IsFaithful c
    → parsed c context (c.show a) ≡ ok a
parsed-show c context a h = ground (arith, h a)

module _ {Spec : Type 0} (d : Driver Spec) (r : IsReadable d) where
  pub row_to_node-node_row :
      (n : Node) → IsRegular n.resources → row_to_node d (node_row d n) ≡ ok n
  unfolding row_to_node node_row
  row_to_node-node_row n w = ground (
    arith,
    r.uuid n.id,
    r.role n.role,
    r.node_status n.status,
    r.time n.last_heartbeat,
    r.time n.joined_at,
    as_u64-u64_as_i64 n.resources.memory_bytes w.memory_bytes,
    as_u64-u64_as_i64 n.resources.memory_available w.memory_available,
    as_u32-u32_as_i32 n.resources.running_pods w.running_pods,
  )

  pub show_same : (i j : ℕ) → (d.uuid.show i == d.uuid.show j) ≡ (i == j)
  show_same i j = elim (Bool-cases (d.uuid.show i == d.uuid.show j)) [
    | inl e ↦
        let same : d.uuid.show i ≡ d.uuid.show j =
          (list_beq_iff (d.uuid.show i) (d.uuid.show j)).0 e in
        let ids : i ≡ j = some-injective i j (sym (r.uuid i) ∙ ap d.uuid.parse same ∙ r.uuid j) in
        ground (arith, e, ids)
    | inr e ↦ ground (arith, e, list_beq_iff (d.uuid.show i) (d.uuid.show j))
  ]

  id_free :
      (id name t : Text) (rows : List NodeRow)
      → any (λ r. r.id == id || r.name == name) rows ≡ false
      → (id == t) ≡ true
      → any (λ r. r.id == t) rows ≡ false
  id_free id name t [] h e = refl
  id_free id name t (x ∷ rows) h e = ground (
    arith,
    id_free id name t rows,
    list_beq_iff x.id id,
    list_beq_iff x.id t,
    list_beq_iff id t,
    h,
    e,
  )

  node_row-id : (n : Node) → (node_row d n).id ≡ d.uuid.show n.id
  unfolding node_row
  node_row-id n = refl

  -- After an insertion that succeeded its node is read back as it was; after one that failed, and
  -- for every other id, what is read does not change.
  pub get_node-insert_node :
      (fault : Option Text) (db : Database) (n : Node) (id : ℕ)
      → IsRegular n.resources
      → let done = insert_node d fault db n in
        get_node d none done.1 id
        ≡ (if is_ok done.0 && n.id == id then ok (some n) else get_node d none db id)
  unfolding insert_node get_node
  get_node-insert_node (some e) db n id w = refl
  get_node-insert_node none db n id w =
      let row = node_row d n in
      let t = d.uuid.show id in
      ground (
        arith,
        find-append_one (λ r. r.id == t) db.nodes row,
        any-find (λ r. r.id == t) db.nodes,
        row_to_node-node_row n w,
        node_row-id n,
        show_same n.id id,
        id_free row.id row.name t db.nodes,
      )

  -- the row that an update leaves under an id
  find-updated :
      (row : NodeRow) (t : Text) (rows : List NodeRow)
      → find (λ r. r.id == t) (map (λ r. if r.id == row.id then updated_row row r else r) rows)
        ≡ (elim (find (λ r. r.id == t) rows) [
          | none ↦ none
          | some old ↦ if row.id == t then some (updated_row row old) else some old
        ])
  unfolding updated_row
  find-updated row t [] = refl
  find-updated row t (x ∷ rows) = ground (
    arith,
    find-updated row t rows,
    list_beq_iff x.id row.id,
    list_beq_iff x.id t,
    list_beq_iff row.id t,
  )

  row_to_node-updated :
      (n m : Node) (old : NodeRow)
      → IsRegular n.resources
      → row_to_node d old ≡ ok m
      → m.id ≡ n.id
      → row_to_node d (updated_row (node_row d n) old) ≡ ok (record n { joined_at = m.joined_at })
  unfolding row_to_node node_row updated_row
  row_to_node-updated n m old w h e = ground (
    arith,
    h,
    e,
    r.role n.role,
    r.node_status n.status,
    r.time n.last_heartbeat,
    as_u64-u64_as_i64 n.resources.memory_bytes w.memory_bytes,
    as_u64-u64_as_i64 n.resources.memory_available w.memory_available,
    as_u32-u32_as_i32 n.resources.running_pods w.running_pods,
  )

  row_to_node-id :
      (old : NodeRow) (m : Node) (i : ℕ)
      → row_to_node d old ≡ ok m
      → (old.id == d.uuid.show i) ≡ true
      → m.id ≡ i
  unfolding row_to_node
  row_to_node-id old m i h e =
      let same : old.id ≡ d.uuid.show i = (list_beq_iff old.id (d.uuid.show i)).0 e in
      let reads : d.uuid.parse old.id ≡ some i = rw same (r.uuid i) in ground (arith, reads, h)

  find_text :
      (s t : Text) (rows : List NodeRow)
      → (s == t) ≡ true
      → find (λ r. r.id == s) rows ≡ find (λ r. r.id == t) rows
  find_text s t rows e = ap (λ x. find (λ r. r.id == x) rows) ((list_beq_iff s t).0 e)

  read_some :
      (o : Option NodeRow) (m : Node)
      → read_row (row_to_node d) o ≡ ok (some m)
      → (old : NodeRow) × (o ≡ some old) × (row_to_node d old ≡ ok m)
  read_some none m h = ground (arith, h)
  read_some (some old) m h = (old, refl, ground (arith, h))

  -- After an update that succeeded, of a node that was read before it, the node is read back as it
  -- was given, but with the time of joining that it had. After one that failed, and for every other
  -- id, what is read does not change.
  pub get_node-update_node :
      (fault : Option Text) (db : Database) (n m : Node) (id : ℕ)
      → IsRegular n.resources
      → get_node d none db n.id ≡ ok (some m)
      → let done = update_node d fault db n in
        get_node d none done.1 id ≡ (
          if is_ok done.0 && n.id == id
          then ok (some (record n { joined_at = m.joined_at }))
          else get_node d none db id)
  unfolding update_node get_node
  get_node-update_node (some e) db n m id w h = refl
  get_node-update_node none db n m id w h =
      let row = node_row d n in
      let s = d.uuid.show n.id in
      let t = d.uuid.show id in
      let (old, found, reads) = read_some (find (λ r. r.id == s) db.nodes) m h in
      let same = row_to_node-id old m n.id reads (find_holds (λ r. r.id == s) db.nodes old found) in
      ground (
        arith,
        find-updated row t db.nodes,
        find_text s t db.nodes,
        row_to_node-updated n m old w reads same,
        node_row-id n,
        show_same n.id id,
        found,
      )
