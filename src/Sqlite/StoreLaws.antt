-- ===== src/Sqlite/StoreLaws.antt =====
-- The SQLite store without faults is a store as the cluster and the handlers rely on.
use nexad.Prelude.{
  ℕ, ◌≡◌, refl, sym, ap, ◌∙◌, false, not, ◌&&◌, none, some, arith, Text, ◌==◌, byte_eq, list_eq,
  nat_beq_iff, if◌then◌else◌,
}
use nexad.HashMap.{get, get-insert, is_some}
use nexad.Result.{ok, is_ok}
use nexad.Cluster.Nodes.{Node}
use nexad.Cluster.Lawful.{find_node, find_named, IsLawful}
use nexad.Api.Store.{IsAdmin}
use nexad.Api.TokenLaws.{IsConfigured}
use nexad.Sqlite.Driver.{Driver}
use nexad.Sqlite.Nodes.{insert_node, update_node, get_cluster_config, set_cluster_config}
use nexad.Sqlite.NodeLaws.{IsReadable}
use nexad.Sqlite.NodeList.{sort_by-IsDistinct}
use nexad.Sqlite.Kept.{HasRegular}
use nexad.Sqlite.Backing.{after_insert, after_update, after_delete, sqlite_nodes, sqlite_store}
use nexad.Sqlite.Replaced.{
  taken_found, known_found, found_words, changed_other, clashes_own, find_node-find_named,
  changed-put, find_named-inserted,
}
use nexad.State.Subnets.{find_holds}
use nexad.Cluster.Table.{put, find_node-put_held}
use nexad.Api.Table.{find_named-put, find_node-without}
use nexad.Api.NodeLaws.{find_named-find_node}
use nexad.Sqlite.Reading.{
  below, sorted, sorted_node, sorted_named, get_node-sorted, get_node_by_name-sorted,
  list_nodes-sorted,
}
use nexad.Sqlite.Store.{Stored, insert_node-ok, update_node-ok, delete_node-ok}

module _ {Spec : Type 0} (d : Driver Spec) (r : IsReadable d) where
  after_insert_named :
      (s : Stored d) (n : Node) (name : Text)
      → HasRegular n
      → find_named name (sorted (after_insert d r s n)) ≡ (
          if is_ok (insert_node d none s.db n).0 && n.name == name
          then some n
          else find_named name (sorted s))
  after_insert_named s n name w =
      sorted_named d r (after_insert d r s n) name
      ∙ find_named-inserted n s.rows name w
      ∙ rw (insert_node-ok d r s.db s.rows n s.held, w.numbers, sorted_named d r s name) refl

  after_insert_ok :
      (s : Stored d) (n : Node)
      → HasRegular n
      → is_ok (insert_node d none s.db n).0 ≡ (
          not (is_some (find_named n.name (sorted s))) && not (is_some (find_node n.id (sorted s))))
  after_insert_ok s n w =
      rw
        (
          insert_node-ok d r s.db s.rows n s.held,
          w.numbers,
          sorted_named d r s n.name,
          sorted_node d r s n.id,
        )
        (ground (arith, taken_found n s.rows))

  after_update-put :
      (s : Stored d) (n m : Node)
      → find_node n.id s.rows ≡ some m
      → find_named n.name s.rows ≡ some m
      → m.joined_at ≡ n.joined_at
      → (HasRegular m → HasRegular n)
      → (after_update d r s n).rows ≡ put n s.rows
  after_update-put s n m h g j w = changed-put n m s.rows s.words s.distinct s.named h g j w

  named_too :
      (s : Stored d) (n m : Node)
      → find_node n.id (sorted s) ≡ some m
      → m.name ≡ n.name
      → find_named n.name s.rows ≡ some m
  named_too s n m h e =
      ap (λ name. find_named name s.rows) (sym e)
      ∙ find_node-find_named n.id s.rows m s.named (sym (sorted_node d r s n.id) ∙ h)

  after_update_node :
      (s : Stored d) (n m : Node) (id : ℕ)
      → find_node n.id (sorted s) ≡ some m
      → m.name ≡ n.name
      → m.joined_at ≡ n.joined_at
      → (HasRegular m → HasRegular n)
      → find_node id (sorted (after_update d r s n))
        ≡ (if n.id == id then some n else find_node id (sorted s))
  after_update_node s n m id h e j w =
      let held = sym (sorted_node d r s n.id) ∙ h in
      sorted_node d r (after_update d r s n) id
      ∙ ap (find_node id) (after_update-put s n m held (named_too s n m h e) j w)
      ∙ find_node-put_held n s.rows m id held
      ∙ rw (sorted_node d r s id) refl

  after_update_other :
      (s : Stored d) (n : Node) (id : ℕ)
      → (n.id == id) ≡ false
      → find_node id (sorted (after_update d r s n)) ≡ find_node id (sorted s)
  after_update_other s n id h =
      sorted_node d r (after_update d r s n) id
      ∙ changed_other n s.rows id h
      ∙ sym (sorted_node d r s id)

  after_update_named :
      (s : Stored d) (n m : Node) (name : Text)
      → find_named n.name (sorted s) ≡ some m
      → m.id ≡ n.id
      → m.joined_at ≡ n.joined_at
      → (HasRegular m → HasRegular n)
      → find_named name (sorted (after_update d r s n))
        ≡ (if n.name == name then some n else find_named name (sorted s))
  after_update_named s n m name h e j w =
      let held : find_named n.name s.rows ≡ some m = sym (sorted_named d r s n.name) ∙ h in
      let found : find_node n.id s.rows ≡ some m =
        ap (λ i. find_node i s.rows) (sym e)
        ∙ find_named-find_node n.name s.rows m s.distinct held in
      sorted_named d r (after_update d r s n) name
      ∙ ap (find_named name) (after_update-put s n m found held j w)
      ∙ find_named-put n m s.rows name s.distinct held e
      ∙ rw (sorted_named d r s name) refl

  -- Without faults the SQLite store is a store as the cluster relies on.
  pub sqlite_nodes-IsLawful : IsLawful (sqlite_nodes d r)
  sqlite_nodes-IsLawful = record {
    nodes = sorted;
    pods = λ s. s.pods;
    list_nodes_lem = list_nodes-sorted d r;
    list_pods_lem = λ s. s.pods_read;
    get_node_lem = get_node-sorted d r;
    get_node_by_name_lem = get_node_by_name-sorted d r;
    nodes_distinct = λ s. sort_by-IsDistinct below s.rows s.distinct;
    update_node_lem = after_update_node;
    update_other = after_update_other;
    update_pods = λ s n. refl;
    insert_ok = after_insert_ok;
    insert_named = after_insert_named;
  }

  after_update_ok :
      (s : Stored d) (n m : Node)
      → find_node n.id (sorted s) ≡ some m
      → m.name ≡ n.name
      → (HasRegular m → HasRegular n)
      → (update_node d none s.db n).0 ≡ ok tt
  after_update_ok s n m h e w =
      let held = sym (sorted_node d r s n.id) ∙ h in
      let regular = w (found_words n.id s.rows m s.words held) in
      update_node-ok d r s.db s.rows n s.held (known_found n m s.rows held) regular.numbers (
        clashes_own n m s.rows (named_too s n m h e)
          ((nat_beq_iff m.id n.id).0 (find_holds (λ x. x.id == n.id) s.rows m held)) s.named)

  -- The SQLite store whose statements do not fail, over any table of nodes without an id or a name
  -- twice and whose text forms parse to what they were, has all that the cluster and the handlers
  -- rely on: it lists what it finds by id and by name; an insertion of a node whose resources are words and
  -- numbers is refused exactly where the id or the name is taken; an update to such resources replaces the
  -- one node, and any other leaves the other nodes; and a deletion removes the node.
  pub sqlite_store-IsAdmin : IsAdmin (sqlite_store d r)
  unfolding sqlite_nodes-IsLawful
  sqlite_store-IsAdmin = record {
    lawful = sqlite_nodes-IsLawful;
    update_ok = after_update_ok;
    update_named = after_update_named;
    delete_ok = λ s id. delete_node-ok d s.db id;
    delete_node_lem = λ s id j.
        sorted_node d r (after_delete d r s id) j
        ∙ find_node-without id j s.rows
        ∙ rw (sorted_node d r s j) refl;
  }

  get_cluster_config-config :
      (s : Stored d) (key : Text)
      → get_cluster_config d none s.db key ≡ ok (get s.db.cluster_config key)
  unfolding get_cluster_config
  get_cluster_config-config s key = refl

  set_cluster_config-config :
      (s : Stored d) (key value j : Text)
      → get (set_cluster_config d none s.db key value).1.cluster_config j ≡ (
          if is_ok (set_cluster_config d none s.db key value).0 && key == j
          then some value
          else get s.db.cluster_config j)
  unfolding set_cluster_config
  set_cluster_config-config s key value j = get-insert s.db.cluster_config key j value

  insert_node-config :
      (n : Node) (s : Stored d) → (insert_node d none s.db n).1.cluster_config ≡ s.db.cluster_config
  unfolding insert_node
  insert_node-config n s = ground arith

  -- Its settings are read as they were set.
  pub sqlite_store-IsConfigured : IsConfigured (sqlite_store d r)
  sqlite_store-IsConfigured = record {
    config = λ s key. get s.db.cluster_config key;
    get_lem = get_cluster_config-config;
    set_lem = set_cluster_config-config;
    insert_keeps = λ s n key. ap (λ m. get m key) (insert_node-config n s);
  }
