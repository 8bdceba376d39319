-- ===== src/Sqlite/Backing.antt =====
-- The SQLite store without faults behind the interfaces of the cluster and of the
-- handlers.
use nexad.Prelude.{ℕ, ◌∙◌, not, none, Text, ◌==◌, byte_eq, list_eq}
use nexad.Cluster.Nodes.{Node, StateStore}
use nexad.Api.Store.{AdminStore}
use nexad.Sqlite.Driver.{Driver}
use nexad.Sqlite.Pods.{list_pods}
use nexad.Sqlite.Nodes.{
  insert_node, get_node, get_node_by_name, list_nodes, update_node, delete_node, get_cluster_config,
  set_cluster_config,
}
use nexad.Sqlite.Rows.{All-retain}
use nexad.Sqlite.NodeLaws.{IsReadable}
use nexad.Sqlite.NodeList
use nexad.Sqlite.NodeList.{
  word_of, worded, worded_same, word_of-IsRegular, taken, known, clashes, over, updated, deleted,
}
use nexad.Sqlite.Kept.{
  HasRegular, inserted, changed, inserted-words, inserted-IsDistinct, inserted-IsNamed,
  changed-words, changed-IsDistinct, changed-IsNamed,
}
use nexad.Sqlite.Store.{
  Stored, list_pods-pods, insert_node-held, update_node-held, delete_node-held, insert_node-pods,
  update_node-pods, delete_node-pods, set_cluster_config-nodes, set_cluster_config-pods,
}

module _ {Spec : Type 0} (d : Driver Spec) (r : IsReadable d) where
  abbrev pub after_insert : Stored d → Node → Stored d
  after_insert s n = record {
    db = (insert_node d none s.db n).1;
    rows = inserted n s.rows;
    held = insert_node-held d r s.db s.rows n s.held;
    words = inserted-words n s.rows s.words;
    distinct = inserted-IsDistinct n s.rows s.distinct;
    named = inserted-IsNamed n s.rows s.named;
    pods = s.pods;
    pods_read =
        list_pods-pods d r s.db (insert_node d none s.db n).1 (insert_node-pods d r s.db n)
        ∙ s.pods_read;
  }

  abbrev pub after_update : Stored d → Node → Stored d
  after_update s n = record {
    db = (update_node d none s.db n).1;
    rows = changed n s.rows;
    held = update_node-held d r s.db s.rows n s.held;
    words = changed-words n s.rows s.words;
    distinct = changed-IsDistinct n s.rows s.distinct;
    named = changed-IsNamed n s.rows s.distinct s.named;
    pods = s.pods;
    pods_read =
        list_pods-pods d r s.db (update_node d none s.db n).1 (update_node-pods d r s.db n)
        ∙ s.pods_read;
  }

  abbrev pub after_delete : Stored d → ℕ → Stored d
  after_delete s id = record {
    db = (delete_node d none s.db id).1;
    rows = deleted id s.rows;
    held = delete_node-held d r s.db s.rows id s.held;
    words = All-retain HasRegular (λ m. not (m.id == id)) s.rows s.words;
    distinct = NodeList.deleted-IsDistinct id s.rows s.distinct;
    named = NodeList.deleted-IsNamed id s.rows s.named;
    pods = s.pods;
    pods_read =
        list_pods-pods d r s.db (delete_node d none s.db id).1 (delete_node-pods d r s.db id)
        ∙ s.pods_read;
  }

  abbrev pub after_set : Stored d → Text → Text → Stored d
  after_set s key value = record s {
    db = (set_cluster_config d none s.db key value).1;
    held = set_cluster_config-nodes d s.db key value ∙ s.held;
    pods_read =
        list_pods-pods d r s.db (set_cluster_config d none s.db key value).1
          (set_cluster_config-pods d s.db key value)
        ∙ s.pods_read;
  }

  -- the calls of the store as the daemon gives it to its parts
  abbrev pub sqlite_nodes : StateStore (Stored d)
  sqlite_nodes = record {
    list_nodes = λ s. list_nodes d none s.db;
    get_node = λ s id. get_node d none s.db id;
    get_node_by_name = λ s name. get_node_by_name d none s.db name;
    insert_node = λ s n. ((insert_node d none s.db n).0, after_insert s n);
    update_node = λ s n. ((update_node d none s.db n).0, after_update s n);
    list_pods = λ s project. list_pods d none s.db project;
  }

  abbrev pub sqlite_store : AdminStore (Stored d)
  sqlite_store = record {
    nodes = sqlite_nodes;
    delete_node = λ s id. ((delete_node d none s.db id).0, after_delete s id);
    get_cluster_config = λ s key. get_cluster_config d none s.db key;
    set_cluster_config =
        λ s key value. ((set_cluster_config d none s.db key value).0, after_set s key value);
  }
