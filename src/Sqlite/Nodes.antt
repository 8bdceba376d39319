-- ===== src/Sqlite/Nodes.antt =====
-- Nodes and the cluster's settings in src/adapters/state/sqlite.rs.
use nexad.Prelude.{
  ℕ, not, ◌&&◌, ◌||◌, Option, List, [], ◌∷◌, ◌++◌, map, Text, text, ◌==◌, byte_eq, list_eq,
  if◌then◌else◌, any, find, retain, sort_by,
}
use nexad.HashMap
use nexad.Secrets.Store.{text_leb}
use nexad.Result.{runtime, invalid_spec, node_not_found, Result, ok, err, collect}
use nexad.Cluster.Nodes.{NodeResources, is_nan, has_nan, Node}
use nexad.Sqlite.Driver.{Driver, execute, query, read_row}
use nexad.Sqlite.Tables.{NodeRow, Database, node_row, row_to_node}

-- what `UPDATE nodes` leaves of the old row
unfoldable pub updated_row : NodeRow → NodeRow → NodeRow
updated_row new old = record new { id = old.id; joined_at = old.joined_at }

-- the first column that would be NULL, as a NaN is bound as NULL
unfoldable pub null_column : NodeResources → Text
null_column r = if is_nan r.cpu_cores then text "nodes.cpu_cores" else text "nodes.cpu_available"

module _ {Spec : Type 0} (d : Driver Spec) (fault : Option Text) (db : Database) where
  unfoldable pub insert_node : Node → Result (Unit {0}) × Database
  insert_node n =
      let row = node_row d n in
      execute fault db (
        if has_nan n.resources
        then (err (runtime (d.not_null_failed (null_column n.resources))), db)
        else if any (λ r. r.id == row.id || r.name == row.name) db.nodes
        then (err (invalid_spec (text "node '" ++ (n.name ++ text "' already exists"))), db)
        else (ok tt, record db { nodes = db.nodes ++ row ∷ [] }))

  unfoldable pub get_node : ℕ → Result (Option Node)
  get_node id = query fault (read_row (row_to_node d) (find (λ r. r.id == d.uuid.show id) db.nodes))

  unfoldable pub get_node_by_name : Text → Result (Option Node)
  get_node_by_name name =
      query fault (read_row (row_to_node d) (find (λ r. r.name == name) db.nodes))

  unfoldable pub list_nodes : Result (List Node)
  list_nodes =
      query fault (collect (row_to_node d) (sort_by (λ p q. text_leb p.name q.name) db.nodes))

  -- a name that another row holds breaks the table's key
  unfoldable pub update_node : Node → Result (Unit {0}) × Database
  update_node n =
      let row = node_row d n in
      execute fault db (
        if any (λ r. r.id == row.id) db.nodes
        then (if has_nan n.resources
            then (err (runtime (d.not_null_failed (null_column n.resources))), db)
            else if any (λ r. not (r.id == row.id) && r.name == row.name) db.nodes
            then (err (runtime (d.unique_failed (text "nodes.name"))), db)
            else (
              ok tt,
              record db {
                nodes = map (λ r. if r.id == row.id then updated_row row r else r) db.nodes;
              },
            ))
        else (err (node_not_found row.id), db))

  unfoldable pub delete_node : ℕ → Result (Unit {0}) × Database
  delete_node id =
      execute fault db
        (ok tt, record db { nodes = retain (λ r. not (r.id == d.uuid.show id)) db.nodes })

  unfoldable pub get_cluster_config : Text → Result (Option Text)
  get_cluster_config key = query fault (ok (HashMap.get db.cluster_config key))

  unfoldable pub set_cluster_config : Text → Text → Result (Unit {0}) × Database
  set_cluster_config key value =
      execute fault db
        (ok tt, record db { cluster_config = HashMap.insert db.cluster_config key value })
