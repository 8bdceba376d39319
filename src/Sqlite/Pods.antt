-- ===== src/Sqlite/Pods.antt =====
-- Pods in src/adapters/state/sqlite.rs.
use nexad.Prelude.{
  ℕ, pos, int_leb, Bool, true, not, Option, none, some, List, [], ◌∷◌, ◌++◌, map, Text, text, ◌==◌,
  byte_eq, list_eq, if◌then◌else◌, any, retain, sort_by,
}
use nexad.Secrets.Store.{text_leb}
use nexad.Result.{runtime, pod_not_found, Result, ok, err, collect}
use nexad.Cluster.Nodes.{Pod}
use nexad.Sqlite.Driver.{Driver, execute, query}
use nexad.Sqlite.Tables.{PodRow, Database, pod_row, row_to_pod, shown_id}

module _ {Spec : Type 0} (d : Driver Spec) (fault : Option Text) (db : Database) where
  abbrev pub insert_pod_row : PodRow → Result (Unit {0}) × Database
  insert_pod_row row =
      if any (λ r. r.id == row.id) db.pods
      then (err (runtime (d.unique_failed (text "pods.id"))), db)
      else if any (λ r. r.id == row.deployment_id) db.deployments
      then (ok tt, record db { pods = db.pods ++ row ∷ [] })
      else (err (runtime d.foreign_key_failed), db)

  unfoldable pub insert_pod : Pod → Result (Unit {0}) × Database
  insert_pod p = execute fault db (insert_pod_row (pod_row d p))

  abbrev pub pod_of_project : Option Text → PodRow → Bool
  pod_of_project none r = true
  pod_of_project (some p) r = r.project == p

  unfoldable pub list_pods : Option Text → Result (List Pod)
  list_pods project = query fault (
      collect (row_to_pod d) (
        sort_by (λ p q. text_leb p.created_at q.created_at)
          (retain (pod_of_project project) db.pods)))

  unfoldable pub update_pod : Pod → Result (Unit {0}) × Database
  update_pod p =
      let id = d.uuid.show p.id in
      execute fault db (
        if any (λ r. r.id == id) db.pods
        then (
          ok tt,
          record db {
            pods =
                map
                  (λ r.
                    if r.id == id
                    then record r {
                      node_id = shown_id d p.node_id;
                      container_id = p.container_id;
                      container_ip = p.container_ip;
                      status = d.pod_status.show p.status;
                      restart_count = pos p.restart_count;
                    }
                    else r)
                  db.pods;
          },
        )
        else (err (pod_not_found id), db))

  unfoldable pub delete_pod : ℕ → Result (Unit {0}) × Database
  delete_pod id =
      execute fault db
        (ok tt, record db { pods = retain (λ r. not (r.id == d.uuid.show id)) db.pods })

  unfoldable pub pods_by_deployment : ℕ → Result (List Pod)
  pods_by_deployment deployment_id = query fault (
      collect (row_to_pod d) (
        sort_by (λ p q. int_leb p.replica_index q.replica_index)
          (retain (λ r. r.deployment_id == d.uuid.show deployment_id) db.pods)))
