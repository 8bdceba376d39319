-- ===== src/Sqlite/Projects.antt =====
-- Projects and deployments in src/adapters/state/sqlite.rs. A project's removal takes its deployments
-- along, and theirs their pods, by the cascades of the migrations.
use nexad.Prelude.{
  ℕ, Bool, true, not, ◌&&◌, Option, none, some, List, [], ◌∷◌, ◌++◌, map, Text, text, ◌==◌, byte_eq,
  list_eq, if◌then◌else◌, any, find, retain, sort_by,
}
use nexad.Secrets.Store.{text_leb}
use nexad.Result.{
  runtime, invalid_spec, project_not_found, deployment_not_found, serialization, Result, ok, err,
  collect,
}
use nexad.Sqlite.Driver.{Driver, execute, query, read_row}
use nexad.Sqlite.Tables.{
  Project, Deployment, DeploymentRow, PodRow, Database, project_row, row_to_project, deployment_row,
  row_to_deployment,
}

-- `ON DELETE CASCADE` of the pods: those of the deployments that go
unfoldable pub cascade_pods : List DeploymentRow → List PodRow → List PodRow
cascade_pods gone pods = retain (λ p. not (any (λ r. r.id == p.deployment_id) gone)) pods

module _ {Spec : Type 0} (d : Driver Spec) (fault : Option Text) (db : Database) where
  unfoldable pub insert_project : Project → Result (Unit {0}) × Database
  insert_project p = execute fault db (
      if any (λ r. r.name == p.name) db.projects
      then (err (invalid_spec (text "project '" ++ (p.name ++ text "' already exists"))), db)
      else (ok tt, record db { projects = db.projects ++ project_row d p ∷ [] }))

  unfoldable pub get_project : Text → Result (Option Project)
  get_project name =
      query fault (read_row (row_to_project d) (find (λ r. r.name == name) db.projects))

  unfoldable pub list_projects : Result (List Project)
  list_projects =
      query fault (collect (row_to_project d) (sort_by (λ p q. text_leb p.name q.name) db.projects))

  unfoldable pub update_project_status : Text → ℕ → Result (Unit {0}) × Database
  update_project_status name status = execute fault db (
      if any (λ r. r.name == name) db.projects
      then (
        ok tt,
        record db {
          projects =
              map
                (λ r.
                  if r.name == name then record r { status = d.project_status.show status } else r)
                db.projects;
        },
      )
      else (err (project_not_found name), db))

  unfoldable pub delete_project : Text → Result (Unit {0}) × Database
  delete_project name = execute fault db (
    ok tt,
    record db {
      projects = retain (λ r. not (r.name == name)) db.projects;
      deployments = retain (λ r. not (r.project == name)) db.deployments;
      pods = cascade_pods (retain (λ r. r.project == name) db.deployments) db.pods;
    },
  )

  -- the unique keys of the table, and the parent row
  abbrev pub insert_deployment_row : DeploymentRow → Result (Unit {0}) × Database
  insert_deployment_row row =
      if any (λ r. r.id == row.id) db.deployments
      then (err (runtime (d.unique_failed (text "deployments.id"))), db)
      else if any (λ r. r.project == row.project && r.name == row.name) db.deployments
      then (err (runtime (d.unique_failed (text "deployments.project, deployments.name"))), db)
      else if any (λ r. r.name == row.project) db.projects
      then (ok tt, record db { deployments = db.deployments ++ row ∷ [] })
      else (err (runtime d.foreign_key_failed), db)

  unfoldable pub insert_deployment : Deployment Spec → Result (Unit {0}) × Database
  insert_deployment dep = elim (d.spec_to_json dep.spec) [
    | none ↦ (err serialization, db)
    | some json ↦ execute fault db (insert_deployment_row (deployment_row d dep json))
  ]

  unfoldable pub get_deployment : Text → Text → Result (Option (Deployment Spec))
  get_deployment project name = query fault (
      read_row (row_to_deployment d)
        (find (λ r. r.project == project && r.name == name) db.deployments))

  abbrev pub deployment_of_project : Option Text → DeploymentRow → Bool
  deployment_of_project none r = true
  deployment_of_project (some p) r = r.project == p

  unfoldable pub list_deployments : Option Text → Result (List (Deployment Spec))
  list_deployments project = query fault (
      collect (row_to_deployment d) (
        sort_by (λ p q. text_leb p.created_at q.created_at)
          (retain (deployment_of_project project) db.deployments)))

  unfoldable pub update_deployment : Deployment Spec → Result (Unit {0}) × Database
  update_deployment dep = elim (d.spec_to_json dep.spec) [
    | none ↦ (err serialization, db)
    | some json ↦
        let id = d.uuid.show dep.id in
        execute fault db (
          if any (λ r. r.id == id) db.deployments
          then (
            ok tt,
            record db {
              deployments =
                  map
                    (λ r.
                      if r.id == id
                      then record r {
                        spec_json = json;
                        status = d.deployment_status.show dep.status;
                        updated_at = d.time.show dep.updated_at;
                      }
                      else r)
                    db.deployments;
            },
          )
          else (err (deployment_not_found id), db))
  ]

  unfoldable pub delete_deployment : ℕ → Result (Unit {0}) × Database
  delete_deployment id = execute fault db (
    ok tt,
    record db {
      deployments = retain (λ r. not (r.id == d.uuid.show id)) db.deployments;
      pods = cascade_pods (retain (λ r. r.id == d.uuid.show id) db.deployments) db.pods;
    },
  )
