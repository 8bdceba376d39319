-- ===== src/Sqlite/Runs.antt =====
-- Any run of statements on projects, deployments and pods, and the rows that it leaves.
use nexad.Prelude.{
  ℕ, pos, ◌≡◌, ◌∙◌, true, ◌&&◌, Option, List, [], ◌∷◌, map, arith, Text, ◌==◌, byte_eq, list_eq,
  if◌then◌else◌, any, All-append, All-imp, Option-cases, inl, inr,
}
use nexad.Cluster.Nodes.{Pod}
use nexad.Sqlite.Driver.{Driver}
use nexad.Sqlite.Tables.{
  Project, Deployment, DeploymentRow, PodRow, Database, empty_database, deployment_row, pod_row,
  shown_id,
}
use nexad.Sqlite.Projects.{
  insert_project, update_project_status, delete_project, insert_deployment_row, insert_deployment,
  update_deployment, delete_deployment,
}
use nexad.Sqlite.Pods.{insert_pod, update_pod, delete_pod}
use nexad.Sqlite.Rows.{
  text_eq_sym, any-append, any-map, any_same, All-retain, All-map, append-IsUnique, retain-IsUnique,
  map-IsUnique,
}
use nexad.Sqlite.Integrity.{
  same_id, same_name, same_pod, has_project, has_deployment, IsSound, execute-keeps, if-keeps,
  insert_project-IsSound, update_project_status-IsSound, delete_deployment-IsSound,
  delete_project-IsSound,
}

module _ {Spec : Type 0} (d : Driver Spec) (fault : Option Text) (db : Database)
    (w : IsSound db) where
  insert_deployment_row-IsSound :
      (row : DeploymentRow) → IsSound (insert_deployment_row d fault db row).1
  insert_deployment_row-IsSound row =
      if-keeps IsSound (any (λ r. r.id == row.id) db.deployments) _ _ (λ h. w)
        (λ i.
          if-keeps IsSound
            (any (λ r. r.project == row.project && r.name == row.name) db.deployments) _ _ (λ h. w)
            (λ n.
              if-keeps IsSound (any (λ r. r.name == row.project) db.projects) _ _
                (λ p. record {
                  projects_unique = w.projects_unique;
                  ids_unique =
                      append-IsUnique same_id (λ x y. text_eq_sym x.id y.id) db.deployments row
                        w.ids_unique i;
                  names_unique =
                      append-IsUnique same_name
                        (λ x y.
                          ground
                            (arith, text_eq_sym x.project y.project, text_eq_sym x.name y.name))
                        db.deployments row w.names_unique n;
                  pods_unique = w.pods_unique;
                  deployment_parent =
                      All-append _ db.deployments (row ∷ []) w.deployment_parent (p, tt);
                  pod_parent =
                      All-imp
                        (λ q e. ground (
                          arith,
                          any-append (λ r. r.id == q.deployment_id) db.deployments (row ∷ []),
                          e,
                        ))
                        db.pods w.pod_parent;
                })
                (λ h. w)))

  insert_deployment-IsSound : (dep : Deployment Spec) → IsSound (insert_deployment d fault db dep).1
  unfolding insert_deployment
  insert_deployment-IsSound dep = elim (Option-cases (d.spec_to_json dep.spec)) [
    | inl e ↦ rw (e, insert_deployment) w
    | inr (json, e) ↦
        rw (e, insert_deployment)
          (execute-keeps IsSound fault db _ w
            (insert_deployment_row-IsSound (deployment_row d dep json)))
  ]

  -- an update of deployments that keeps id, project and name
  mapped :
      (f : DeploymentRow → DeploymentRow)
      → ((r : DeploymentRow)
          → ((f r).id ≡ r.id) × ((f r).project ≡ r.project) × ((f r).name ≡ r.name))
      → IsSound (record db { deployments = map f db.deployments })
  mapped f same = record {
    projects_unique = w.projects_unique;
    ids_unique =
        map-IsUnique same_id f (λ x y. ground (arith, same x, same y)) db.deployments w.ids_unique;
    names_unique =
        map-IsUnique same_name f (λ x y. ground (arith, same x, same y)) db.deployments
          w.names_unique;
    pods_unique = w.pods_unique;
    deployment_parent = All-map _ f db.deployments (
        All-imp {Q = λ r. has_project db.projects (f r).project ≡ true} (λ r e. rw ((same r).1) e)
          db.deployments w.deployment_parent);
    pod_parent =
        All-imp
          (λ p e.
            any-map (λ r. r.id == p.deployment_id) f db.deployments
            ∙ any_same (λ r. (f r).id == p.deployment_id) (λ r. r.id == p.deployment_id)
                (λ r. ground (arith, same r)) db.deployments
            ∙ e)
          db.pods w.pod_parent;
  }

  update_deployment-IsSound : (dep : Deployment Spec) → IsSound (update_deployment d fault db dep).1
  unfolding update_deployment
  update_deployment-IsSound dep = elim (Option-cases (d.spec_to_json dep.spec)) [
    | inl e ↦ rw (e, update_deployment) w
    | inr (json, e) ↦
        rw (e, update_deployment)
          (execute-keeps IsSound fault db _ w (
            if-keeps IsSound (any (λ r. r.id == d.uuid.show dep.id) db.deployments) _ _
              (λ h. mapped _ (λ r. (ground arith, ground arith, ground arith))) (λ h. w)))
  ]

  insert_pod-IsSound : (p : Pod) → IsSound (insert_pod d fault db p).1
  unfolding insert_pod
  insert_pod-IsSound p =
      let row = pod_row d p in
      execute-keeps IsSound fault db _ w (
        if-keeps IsSound (any (λ r. r.id == row.id) db.pods) _ _ (λ h. w)
          (λ i.
            if-keeps IsSound (any (λ r. r.id == row.deployment_id) db.deployments) _ _
              (λ e. record {
                projects_unique = w.projects_unique;
                ids_unique = w.ids_unique;
                names_unique = w.names_unique;
                pods_unique =
                    append-IsUnique same_pod (λ x y. text_eq_sym x.id y.id) db.pods row
                      w.pods_unique i;
                deployment_parent = w.deployment_parent;
                pod_parent = All-append _ db.pods (row ∷ []) w.pod_parent (e, tt);
              })
              (λ h. w)))

  update_pod-IsSound : (p : Pod) → IsSound (update_pod d fault db p).1
  unfolding update_pod
  update_pod-IsSound p =
      let f : PodRow → PodRow = λ r.
        if r.id == d.uuid.show p.id
        then record r {
          node_id = shown_id d p.node_id;
          container_id = p.container_id;
          container_ip = p.container_ip;
          status = d.pod_status.show p.status;
          restart_count = pos p.restart_count;
        }
        else r in
      let same : (r : PodRow) → ((f r).id ≡ r.id) × ((f r).deployment_id ≡ r.deployment_id) =
        λ r. (ground arith, ground arith) in
      execute-keeps IsSound fault db _ w (
        if-keeps IsSound (any (λ r. r.id == d.uuid.show p.id) db.pods) _ _
          (λ h. record {
            projects_unique = w.projects_unique;
            ids_unique = w.ids_unique;
            names_unique = w.names_unique;
            pods_unique =
                map-IsUnique same_pod f (λ x y. ground (arith, same x, same y)) db.pods
                  w.pods_unique;
            deployment_parent = w.deployment_parent;
            pod_parent = All-map _ f db.pods (
                All-imp {Q = λ r. has_deployment db.deployments (f r).deployment_id ≡ true}
                  (λ r e. rw ((same r).1) e) db.pods w.pod_parent);
          })
          (λ h. w))

  delete_pod-IsSound : (id : ℕ) → IsSound (delete_pod d fault db id).1
  unfolding delete_pod
  delete_pod-IsSound id = execute-keeps IsSound fault db _ w (record {
    projects_unique = w.projects_unique;
    ids_unique = w.ids_unique;
    names_unique = w.names_unique;
    pods_unique = retain-IsUnique same_pod _ db.pods w.pods_unique;
    deployment_parent = w.deployment_parent;
    pod_parent = All-retain _ _ db.pods w.pod_parent;
  })

-- A statement that writes, with its values.
pub data Statement (Spec : Type 0) : Type 0 where
  insert_project_of : Project → Statement Spec
  update_status_of : Text → ℕ → Statement Spec
  delete_project_of : Text → Statement Spec
  insert_deployment_of update_deployment_of : Deployment Spec → Statement Spec
  delete_deployment_of : ℕ → Statement Spec
  insert_pod_of update_pod_of : Pod → Statement Spec
  delete_pod_of : ℕ → Statement Spec

module _ {Spec : Type 0} (d : Driver Spec) where
  unfoldable pub apply : Option Text → Statement Spec → Database → Database
  apply fault (insert_project_of p) db = (insert_project d fault db p).1
  apply fault (update_status_of name status) db = (update_project_status d fault db name status).1
  apply fault (delete_project_of name) db = (delete_project d fault db name).1
  apply fault (insert_deployment_of dep) db = (insert_deployment d fault db dep).1
  apply fault (update_deployment_of dep) db = (update_deployment d fault db dep).1
  apply fault (delete_deployment_of id) db = (delete_deployment d fault db id).1
  apply fault (insert_pod_of p) db = (insert_pod d fault db p).1
  apply fault (update_pod_of p) db = (update_pod d fault db p).1
  apply fault (delete_pod_of id) db = (delete_pod d fault db id).1

  -- each statement with the failure of the database that it meets
  unfoldable pub run : List (Option Text × Statement Spec) → Database → Database
  run [] db = db
  run ((fault, s) ∷ ss) db = run ss (apply fault s db)

  apply-IsSound :
      (fault : Option Text) (s : Statement Spec) (db : Database)
      → IsSound db
      → IsSound (apply fault s db)
  unfolding apply
  apply-IsSound fault (insert_project_of p) db w = insert_project-IsSound d fault db w p
  apply-IsSound fault (update_status_of n s) db w = update_project_status-IsSound d fault db w n s
  apply-IsSound fault (delete_project_of n) db w = delete_project-IsSound d fault db w n
  apply-IsSound fault (insert_deployment_of dep) db w = insert_deployment-IsSound d fault db w dep
  apply-IsSound fault (update_deployment_of dep) db w = update_deployment-IsSound d fault db w dep
  apply-IsSound fault (delete_deployment_of id) db w = delete_deployment-IsSound d fault db w id
  apply-IsSound fault (insert_pod_of p) db w = insert_pod-IsSound d fault db w p
  apply-IsSound fault (update_pod_of p) db w = update_pod-IsSound d fault db w p
  apply-IsSound fault (delete_pod_of id) db w = delete_pod-IsSound d fault db w id

  run-IsSound_from :
      (ss : List (Option Text × Statement Spec)) (db : Database) → IsSound db → IsSound (run ss db)
  unfolding run
  run-IsSound_from [] db w = w
  run-IsSound_from ((fault, s) ∷ ss) db w =
      run-IsSound_from ss (apply fault s db) (apply-IsSound fault s db w)

  -- After any run of statements on an empty database, whichever of them fail, no key stands twice,
  -- every deployment's project is there, and every pod's deployment is there.
  pub run-IsSound : (ss : List (Option Text × Statement Spec)) → IsSound (run ss empty_database)
  run-IsSound ss = run-IsSound_from ss empty_database (record {
    projects_unique = tt;
    ids_unique = tt;
    names_unique = tt;
    pods_unique = tt;
    deployment_parent = tt;
    pod_parent = tt;
  })
