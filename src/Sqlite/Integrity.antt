-- ===== src/Sqlite/Integrity.antt =====
-- The keys and the parents of the rows of projects, deployments and pods: every statement keeps them.
use nexad.Prelude.{
  ℕ, ◌≡◌, refl, ◌∙◌, Bool, true, false, not, ◌&&◌, Option, none, some, List, [], ◌∷◌, arith, Text,
  ◌==◌, byte_eq, list_eq, list_beq_iff, if◌then◌else◌, any, retain, All, All-imp,
}
use nexad.Result.{Result}
use nexad.Sqlite.Driver.{Driver, execute}
use nexad.Sqlite.Tables.{Project, ProjectRow, DeploymentRow, PodRow, Database, project_row}
use nexad.Sqlite.Projects.{
  cascade_pods, insert_project, update_project_status, delete_project, delete_deployment,
}
use nexad.Sqlite.Rows.{
  text_eq_sym, any-append, any_kept, any_split, any-map, any_same, All-retain, All-retain_both,
  IsUnique, append-IsUnique, retain-IsUnique, map-IsUnique,
}

abbrev pub same_project : ProjectRow → ProjectRow → Bool
same_project x y = x.name == y.name

abbrev pub same_id : DeploymentRow → DeploymentRow → Bool
same_id x y = x.id == y.id

abbrev pub same_name : DeploymentRow → DeploymentRow → Bool
same_name x y = x.project == y.project && x.name == y.name

abbrev pub same_pod : PodRow → PodRow → Bool
same_pod x y = x.id == y.id

abbrev pub has_project : List ProjectRow → Text → Bool
has_project projects name = any (λ p. p.name == name) projects

abbrev pub has_deployment : List DeploymentRow → Text → Bool
has_deployment deployments id = any (λ r. r.id == id) deployments

-- No key stands twice, every deployment's project is there, and every pod's deployment.
pub record IsSound (db : Database) : Type 0 where
  pub projects_unique : IsUnique same_project db.projects
  pub ids_unique : IsUnique same_id db.deployments
  pub names_unique : IsUnique same_name db.deployments
  pub pods_unique : IsUnique same_pod db.pods
  pub deployment_parent : All (λ r. has_project db.projects r.project ≡ true) db.deployments
  pub pod_parent : All (λ p. has_deployment db.deployments p.deployment_id ≡ true) db.pods

pub execute-keeps :
    {A : Type 0} (P : Database → Type 0) (fault : Option Text) (db : Database)
    (done : Result A × Database)
    → P db
    → P done.1
    → P (execute fault db done).1
execute-keeps P none db done a b = b
execute-keeps P (some e) db done a b = a

pub if-keeps :
    {A : Type 0} (P : Database → Type 0) (b : Bool) (x y : Result A × Database)
    → (b ≡ true → P x.1)
    → (b ≡ false → P y.1)
    → P (if b then x else y).1
if-keeps P true x y h k = h refl
if-keeps P false x y h k = k refl

module _ {Spec : Type 0} (d : Driver Spec) (fault : Option Text) (db : Database)
    (w : IsSound db) where
  pub insert_project-IsSound : (p : Project) → IsSound (insert_project d fault db p).1
  unfolding insert_project project_row
  insert_project-IsSound p =
      let row = project_row d p in
      execute-keeps IsSound fault db _ w (
        if-keeps IsSound (any (λ r. r.name == p.name) db.projects) _ _ (λ h. w)
          (λ h. record {
            projects_unique =
                append-IsUnique same_project (λ x y. text_eq_sym x.name y.name) db.projects row
                  w.projects_unique h;
            ids_unique = w.ids_unique;
            names_unique = w.names_unique;
            pods_unique = w.pods_unique;
            deployment_parent =
                All-imp
                  (λ r e.
                    ground (arith, any-append (λ q. q.name == r.project) db.projects (row ∷ []), e))
                  db.deployments w.deployment_parent;
            pod_parent = w.pod_parent;
          }))

  pub update_project_status-IsSound :
      (name : Text) (status : ℕ) → IsSound (update_project_status d fault db name status).1
  unfolding update_project_status
  update_project_status-IsSound name status =
      let f : ProjectRow → ProjectRow =
        λ r. if r.name == name then record r { status = d.project_status.show status } else r in
      let name_kept : (r : ProjectRow) → (f r).name ≡ r.name = λ r. ground arith in
      execute-keeps IsSound fault db _ w (
        if-keeps IsSound (any (λ r. r.name == name) db.projects) _ _
          (λ h. record {
            projects_unique =
                map-IsUnique same_project f (λ x y. ground (arith, name_kept x, name_kept y))
                  db.projects w.projects_unique;
            ids_unique = w.ids_unique;
            names_unique = w.names_unique;
            pods_unique = w.pods_unique;
            deployment_parent =
                All-imp
                  (λ r e.
                    any-map (λ q. q.name == r.project) f db.projects
                    ∙ any_same (λ q. (f q).name == r.project) (λ q. q.name == r.project)
                        (λ q. ground (arith, name_kept q)) db.projects
                    ∙ e)
                  db.deployments w.deployment_parent;
            pod_parent = w.pod_parent;
          })
          (λ h. w))

  -- the rows left when the deployments that satisfy `gone` are removed with their pods
  abbrev without : (DeploymentRow → Bool) → Database
  without gone = record db {
    deployments = retain (λ r. not (gone r)) db.deployments;
    pods = cascade_pods (retain gone db.deployments) db.pods;
  }

  cascade_parent :
      (gone : DeploymentRow → Bool)
      → All
          (λ p. has_deployment (retain (λ r. not (gone r)) db.deployments) p.deployment_id ≡ true)
          (without gone).pods
  unfolding cascade_pods
  cascade_parent gone =
      All-retain_both _ _ _
        (λ p e k.
          ground (arith, any_split (λ r. r.id == p.deployment_id) gone db.deployments, e, k))
        db.pods w.pod_parent

  pub delete_deployment-IsSound : (id : ℕ) → IsSound (delete_deployment d fault db id).1
  unfolding delete_deployment cascade_pods
  delete_deployment-IsSound id =
      let gone : DeploymentRow → Bool = λ r. r.id == d.uuid.show id in
      execute-keeps IsSound fault db _ w (record {
        projects_unique = w.projects_unique;
        ids_unique = retain-IsUnique same_id _ db.deployments w.ids_unique;
        names_unique = retain-IsUnique same_name _ db.deployments w.names_unique;
        pods_unique = retain-IsUnique same_pod _ db.pods w.pods_unique;
        deployment_parent = All-retain _ _ db.deployments w.deployment_parent;
        pod_parent = cascade_parent gone;
      })

  pub delete_project-IsSound : (name : Text) → IsSound (delete_project d fault db name).1
  unfolding delete_project cascade_pods
  delete_project-IsSound name = execute-keeps IsSound fault db _ w (record {
    projects_unique = retain-IsUnique same_project _ db.projects w.projects_unique;
    ids_unique = retain-IsUnique same_id _ db.deployments w.ids_unique;
    names_unique = retain-IsUnique same_name _ db.deployments w.names_unique;
    pods_unique = retain-IsUnique same_pod _ db.pods w.pods_unique;
    deployment_parent =
        All-retain_both _ _ _
          (λ r e k.
            any_kept (λ p. p.name == r.project) (λ p. not (p.name == name))
              (λ p h. ground (
                arith,
                list_beq_iff p.name r.project,
                list_beq_iff p.name name,
                list_beq_iff r.project name,
                h,
                k,
              ))
              db.projects e)
          db.deployments w.deployment_parent;
    pod_parent = cascade_parent (λ r. r.project == name);
  })
