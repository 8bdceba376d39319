-- ===== src/Api/Projects.antt =====
-- The handlers that pass a request on to the orchestrator.
use nexad.Prelude.{ℕ, Option, none, some, List, Text, text}
use nexad.Result.{NexaError, project_not_empty, Result, ok, err}
use nexad.Api.Response.{
  empty, error, json, Response, status_ok, created, bad_request, not_found, conflict,
  internal_server_error, answer, failure, respond, respond_empty,
}

-- The calls of the orchestrator, which answers by its state and may change it. The types are those
-- of the core library.
pub record OrchestratorHandle (H Project Deployment DeploymentSpec Pod Route Config : Type 0)
    : Type 0 where
  pub list_projects : H → List Project × H
  pub create_project : Text → H → Result Project × H
  pub list_deployments : Option Text → H → List Deployment × H
  pub deploy : DeploymentSpec → H → Result Deployment × H
  pub stop : Text → Text → H → Result (Unit {0}) × H
  pub remove_deployment : Text → Text → H → Result (Unit {0}) × H
  pub scale : Text → Text → ℕ → H → Result Deployment × H
  pub list_pods : Option Text → H → List Pod × H
  pub suspend_project : Text → H → Result (Unit {0}) × H
  pub resume_project : Text → H → Result (Unit {0}) × H
  pub delete_project : Text → H → Result (Unit {0}) × H
  pub list_secrets : Text → H → Result (List Text) × H
  pub set_secret : Text → Text → Text → H → Result (Unit {0}) × H
  pub delete_secret : Text → Text → H → Result (Unit {0}) × H
  pub get_scheduler_config : H → Config × H
  pub set_scheduler_config : Config → H → Result Config × H
  pub list_routes : Option Text → H → List Route × H
  pub add_route : (domain project deployment tls_mode : Text) → H → Result (Unit {0}) × H
  pub remove_route : Text → H → Result (Unit {0}) × H

pub record RouteCreated : Type 0 where
  pub domain : Text
  pub status : Text

-- the result of a call, answered, with the state after it
abbrev pub on_result {ℓ κ μ} : {A : Type ℓ} {B : Type κ} {H : Type μ} → (A → B) → A × H → B × H
on_result f (a, h) = (f a, h)

module _ {H Project Deployment DeploymentSpec Pod Route Config : Type 0}
    (handle : OrchestratorHandle H Project Deployment DeploymentSpec Pod Route Config)
    (display : NexaError → Text) where
  unfoldable pub list_projects : H → Response (List Project) × H
  list_projects h = on_result answer (handle.list_projects h)

  unfoldable pub create_project : Text → H → Response Project × H
  create_project name h =
      on_result (respond display created conflict) (handle.create_project name h)

  unfoldable pub list_deployments : Option Text → H → Response (List Deployment) × H
  list_deployments project h = on_result answer (handle.list_deployments project h)

  -- The body is read as JSON, and as the text of a deployment where it is not: `from_json` and
  -- `parse_deployment` are the libraries'.
  unfoldable pub deploy :
      (from_json : Text → Option DeploymentSpec) (parse_deployment : Text → Result DeploymentSpec)
      (body : Text)
      → H
      → Response Deployment × H
  deploy from_json parse_deployment body h =
      let run = λ (spec : DeploymentSpec).
        on_result (respond display created internal_server_error) (handle.deploy spec h) in
      elim (from_json body) [
        | some spec ↦ run spec
        | none ↦ elim (parse_deployment body) [
          | ok spec ↦ run spec
          | err e ↦ (failure display bad_request e, h)
        ]
      ]

  unfoldable pub stop_deployment : (project name : Text) → H → Response (Unit {0}) × H
  stop_deployment project name h =
      on_result (respond_empty display not_found) (handle.stop project name h)

  unfoldable pub remove_deployment : (project name : Text) → H → Response (Unit {0}) × H
  remove_deployment project name h =
      on_result (respond_empty display not_found) (handle.remove_deployment project name h)

  unfoldable pub scale_deployment :
      (project name : Text) (replicas : ℕ) → H → Response Deployment × H
  scale_deployment project name replicas h =
      on_result (respond display status_ok not_found) (handle.scale project name replicas h)

  unfoldable pub list_pods : Option Text → H → Response (List Pod) × H
  list_pods project h = on_result answer (handle.list_pods project h)

  unfoldable pub suspend_project : Text → H → Response (Unit {0}) × H
  suspend_project name h =
      on_result (respond_empty display not_found) (handle.suspend_project name h)

  unfoldable pub resume_project : Text → H → Response (Unit {0}) × H
  resume_project name h = on_result (respond_empty display not_found) (handle.resume_project name h)

  abbrev pub deletion_status : NexaError → ℕ
  deletion_status (project_not_empty name) = conflict
  deletion_status e = not_found

  abbrev pub deleted : Result (Unit {0}) → Response (Unit {0})
  deleted (ok u) = record { status = status_ok; body = empty }
  deleted (err e) = failure display (deletion_status e) e

  unfoldable pub delete_project : Text → H → Response (Unit {0}) × H
  delete_project name h = on_result deleted (handle.delete_project name h)

  unfoldable pub list_secrets : Text → H → Response (List Text) × H
  list_secrets project h =
      on_result (respond display status_ok internal_server_error) (handle.list_secrets project h)

  unfoldable pub set_secret : (project name value : Text) → H → Response (Unit {0}) × H
  set_secret project name value h =
      on_result (respond_empty display internal_server_error)
        (handle.set_secret project name value h)

  unfoldable pub delete_secret : (project name : Text) → H → Response (Unit {0}) × H
  delete_secret project name h =
      on_result (respond_empty display internal_server_error) (handle.delete_secret project name h)

  unfoldable pub get_scheduler_config : H → Response Config × H
  get_scheduler_config h = on_result answer (handle.get_scheduler_config h)

  abbrev pub configured : Result Config → H → Response Config × H
  configured (err e) h = (failure display bad_request e, h)
  configured (ok config) h =
      on_result (respond display status_ok internal_server_error)
        (handle.set_scheduler_config config h)

  -- `from_strategy` and `set_weight` are those of `SchedulerConfig`; a weight is its name and its
  -- floating-point value. A strategy is looked at first, and a weight only without one.
  unfoldable pub set_scheduler_config :
      {Value : Type 0}
      → (from_strategy : Text → Result Config) (set_weight : Config → Text → Value → Result Config)
        (strategy : Option Text) (weights : Option (Text × Value))
      → H
      → Response Config × H
  set_scheduler_config from_strategy set_weight strategy weights h =
      let (current, h1) = handle.get_scheduler_config h in
      elim strategy [
        | some s ↦ configured (from_strategy s) h1
        | none ↦ elim weights [
          | some (name, w) ↦ configured (set_weight current name w) h1
          | none ↦ (
            record { status = bad_request; body = error (text "provide 'strategy' or 'weights'") },
            h1,
          )
        ]
      ]

  unfoldable pub list_routes : Option Text → H → Response (List Route) × H
  list_routes project h = on_result answer (handle.list_routes project h)

  abbrev pub route_response : Text → Result (Unit {0}) → Response RouteCreated
  route_response domain (ok u) = record {
    status = created;
    body = json (record { domain = domain; status = text "created" });
  }
  route_response domain (err e) = failure display conflict e

  abbrev pub tls_mode_or_default : Option Text → Text
  tls_mode_or_default none = text "none"
  tls_mode_or_default (some mode) = mode

  unfoldable pub add_route :
      (domain project deployment : Text) (tls_mode : Option Text) → H → Response RouteCreated × H
  add_route domain project deployment tls_mode h =
      on_result (route_response domain)
        (handle.add_route domain project deployment (tls_mode_or_default tls_mode) h)

  unfoldable pub remove_route : Text → H → Response (Unit {0}) × H
  remove_route domain h = on_result (respond_empty display not_found) (handle.remove_route domain h)

-- The certificate that is sent is not stored.
unfoldable pub import_cert : (domain cert_pem key_pem : Text) → Response RouteCreated
import_cert domain cert_pem key_pem = record {
  status = created;
  body = json (record { domain = domain; status = text "imported" });
}
