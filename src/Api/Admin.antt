-- ===== src/Api/Admin.antt =====
-- The handlers that work on the state store: the nodes and the token of the cluster.
use nexad.Prelude.{
  ℕ, Bool, true, false, not, ◌&&◌, Option, none, some, List, ◌++◌, Text, text, if◌then◌else◌,
}
use nexad.Result.{NexaError, Result, ok, err}
use nexad.Cluster.Nodes.{NodeStatus, ready, not_ready, draining, is_master, Node}
use nexad.Cluster.Token.{generate_token, hash_token}
use nexad.Api.Response.{
  error, Response, status_ok, not_found, conflict, internal_server_error, answer, failure, respond,
  respond_empty,
}
use nexad.Api.Projects.{on_result}
use nexad.Api.Store.{AdminStore}

abbrev pub is_draining : NodeStatus → Bool
is_draining draining = true
is_draining ready = false
is_draining not_ready = false

abbrev pub node_missing : Text → Response (Unit {0})
node_missing name = record {
  status = not_found;
  body = error (text "node '" ++ (name ++ text "' not found"));
}

module _ {ℓ} {S : Type ℓ} (store : AdminStore S) (display : NexaError → Text)
    (show_status : NodeStatus → Text) where
  unfoldable pub list_nodes : S → Response (List Node)
  list_nodes s = respond display status_ok internal_server_error (store.nodes.list_nodes s)

  abbrev pub drained : Text → S → Result (Option Node) → Response (Unit {0}) × S
  drained name s (ok (some node)) =
      on_result (respond_empty display internal_server_error)
        (store.nodes.update_node s (record node { status = draining }))
  drained name s (ok none) = (node_missing name, s)
  drained name s (err e) = (failure display internal_server_error e, s)

  unfoldable pub drain_node : Text → S → Response (Unit {0}) × S
  drain_node name s = drained name s (store.nodes.get_node_by_name s name)

  abbrev pub not_drained : Text → Node → Response (Unit {0})
  not_drained name node = record {
    status = conflict;
    body = error (
        text "node '"
        ++ (name
            ++ (text "' must be drained before removal (status: "
                ++ (show_status node.status ++ text ")"))));
  }

  abbrev pub removed : Text → S → Result (Option Node) → Response (Unit {0}) × S
  removed name s (ok (some node)) =
      if not (is_draining node.status) && not (is_master node.role)
      then (not_drained name node, s)
      else on_result (respond_empty display internal_server_error) (store.delete_node s node.id)
  removed name s (ok none) = (node_missing name, s)
  removed name s (err e) = (failure display internal_server_error e, s)

  unfoldable pub remove_node : Text → S → Response (Unit {0}) × S
  remove_node name s = removed name s (store.nodes.get_node_by_name s name)

  -- `encode` is the hexadecimal form, `digest` SHA-256, `bytes` what the random source gives.
  module _ (encode : List ℕ → Text) (digest : Text → List ℕ) where
    -- The hash is set first; whether the token itself could be set is not looked at.
    abbrev pub token_set : Text → Result (Unit {0}) × S → Response Text × S
    token_set token (err e, s) = (failure display internal_server_error e, s)
    token_set token (ok u, s) =
        (answer token, (store.set_cluster_config s (text "join_token") token).1)

    unfoldable pub cluster_init : List ℕ → S → Response Text × S
    cluster_init bytes s =
        let token = generate_token encode (λ t. true) digest bytes in
        token_set token (
          store.set_cluster_config s (text "join_token_hash")
            (hash_token encode (λ t. true) digest token))

    unfoldable pub cluster_token_rotate : List ℕ → S → Response Text × S
    cluster_token_rotate bytes s =
        let token = generate_token encode (λ t. true) digest bytes in
        token_set token (
          store.set_cluster_config s (text "join_token_hash")
            (hash_token encode (λ t. true) digest token))

  abbrev pub token_response : Result (Option Text) → Response Text
  token_response (ok (some token)) = answer token
  token_response (ok none) = record {
    status = not_found;
    body = error (text "cluster not initialized");
  }
  token_response (err e) = failure display internal_server_error e

  unfoldable pub cluster_token_show : S → Response Text
  cluster_token_show s = token_response (store.get_cluster_config s (text "join_token"))

pub record ProxyConfigResponse : Type 0 where
  pub backend : Text
  pub acme_email : Option Text

-- What is set is answered and not kept.
unfoldable pub get_proxy_config : Response ProxyConfigResponse
get_proxy_config = answer (record { backend = text "nexa-proxy"; acme_email = none })

abbrev pub backend_or_default : Option Text → Text
backend_or_default none = text "nexa-proxy"
backend_or_default (some backend) = backend

pub record ProxyUpdated : Type 0 where
  pub backend : Text
  pub acme_email : Option Text
  pub status : Text

unfoldable pub set_proxy_config : (backend acme_email : Option Text) → Response ProxyUpdated
set_proxy_config backend acme_email = answer (record {
  backend = backend_or_default backend;
  acme_email = acme_email;
  status = text "updated";
})
