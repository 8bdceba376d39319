-- ===== src/Start/Worker.antt =====
-- How a worker joins a master: src/cluster/worker.rs, up to the tasks that it spawns.
use nexad.Prelude.{
  ℕ, ◌≡◌, Bool, true, false, Option, some, List, ◌++◌, arith, Text, text, byte_eq, list_eq,
  if◌then◌else◌,
}
use nexad.Result.{Outcome, failed, value}
use nexad.Cluster.Nodes.{NodeRole, NodeResources, Node, StateStore}
use nexad.Cluster.Server
use nexad.Cluster.Server.{RegisterRequest, RegisterResponse, Reply, response, internal}
use nexad.Cluster.Registration.{is_accepted}
use nexad.Cluster.Token.{hash_token}

-- What a worker goes on with: its id, and the hash that its own server checks tokens against.
pub record Joined : Type 0 where
  pub node_id : ℕ
  pub token_hash : Text

unfoldable pub register_request :
    (hostname listen_addr token : Text) → NodeResources → RegisterRequest
register_request hostname listen_addr token resources = record {
  token = token;
  node_name = hostname;
  node_address = listen_addr;
  resources = some resources;
}

-- `parse_uuid` reads an id or reports an error; `status_text` is the text of a status of the master.
module _ (status_text : Text → Text) (parse_uuid : Text → Outcome ℕ) (encode : List ℕ → Text)
    (digest : Text → List ℕ) where
  abbrev pub accepted : (token : Text) → RegisterResponse → Outcome Joined
  accepted token resp =
      if resp.accepted
      then elim (parse_uuid resp.node_id) [
        | failed e ↦ failed (text "invalid node_id from master: " ++ e)
        | value id ↦
            value (record { node_id = id; token_hash = hash_token encode (λ t. true) digest token })
      ]
      else failed (text "master rejected registration: " ++ resp.message)

  -- The connection and the call are the client's: the reply of the master, or the text of an error,
  -- which a status of the master is as well.
  unfoldable pub start_worker : (token : Text) → Outcome Reply → Outcome Joined
  start_worker token (failed e) = failed e
  start_worker token (value (internal m)) = failed (status_text m)
  start_worker token (value (response resp)) = accepted token resp

  abbrev pub is_value : Outcome Joined → Bool
  is_value (failed e) = false
  is_value (value j) = true

  -- A worker goes on exactly where the master accepts its registration, if ids are read back as they
  -- are shown.
  start_worker-register {ℓ} :
      {S : Type ℓ} (store : StateStore S) (stored_hash : Text) (sha : Text → Text)
      (show_uuid : ℕ → Text) (parse_id : Text → Option ℕ)
      (new_node : Text → Text → NodeRole → NodeResources → Node) (zero_resources : NodeResources)
      → ((id : ℕ) → parse_uuid (show_uuid id) ≡ value id)
      → (token : Text) (req : RegisterRequest) (s : S)
      → let reply =
          (Server.register store stored_hash sha show_uuid parse_id new_node zero_resources req
            s).0 in
        is_value (start_worker token (value reply)) ≡ is_accepted reply
  unfolding Server.register start_worker
  start_worker-register store stored_hash sha show_uuid parse_id new_node zero_resources back token
        req s =
      let node =
        Server.node_of store stored_hash sha show_uuid parse_id new_node zero_resources req in
      ground (arith, back node.id)
