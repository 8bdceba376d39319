-- ===== src/Cluster/Server.antt =====
-- `ClusterServer` of src/cluster/server.rs: registration, and the messages of a heartbeat stream.
use nexad.Prelude.{
  ℕ, Bool, true, false, Option, none, some, [], ◌++◌, Text, text, ◌==◌, byte_eq, list_eq,
  if◌then◌else◌,
}
use nexad.Result.{Result, ok, err}
use nexad.Cluster.Nodes.{
  NodeRole, worker, NodeStatus, ready, not_ready, draining, NodeResources, Node, StateStore,
}

pub record RegisterRequest : Type 0 where
  pub token : Text
  pub node_name : Text
  pub node_address : Text
  pub resources : Option NodeResources

pub record RegisterResponse : Type 0 where
  pub node_id : Text
  pub accepted : Bool
  pub message : Text

-- a response, or the status `internal`
pub data Reply : Type 0 where
  response : RegisterResponse → Reply
  internal : Text → Reply

pub record HeartbeatPing : Type 0 where
  pub node_id : Text
  pub status : Text
  pub resources : Option NodeResources

abbrev pub refused : Text → Reply
refused message = response (record { node_id = []; accepted = false; message = message })

unfoldable pub ping_status : Text → NodeStatus
ping_status s =
    if s == text "ready" then ready else if s == text "draining" then draining else not_ready

abbrev pub unwrap_or {ℓ} : {A : Type ℓ} → A → Option A → A
unwrap_or d none = d
unwrap_or d (some a) = a

-- `digest` is the hexadecimal SHA-256, `new_node` the constructor `Node::new` with the id and the
-- time that it draws, `parse_uuid` and `show_uuid` the text form of an id.
module _ {ℓ} {S : Type ℓ} (store : StateStore S) (token_hash : Text) (digest : Text → Text)
    (show_uuid : ℕ → Text) (parse_uuid : Text → Option ℕ)
    (new_node : Text → Text → NodeRole → NodeResources → Node)
    (zero_resources : NodeResources) where
  unfoldable pub verify_token : Text → Bool
  verify_token token = digest token == token_hash

  abbrev pub node_of : RegisterRequest → Node
  node_of req =
      new_node req.node_name req.node_address worker (unwrap_or zero_resources req.resources)

  -- after the two checks
  abbrev pub inserted : Node → Result (Unit {0}) × S → Reply × S
  inserted node (err e, s) = (internal (text "failed to register node"), s)
  inserted node (ok u, s) = (
    response (record { node_id = show_uuid node.id; accepted = true; message = text "registered" }),
    s,
  )

  abbrev pub named_check : RegisterRequest → S → Result (Option Node) → Reply × S
  named_check req s (ok (some n)) =
      (refused (text "node '" ++ (req.node_name ++ text "' already registered")), s)
  named_check req s (ok none) = inserted (node_of req) (store.insert_node s (node_of req))
  named_check req s (err e) = inserted (node_of req) (store.insert_node s (node_of req))

  unfoldable pub register : RegisterRequest → S → Reply × S
  register req s =
      if verify_token req.token
      then named_check req s (store.get_node_by_name s req.node_name)
      else (refused (text "invalid join token"), s)

  abbrev pub refreshed : ℕ → HeartbeatPing → Node → Node
  refreshed now ping node = record node {
    last_heartbeat = now;
    status = ping_status ping.status;
    resources = unwrap_or node.resources ping.resources;
  }

  abbrev pub refresh : ℕ → HeartbeatPing → S → Result (Option Node) → S
  refresh now ping s (ok (some node)) = (store.update_node s (refreshed now ping node)).1
  refresh now ping s (ok none) = s
  refresh now ping s (err e) = s

  -- One message of the stream at the time `now`: whether it is acknowledged, and the state. An id
  -- that does not parse is passed over.
  unfoldable pub heartbeat : ℕ → HeartbeatPing → S → Bool × S
  heartbeat now ping s = elim (parse_uuid ping.node_id) [
    | none ↦ (false, s)
    | some id ↦ (true, refresh now ping s (store.get_node s id))
  ]
