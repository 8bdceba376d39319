-- ===== src/Cluster/Registration.antt =====
-- Which registrations the master accepts, and what a heartbeat does for the monitor.
use nexad.Prelude.{
  ℕ, ◌-◌, ◌<◌, ◌≡◌, refl, Bool, false, not, ◌&&◌, Option, some, List, [], ◌∷◌, arith, Text, text,
  ◌==◌, byte_eq, list_eq, if◌then◌else◌, Option-cases, inl, inr,
}
use nexad.HashMap.{is_some}
use nexad.Cluster.Nodes.{NodeRole, worker, ready, NodeResources, IsRegular, Node, StateStore}
use nexad.Cluster.Heartbeat.{check_nodes, secs}
use nexad.Cluster.Lawful.{find_node, find_named, IsLawful}
use nexad.Cluster.Ageing.{aged, check_nodes_lem}
use nexad.Cluster.Server.{
  RegisterRequest, Reply, response, internal, HeartbeatPing, ping_status, verify_token, node_of,
  register, refreshed, heartbeat, unwrap_or,
}

abbrev pub is_accepted : Reply → Bool
is_accepted (response r) = r.accepted
is_accepted (internal m) = false

module _ {ℓ} {S : Type ℓ} (store : StateStore S) (w : IsLawful store) (token_hash : Text)
    (digest : Text → Text) (show_uuid : ℕ → Text) (parse_uuid : Text → Option ℕ)
    (new_node : Text → Text → NodeRole → NodeResources → Node)
    (zero_resources : NodeResources) where
  -- A registration is accepted exactly where the token has the stored hash and neither the name nor
  -- the new id is taken. An accepted one makes the new node the one of its name; a refused one leaves
  -- every name's node as it was. The constructor gives the node the requested
  -- name, and the resources of the node are words and numbers, none of them a NaN.
  pub register_lem :
      ((n a : Text) (r : NodeRole) (res : NodeResources) → (new_node n a r res).name ≡ n)
      → (req : RegisterRequest) (s : S)
      → IsRegular
          (node_of store token_hash digest show_uuid parse_uuid new_node zero_resources
            req).resources
      → let node =
          node_of store token_hash digest show_uuid parse_uuid new_node zero_resources req in
        let done =
          register store token_hash digest show_uuid parse_uuid new_node zero_resources req s in
        (is_accepted done.0 ≡ (
          digest req.token == token_hash
          && (not (is_some (find_named req.node_name (w.nodes s)))
              && not (is_some (find_node node.id (w.nodes s))))))
        × ((name : Text)
            → find_named name (w.nodes done.1) ≡ (
                if is_accepted done.0 && req.node_name == name
                then some node
                else find_named name (w.nodes s)))
  unfolding register verify_token
  register_lem named req s v =
      let node = node_of store token_hash digest show_uuid parse_uuid new_node zero_resources req in
      let name_eq : node.name ≡ req.node_name = named req.node_name req.node_address worker _ in
      (
        ground (arith, w.get_node_by_name_lem s req.node_name, w.insert_ok s node v, name_eq),
        λ name. ground (
          arith,
          w.get_node_by_name_lem s req.node_name,
          w.insert_ok s node v,
          w.insert_named s node name v,
          name_eq,
        ),
      )

  find_node-id : (id : ℕ) (nodes : List Node) (n : Node) → find_node id nodes ≡ some n → n.id ≡ id
  find_node-id id [] n h = ground arith
  find_node-id id (m ∷ nodes) n h = ground (arith, find_node-id id nodes n, h)

  pub heartbeat-get :
      (t id : ℕ) (ping : HeartbeatPing) (s : S) (n : Node)
      → parse_uuid ping.node_id ≡ some id
      → find_node id (w.nodes s) ≡ some n
      → (IsRegular n.resources
          → IsRegular
              (refreshed store token_hash digest show_uuid parse_uuid new_node zero_resources t ping
                n).resources)
      → find_node id (
          w.nodes
            (heartbeat store token_hash digest show_uuid parse_uuid new_node zero_resources t ping
              s).1)
        ≡ some (
            refreshed store token_hash digest show_uuid parse_uuid new_node zero_resources t ping n)
  unfolding heartbeat
  heartbeat-get t id ping s n p h v =
      let m =
        refreshed store token_hash digest show_uuid parse_uuid new_node zero_resources t ping n in
      ground (
        arith,
        w.get_node_lem s id,
        find_node-id id (w.nodes s) n h,
        w.update_node_lem s m n id (ground (arith, find_node-id id (w.nodes s) n h, h)) refl refl v,
        p,
        h,
      )

  pub kept_words :
      (n : Node) (ping : HeartbeatPing)
      → ((r : NodeResources) → ping.resources ≡ some r → IsRegular r)
      → IsRegular n.resources
      → IsRegular (unwrap_or n.resources ping.resources)
  kept_words n ping v x = elim (Option-cases ping.resources) [
    | inl e ↦ rw e x
    | inr (r, e) ↦ rw e (v r e)
  ]

  -- A worker that the store knows and whose "ready" message came less than half a minute before the
  -- pass is ready after the pass, with the message's time and resources,
  -- which are words and numbers.
  pub heartbeat-check_nodes :
      (t now id : ℕ) (ping : HeartbeatPing) (s : S) (n : Node)
      → parse_uuid ping.node_id ≡ some id
      → ping.status ≡ text "ready"
      → find_node id (w.nodes s) ≡ some n
      → now - t < secs 30
      → ((r : NodeResources) → ping.resources ≡ some r → IsRegular r)
      → let pinged =
          (heartbeat store token_hash digest show_uuid parse_uuid new_node zero_resources t ping
            s).1 in
        let kept =
          refreshed store token_hash digest show_uuid parse_uuid new_node zero_resources t ping n in
        (find_node id (w.nodes (check_nodes store now pinged).2) ≡ some kept)
        × (kept.status ≡ ready)
  unfolding aged ping_status
  heartbeat-check_nodes t now id ping s n p r h b v = (
    ground (
      arith,
      (check_nodes_lem store w now
            (heartbeat store token_hash digest show_uuid parse_uuid new_node zero_resources t ping
              s).1).2
          id,
      heartbeat-get t id ping s n p h (kept_words n ping v),
      b,
    ),
    ground (arith, r),
  )
