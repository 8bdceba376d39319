-- ===== src/Api/Undrained.antt =====
-- A drained worker that is alive: its next message makes it ready again.
use nexad.Prelude.{ℕ, ◌≡◌, refl, ap, ◌∙◌, false, Option, some, Text, byte_eq, list_eq, beq_refl}
use nexad.Result.{NexaError}
use nexad.Cluster.Nodes.{
  NodeRole, NodeStatus, ready, draining, is_master, NodeResources, IsRegular, Node,
}
use nexad.Cluster.Lawful.{find_node, find_named}
use nexad.Cluster.Server.{ping_status, heartbeat}
use nexad.Cluster.Sender.{System, F64, collect_resources, ping_of}
use nexad.Api.Response.{status_ok, conflict}
use nexad.Api.Store.{AdminStore, IsAdmin}
use nexad.Api.Admin.{drain_node, remove_node}
use nexad.Api.NodeLaws.{find_node-none_named, find_named-find_node, drain_node_lem, remove_node_lem}

module _ {ℓ} {S : Type ℓ} (store : AdminStore S) (w : IsAdmin store) (display : NexaError → Text)
    (show_status : NodeStatus → Text) (token_hash : Text) (digest : Text → Text)
    (show_uuid : ℕ → Text) (parse_uuid : Text → Option ℕ)
    (new_node : Text → Text → NodeRole → NodeResources → Node)
    (zero_resources : NodeResources) where
  -- the worker as its message makes it
  abbrev pub pinged : F64 → System → ℕ → Node → Node
  pinged f sys t n = record n {
    last_heartbeat = t;
    status = ready;
    resources = collect_resources f sys;
  }

  heartbeat-pinged :
      (f : F64) (sys : System) (t : ℕ) (s : S) (n : Node)
      → find_node n.id (w.lawful.nodes s) ≡ some n
      → parse_uuid (show_uuid n.id) ≡ some n.id
      → (heartbeat store.nodes token_hash digest show_uuid parse_uuid new_node zero_resources t
          (ping_of f show_uuid n.id sys)
          s).1
        ≡ (store.nodes.update_node s (pinged f sys t n)).1
  unfolding heartbeat ping_of ping_status
  heartbeat-pinged f sys t s n h p = rw (p, w.lawful.get_node_lem s n.id, h, heartbeat) refl

  heartbeat-named :
      (f : F64) (sys : System) (t : ℕ) (name : Text) (s : S) (n : Node)
      → find_named name (w.lawful.nodes s) ≡ some n
      → parse_uuid (show_uuid n.id) ≡ some n.id
      → IsRegular (collect_resources f sys)
      → let s' =
          (heartbeat store.nodes token_hash digest show_uuid parse_uuid new_node zero_resources t
            (ping_of f show_uuid n.id sys)
            s).1 in
        (find_named name (w.lawful.nodes s') ≡ some (pinged f sys t n))
        × (find_node n.id (w.lawful.nodes s') ≡ some (pinged f sys t n))
  heartbeat-named f sys t name s n h p v =
      let found = find_named-find_node name (w.lawful.nodes s) n (w.lawful.nodes_distinct s) h in
      let named : n.name ≡ name = (find_node-none_named name (w.lawful.nodes s) n h).1 in
      let by_own : find_named n.name (w.lawful.nodes s) ≡ some n =
        ap (λ t. find_named t (w.lawful.nodes s)) named ∙ h in
      let m = pinged f sys t n in
      rw (heartbeat-pinged f sys t s n found p) (
        w.update_named s m n name by_own refl refl (λ u. v) ∙ rw (named, beq_refl name) refl,
        w.lawful.update_node_lem s m n n.id found refl refl (λ u. v) ∙ rw (beq_refl n.id) refl,
      )

  -- A worker that was drained and then sends its next message is ready again, so that its removal
  -- answers 409 and it stays. The id's text form parses to the id, and the sizes of the
  -- memory that the worker reads are words, and what it makes of them are numbers.
  pub drain_node-heartbeat :
      (f : F64) (sys : System) (t : ℕ) (name : Text) (s : S) (n : Node)
      → find_named name (w.lawful.nodes s) ≡ some n
      → is_master n.role ≡ false
      → parse_uuid (show_uuid n.id) ≡ some n.id
      → IsRegular (collect_resources f sys)
      → let drained = drain_node store display show_status name s in
        let s' =
          (heartbeat store.nodes token_hash digest show_uuid parse_uuid new_node zero_resources t
            (ping_of f show_uuid n.id sys)
            drained.1).1 in
        let removed = remove_node store display show_status name s' in
        ((drained.0.status ≡ status_ok) × (removed.0.status ≡ conflict))
        × (find_node n.id (w.lawful.nodes removed.1) ≡ some (pinged f sys t n))
  drain_node-heartbeat f sys t name s n h m p v =
      let drained = drain_node store display show_status name s in
      let (good, (named, at)) = drain_node_lem store w display show_status name s n h in
      let d : Node = record n { status = draining } in
      let (by_name, by_id) = heartbeat-named f sys t name drained.1 d named p v in
      let s' =
        (heartbeat store.nodes token_hash digest show_uuid parse_uuid new_node zero_resources t
          (ping_of f show_uuid n.id sys) drained.1).1 in
      let (status, after_) = remove_node_lem store w display show_status name s' n.id in
      ((good, status ∙ rw by_name (rw m refl)), after_ ∙ rw (by_name, by_id) (rw m refl))
