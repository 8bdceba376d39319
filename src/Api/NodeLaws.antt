-- ===== src/Api/NodeLaws.antt =====
-- Which nodes are removed through the handlers, and in what order of calls.
use nexad.Prelude.{
  ℕ, ◌≡◌, refl, ap, ◌∙◌, Bool, ◌&&◌, ◌||◌, Option, none, some, List, [], ◌∷◌, arith, Text, ◌==◌,
  byte_eq, list_eq, beq_refl, if◌then◌else◌, Bool-cases, inl, inr, list_beq_iff, nat_beq_iff,
}
use nexad.Result.{NexaError, ok}
use nexad.Cluster.Nodes.{NodeStatus, draining, is_master, Node}
use nexad.Cluster.Lawful.{find_node, find_named, IsDistinct}
use nexad.Api.Response.{status_ok, not_found, conflict}
use nexad.Api.Store.{AdminStore, IsAdmin}
use nexad.Api.Admin.{is_draining, drain_node, removed, remove_node}

-- whether a node may be removed
abbrev pub is_removable : Node → Bool
is_removable node = is_draining node.status || is_master node.role

-- the status of a removal, and what is then found at an id, for the node that the name finds
abbrev pub removal_status : Option Node → ℕ
removal_status none = not_found
removal_status (some node) = if is_removable node then status_ok else conflict

abbrev pub found_after : Option Node → ℕ → Option Node → Option Node
found_after none id before = before
found_after (some node) id before = if is_removable node && node.id == id then none else before

pub find_node-none_named :
    (name : Text) (nodes : List Node) (n : Node)
    → find_named name nodes ≡ some n
    → (find_node n.id nodes ≡ none → ⊥) × (n.name ≡ name)
find_node-none_named name [] n h = ground (arith, h)
find_node-none_named name (m ∷ nodes) n h =
    ground (arith, h, find_node-none_named name nodes n, list_beq_iff m.name name, beq_refl n.id)

pub find_named-find_node :
    (name : Text) (nodes : List Node) (n : Node)
    → IsDistinct nodes
    → find_named name nodes ≡ some n
    → find_node n.id nodes ≡ some n
find_named-find_node name [] n d h = ground (arith, h)
find_named-find_node name (m ∷ nodes) n (a, d) h = elim (Bool-cases (m.name == name)) [
  | inl k ↦ ground (arith, h, k)
  | inr k ↦
      let rest : find_node n.id nodes ≡ some n =
        find_named-find_node name nodes n d (ground (arith, h, k)) in
      elim (Bool-cases (m.id == n.id)) [
        | inl e ↦
            ground (arith, e, rest, a, ap (λ i. find_node i nodes) ((nat_beq_iff m.id n.id).0 e))
        | inr e ↦ ground (arith, e, rest)
      ]
]

module _ {ℓ} {S : Type ℓ} (store : AdminStore S) (w : IsAdmin store) (display : NexaError → Text)
    (show_status : NodeStatus → Text) where
  removed_lem :
      (name : Text) (s : S) (o : Option Node) (id : ℕ)
      → let done = removed store display show_status name s (ok o) in
        (done.0.status ≡ removal_status o)
        × (find_node id (w.lawful.nodes done.1)
            ≡ found_after o id (find_node id (w.lawful.nodes s)))
  removed_lem name s none id = (refl, refl)
  removed_lem name s (some n) id = elim (Bool-cases (is_draining n.status)) [
    | inl a ↦ (
      ground (arith, a, w.delete_ok s n.id),
      ground (arith, a, w.delete_ok s n.id, w.delete_node_lem s n.id id),
    )
    | inr a ↦ (
      ground (arith, a, w.delete_ok s n.id),
      ground (arith, a, w.delete_ok s n.id, w.delete_node_lem s n.id id),
    )
  ]

  -- The removal of a name answers 404 where no node has the name, 409 where its node is a worker that
  -- is not draining, and else 200; only in the last case is a node gone, and it is the one of the name.
  pub remove_node_lem :
      (name : Text) (s : S) (id : ℕ)
      → let done = remove_node store display show_status name s in
        let node = find_named name (w.lawful.nodes s) in
        (done.0.status ≡ removal_status node)
        × (find_node id (w.lawful.nodes done.1)
            ≡ found_after node id (find_node id (w.lawful.nodes s)))
  unfolding remove_node
  remove_node_lem name s id =
      rw (remove_node, w.lawful.get_node_by_name_lem s name)
        (removed_lem name s (find_named name (w.lawful.nodes s)) id)

  pub drain_node_lem :
      (name : Text) (s : S) (n : Node)
      → find_named name (w.lawful.nodes s) ≡ some n
      → let done = drain_node store display show_status name s in
        (done.0.status ≡ status_ok)
        × ((find_named name (w.lawful.nodes done.1) ≡ some (record n { status = draining }))
            × ((id : ℕ)
                → find_node id (w.lawful.nodes done.1) ≡ (
                    if n.id == id
                    then some (record n { status = draining })
                    else find_node id (w.lawful.nodes s))))
  unfolding drain_node
  drain_node_lem name s n h =
      let d : Node = record n { status = draining } in
      let named : n.name ≡ name = (find_node-none_named name (w.lawful.nodes s) n h).1 in
      let found = find_named-find_node name (w.lawful.nodes s) n (w.lawful.nodes_distinct s) h in
      let by_own : find_named n.name (w.lawful.nodes s) ≡ some n =
        ap (λ t. find_named t (w.lawful.nodes s)) named ∙ h in
      let read = w.lawful.get_node_by_name_lem s name in
      (
        ground (arith, read, h, w.update_ok s d n found refl),
        (
          ground (
            arith,
            read,
            h,
            w.update_named s d n name by_own refl refl (λ v. v),
            named,
            list_beq_iff n.name name,
          ),
          λ id. ground (arith, read, h, w.lawful.update_node_lem s d n id found refl refl (λ v. v)),
        ),
      )

  -- A node that is drained and then removed is gone, both calls answer 200, and every other node is
  -- as before.
  pub drain_node-remove_node :
      (name : Text) (s : S) (n : Node) (id : ℕ)
      → find_named name (w.lawful.nodes s) ≡ some n
      → let first = drain_node store display show_status name s in
        let then_ = remove_node store display show_status name first.1 in
        ((first.0.status ≡ status_ok) × (then_.0.status ≡ status_ok))
        × (find_node id (w.lawful.nodes then_.1)
            ≡ (if n.id == id then none else find_node id (w.lawful.nodes s)))
  drain_node-remove_node name s n id h =
      let first = drain_node store display show_status name s in
      let (good, (named, at)) = drain_node_lem name s n h in
      let (status, after_) = remove_node_lem name first.1 id in
      ((good, status ∙ ap removal_status named), ground (arith, after_, named, at id))
