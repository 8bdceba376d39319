-- ===== src/Cluster/Ageing.antt =====
-- What one pass of the monitor makes of each node, in a store that keeps what is written.
use nexad.Prelude.{
  ℕ, ◌≡◌, refl, ◌∙◌, ap, Bool, true, false, not, ◌&&◌, Option, none, some, List, [], ◌∷◌, ◌++◌,
  arith, ◌==◌, byte_eq, leb, if◌then◌else◌,
}
use nexad.Result.{Result, ok, err}
use nexad.Cluster.Nodes.{is_master, not_ready, is_not_ready, Node, Pod, StateStore}
use nexad.Cluster.Heartbeat.{
  not_ready_threshold, elapsed, Call, mark_not_ready, calls_for, check_node, and_next, check_all,
  check_nodes,
}
use nexad.Cluster.Lawful.{find_node, IsDistinct, IsLawful}
use nexad.Cluster.Monitor.{is_dead}

-- A worker whose last heartbeat is half a minute old is not ready.
unfoldable pub aged : ℕ → Node → Node
aged now n =
    if not (is_master n.role)
      && (leb not_ready_threshold (elapsed now n) && not (is_not_ready n.status))
    then record n { status = not_ready }
    else n

abbrev pub map_option {ℓ} : {A B : Type ℓ} → (A → B) → Option A → Option B
map_option f none = none
map_option f (some a) = some (f a)

if_append :
    {A : Type 0} (b : Bool) (xs ys : List A)
    → (if b then xs else []) ++ ys ≡ (if b then xs ++ ys else ys)
if_append true xs ys = refl
if_append false xs ys = refl

module _ {ℓ} {S : Type ℓ} (store : StateStore S) (w : IsLawful store) (now : ℕ) where
  -- the calls that are due for a list of nodes
  unfoldable pub due_calls : List Pod → List Node → List Call
  due_calls pods [] = []
  due_calls pods (n ∷ nodes) =
      let rest = due_calls pods nodes in
      if is_dead now n then calls_for store now n.id pods ++ rest else rest

  mark_not_ready-pods : (node : Node) (s : S) → w.pods (mark_not_ready store now node s) ≡ w.pods s
  unfolding mark_not_ready
  mark_not_ready-pods node s = ground (arith, w.update_pods s (record node { status = not_ready }))

  mark_not_ready-get :
      (node : Node) (s : S) (id : ℕ)
      → find_node node.id (w.nodes s) ≡ some node
      → find_node id (w.nodes (mark_not_ready store now node s)) ≡ (
          if node.id == id
          then some (if is_not_ready node.status then node else record node { status = not_ready })
          else find_node id (w.nodes s))
  unfolding mark_not_ready
  mark_not_ready-get node s id h = ground (
    arith,
    w.update_node_lem s (record node { status = not_ready }) node id h refl refl (λ v. v),
    h,
  )

  -- the state and the calls of one round, for a node that is there
  check_node_lem :
      (node : Node) (s : S)
      → find_node node.id (w.nodes s) ≡ some node
      → let done = check_node store now node s in
        (done.0 ≡ ok tt)
        × (done.1 ≡ (if is_dead now node then calls_for store now node.id (w.pods s) else []))
        × (w.pods done.2 ≡ w.pods s)
        × ((id : ℕ)
            → find_node id (w.nodes done.2)
              ≡ (if node.id == id then some (aged now node) else find_node id (w.nodes s)))
  unfolding check_node aged
  check_node_lem node s h = (
    ground (arith, w.list_pods_lem (mark_not_ready store now node s)),
    ground (arith, w.list_pods_lem (mark_not_ready store now node s), mark_not_ready-pods node s),
    ground (arith, w.list_pods_lem (mark_not_ready store now node s), mark_not_ready-pods node s),
    λ id. ground (
      arith,
      w.list_pods_lem (mark_not_ready store now node s),
      mark_not_ready-get node s id h,
      h,
    ),
  )

  -- the nodes of a list stand in the store as they are in the list
  abbrev pub IsIn : List Node → S → Type 0
  IsIn nodes s =
      (id : ℕ) (n : Node) → find_node id nodes ≡ some n → find_node id (w.nodes s) ≡ some n

  and_next_ok :
      (r : Result (Unit {0}) × List Call × S) (next : S → Result (Unit {0}) × List Call × S)
      → r.0 ≡ ok tt
      → and_next store now r next ≡ ((next r.2).0, r.1 ++ (next r.2).1, (next r.2).2)
  and_next_ok (err e, calls, s) next h = ground (arith, h)
  and_next_ok (ok u, calls, s) next h = refl

  check_all_lem :
      (nodes : List Node) (s : S)
      → IsIn nodes s
      → IsDistinct nodes
      → let done = check_all store now nodes s in
        (done.0 ≡ ok tt)
        × (done.1 ≡ due_calls (w.pods s) nodes)
        × ((id : ℕ)
            → find_node id (w.nodes done.2) ≡ (elim (find_node id nodes) [
              | none ↦ find_node id (w.nodes s)
              | some n ↦ some (aged now n)
            ]))
  unfolding check_all due_calls
  check_all_lem [] s h d = (refl, refl, λ id. refl)
  check_all_lem (n ∷ nodes) s h (a, d) =
      let here : find_node n.id (w.nodes s) ≡ some n = h n.id n (ground arith) in
      let step = check_node_lem n s here in
      let s' = (check_node store now n s).2 in
      let later : IsIn nodes s' = λ id m e. ground (arith, step.3 id, h id m, e, a) in
      let rest = check_all_lem nodes s' later d in
      let join = and_next_ok (check_node store now n s) (check_all store now nodes) step.0 in
      let calls : (check_all store now nodes s').1 ≡ due_calls (w.pods s) nodes =
        rest.1 ∙ ap (λ pods. due_calls pods nodes) step.2 in
      rw (join, step.1, calls)
        (rest.0, if_append (is_dead now n) _ _, λ id. ground (arith, rest.2 id, step.3 id, a))

  pub check_nodes_lem :
      (s : S)
      → let done = check_nodes store now s in
        (done.0 ≡ ok tt)
        × (done.1 ≡ due_calls (w.pods s) (w.nodes s))
        × ((id : ℕ)
            → find_node id (w.nodes done.2) ≡ map_option (aged now) (find_node id (w.nodes s)))
  unfolding check_nodes
  check_nodes_lem s =
      let all = check_all_lem (w.nodes s) s (λ id n e. e) (w.nodes_distinct s) in
      rw (w.list_nodes_lem s, check_nodes) (all.0, all.1, λ id. ground (arith, all.2 id))
