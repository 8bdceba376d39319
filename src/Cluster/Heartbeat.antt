-- ===== src/Cluster/Heartbeat.antt =====
-- The master's monitor of src/cluster/heartbeat.rs: one pass over the nodes.
use nexad.Prelude.{
  ℕ, ◌-◌, ◌*◌, ◌^◌, Bool, false, none, some, List, [], ◌∷◌, ◌++◌, ◌==◌, byte_eq, leb, if◌then◌else◌,
  retain, is_empty,
}
use nexad.Result.{Result, ok, err}
use nexad.Cluster.Nodes.{is_master, not_ready, is_not_ready, Node, Pod, StateStore}

-- `Duration::from_secs`, in nanoseconds
abbrev pub secs : ℕ → ℕ
secs n = n * 10 ^ 9

abbrev pub not_ready_threshold : ℕ
not_ready_threshold = secs 30

abbrev pub dead_threshold : ℕ
dead_threshold = secs 60

-- a negative difference counts as no time
abbrev pub elapsed : ℕ → Node → ℕ
elapsed now node = now - node.last_heartbeat

abbrev pub runs_on : ℕ → Pod → Bool
runs_on id p = elim p.node_id [ none ↦ false | some n ↦ n == id ]

-- a call of `reschedule`
abbrev pub Call : Type 0
Call = ℕ × List Pod

module _ {ℓ} {S : Type ℓ} (store : StateStore S) (now : ℕ) where
  -- the result of the update is dropped
  unfoldable pub mark_not_ready : Node → S → S
  mark_not_ready node s =
      if is_not_ready node.status
      then s
      else (store.update_node s (record node { status = not_ready })).1

  abbrev pub calls_for : ℕ → List Pod → List Call
  calls_for id all_pods =
      let node_pods = retain (runs_on id) all_pods in
      if is_empty node_pods then [] else (id, node_pods) ∷ []

  -- the body of the loop: the result of `?`, the calls, the state
  unfoldable pub check_node : Node → S → Result (Unit {0}) × List Call × S
  check_node node s =
      if is_master node.role
      then (ok tt, [], s)
      else if leb dead_threshold (elapsed now node)
      then elim (store.list_pods (mark_not_ready node s) none) [
        | err e ↦ (err e, [], mark_not_ready node s)
        | ok all_pods ↦ (ok tt, calls_for node.id all_pods, mark_not_ready node s)
      ]
      else if leb not_ready_threshold (elapsed now node)
      then (ok tt, [], mark_not_ready node s)
      else (ok tt, [], s)

  -- `?` leaves the loop at the first error; the calls made by then stay made
  abbrev pub and_next :
      Result (Unit {0}) × List Call × S
      → (S → Result (Unit {0}) × List Call × S)
      → Result (Unit {0}) × List Call × S
  and_next (err e, calls, s) next = (err e, calls, s)
  and_next (ok u, calls, s) next = let rest = next s in (rest.0, calls ++ rest.1, rest.2)

  unfoldable pub check_all : List Node → S → Result (Unit {0}) × List Call × S
  check_all [] s = (ok tt, [], s)
  check_all (node ∷ nodes) s = and_next (check_node node s) (check_all nodes)

  unfoldable pub check_nodes : S → Result (Unit {0}) × List Call × S
  check_nodes s = elim (store.list_nodes s) [
    | err e ↦ (err e, [], s)
    | ok nodes ↦ check_all nodes s
  ]
