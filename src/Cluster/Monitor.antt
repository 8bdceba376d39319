-- ===== src/Cluster/Monitor.antt =====
-- What one pass of the monitor does to the nodes, and whom it reschedules.
use nexad.Prelude.{
  ℕ, ◌≡◌, Bool, true, false, not, ◌&&◌, none, List, [], ◌∷◌, arith, ◌==◌, byte_eq, leb, retain,
  is_empty, All, any, Bool-cases, inl, inr, All-append, All-imp,
}
use nexad.Result.{Result, ok, err, Result-cases}
use nexad.Cluster.Nodes.{is_master, Node, Pod, StateStore}
use nexad.Cluster.Heartbeat.{
  not_ready_threshold, dead_threshold, elapsed, runs_on, Call, mark_not_ready, calls_for,
  check_node, and_next, check_all, check_nodes,
}

abbrev pub is_dead : ℕ → Node → Bool
is_dead now n = not (is_master n.role) && leb dead_threshold (elapsed now n)

-- A call names a dead node of the list, and pods that all run on that node, at least one.
abbrev pub IsDue : ℕ → List Node → Call → Type 0
IsDue now nodes (id, pods) =
    (any (λ n. n.id == id && is_dead now n) nodes ≡ true)
    × (is_empty pods ≡ false)
    × All (λ p. runs_on id p ≡ true) pods

retain-All : {A : Type 0} (q : A → Bool) (xs : List A) → All (λ x. q x ≡ true) (retain q xs)
retain-All q [] = tt
retain-All q (x ∷ xs) = elim (Bool-cases (q x)) [
  | inl h ↦ rw h (h, retain-All q xs)
  | inr h ↦ rw h (retain-All q xs)
]

module _ {ℓ} {S : Type ℓ} (store : StateStore S) (now : ℕ) where
  calls_for-IsDue :
      (nodes : List Node) (id : ℕ) (pods : List Pod)
      → any (λ n. n.id == id && is_dead now n) nodes ≡ true
      → All (IsDue now nodes) (calls_for store now id pods)
  calls_for-IsDue nodes id pods h = elim (Bool-cases (is_empty (retain (runs_on id) pods))) [
    | inl e ↦ rw e tt
    | inr e ↦ rw e ((h, e, retain-All (runs_on id) pods), tt)
  ]

  check_node-IsDue :
      (node : Node) (nodes : List Node) (s : S)
      → All (IsDue now (node ∷ nodes)) (check_node store now node s).1
  unfolding check_node
  check_node-IsDue node nodes s = elim (Bool-cases (is_master node.role)) [
    | inl m ↦ rw (m, check_node) tt
    | inr m ↦ elim (Bool-cases (leb dead_threshold (elapsed now node))) [
      | inl d ↦ elim (Result-cases (store.list_pods (mark_not_ready store now node s) none)) [
        | inr (e, r) ↦ rw (m, d, r, check_node) tt
        | inl (pods, r) ↦
            rw (m, d, r, check_node)
              (calls_for-IsDue (node ∷ nodes) node.id pods (ground (arith, m, d)))
      ]
      | inr d ↦ elim (Bool-cases (leb not_ready_threshold (elapsed now node))) [
        | inl r ↦ rw (m, d, r, check_node) tt
        | inr r ↦ rw (m, d, r, check_node) tt
      ]
    ]
  ]

  and_next-All :
      (P : Call → Type 0) (r : Result (Unit {0}) × List Call × S)
      (next : S → Result (Unit {0}) × List Call × S)
      → All P r.1
      → ((s : S) → All P (next s).1)
      → All P (and_next store now r next).1
  and_next-All P (err e, calls, s) next h k = h
  and_next-All P (ok u, calls, s) next h k = All-append P calls (next s).1 h (k s)

  IsDue-later :
      (node : Node) (nodes : List Node) (c : Call) → IsDue now nodes c → IsDue now (node ∷ nodes) c
  IsDue-later node nodes (id, pods) (a, b, c) = (ground (arith, a), b, c)

  check_all-IsDue :
      (nodes : List Node) (s : S) → All (IsDue now nodes) (check_all store now nodes s).1
  unfolding check_all
  check_all-IsDue [] s = tt
  check_all-IsDue (node ∷ nodes) s =
      and_next-All (IsDue now (node ∷ nodes)) (check_node store now node s)
        (check_all store now nodes) (check_node-IsDue node nodes s)
        (λ s'.
          All-imp (IsDue-later node nodes) (check_all store now nodes s').1
            (check_all-IsDue nodes s'))

  -- Whatever the store answers, a pass asks to reschedule only for a listed worker whose last
  -- heartbeat is a minute old or older, and with pods of that worker only, at least one.
  pub check_nodes-IsDue :
      (s : S) (nodes : List Node)
      → store.list_nodes s ≡ ok nodes
      → All (IsDue now nodes) (check_nodes store now s).1
  unfolding check_nodes
  check_nodes-IsDue s nodes h = rw (h, check_nodes) (check_all-IsDue nodes s)
