-- ===== src/Cluster/Silence.antt =====
-- A worker that falls silent, among the passes of the monitor and the messages of other workers.
use nexad.Prelude.{
  ℕ, zero, suc, ◌+◌, ◌-◌, ◌*◌, ◌≤◌, ◌≡◌, refl, sym, ap, ◌∙◌, Bool, true, false, Option, none, some,
  List, [], ◌∷◌, arith, Text, ◌==◌, byte_eq, leb, nat_beq_iff, if◌then◌else◌, any, Bool-cases,
  Option-cases, inl, inr,
}
use nexad.State.Subnets.{find_holds}
use nexad.Cluster.Nodes.{
  NodeRole, NodeStatus, ready, not_ready, draining, is_master, is_not_ready, NodeResources, Node,
  StateStore,
}
use nexad.Cluster.Heartbeat.{secs, not_ready_threshold, elapsed, check_nodes}
use nexad.Cluster.Lawful.{find_node, IsLawful}
use nexad.Cluster.Ageing.{aged, check_nodes_lem}
use nexad.Cluster.Server.{HeartbeatPing, heartbeat, refreshed}
use nexad.Cluster.Passes.{Event, tick, message, ticks, interval, monitor_interval, run}

module _ (parse_uuid : Text → Option ℕ) where
  abbrev pub is_from : ℕ → HeartbeatPing → Bool
  is_from id ping = elim (parse_uuid ping.node_id) [ none ↦ false | some j ↦ j == id ]

  -- No message of the node is among the events.
  abbrev pub IsSilent : ℕ → List Event → Type 0
  IsSilent id [] = Unit
  IsSilent id (tick now ∷ events) = IsSilent id events
  IsSilent id (message t ping ∷ events) = (is_from id ping ≡ false) × IsSilent id events

module _ {ℓ} {S : Type ℓ} (store : StateStore S) (w : IsLawful store) (token_hash : Text)
    (digest : Text → Text) (show_uuid : ℕ → Text) (parse_uuid : Text → Option ℕ)
    (new_node : Text → Text → NodeRole → NodeResources → Node)
    (zero_resources : NodeResources) where
  -- A message of another node leaves the node, whatever it says and whether it is written or not.
  message-find :
      (t id : ℕ) (ping : HeartbeatPing) (s : S)
      → is_from parse_uuid id ping ≡ false
      → find_node id (
          w.nodes
            (heartbeat store token_hash digest show_uuid parse_uuid new_node zero_resources t ping
              s).1)
        ≡ find_node id (w.nodes s)
  unfolding heartbeat
  message-find t id ping s q = elim (Option-cases (parse_uuid ping.node_id)) [
    | inl e ↦ ground (arith, e)
    | inr (j, e) ↦ elim (Option-cases (find_node j (w.nodes s))) [
      | inl a ↦ ground (arith, e, a, w.get_node_lem s j)
      | inr (m, a) ↦
          let own : m.id ≡ j =
            (nat_beq_iff m.id j).0 (find_holds (λ n. n.id == j) (w.nodes s) m a) in
          let other : (j == id) ≡ false = ground (arith, q, e) in
          let apart : (m.id == id) ≡ false = ap (λ i. i == id) own ∙ other in
          let kept =
            w.update_other s
              (refreshed store token_hash digest show_uuid parse_uuid new_node zero_resources t ping
                m)
              id apart in
          ground (arith, e, a, kept, w.get_node_lem s j)
    ]
  ]

  -- at which events a last heartbeat is half a minute old
  abbrev pub overdue : ℕ → Event → Bool
  overdue last (tick now) = leb not_ready_threshold (now - last)
  overdue last (message t ping) = false

  abbrev pub marked : Bool → Node → Node
  marked b n = if b then record n { status = not_ready } else n

  not_ready_status : (st : NodeStatus) → is_not_ready st ≡ true → st ≡ not_ready
  not_ready_status ready h = ground (arith, h)
  not_ready_status draining h = ground (arith, h)
  not_ready_status not_ready h = refl

  aged_worker :
      (now : ℕ) (n : Node)
      → is_master n.role ≡ false
      → aged now n ≡ marked (leb not_ready_threshold (elapsed now n)) n
  unfolding aged
  aged_worker now n h = elim (Bool-cases (is_not_ready n.status)) [
    | inl e ↦
        let same : record n { status = not_ready } ≡ n =
          ap (λ st. record n { status = st }) (sym (not_ready_status n.status e)) in
        elim (Bool-cases (leb not_ready_threshold (elapsed now n))) [
          | inl k ↦ rw (h, e, k) (sym same)
          | inr k ↦ rw (h, e, k) refl
        ]
    | inr e ↦ elim (Bool-cases (leb not_ready_threshold (elapsed now n))) [
      | inl k ↦ rw (h, e, k) refl
      | inr k ↦ rw (h, e, k) refl
    ]
  ]

  marked_again :
      (b : Bool) (n : Node)
      → marked b (record n { status = not_ready }) ≡ record n { status = not_ready }
  marked_again true n = refl
  marked_again false n = refl

  -- Without a message of its own a worker is marked exactly where a tick comes that is late enough.
  run-marked :
      (id : ℕ) (events : List Event) (s : S) (n : Node)
      → find_node id (w.nodes s) ≡ some n
      → is_master n.role ≡ false
      → IsSilent parse_uuid id events
      → find_node id (
          w.nodes
            (run store token_hash digest show_uuid parse_uuid new_node zero_resources events s))
        ≡ some (marked (any (overdue n.last_heartbeat) events) n)
  run-marked id [] s n h m q = h
  run-marked id (message t ping ∷ events) s n h m (a, q) =
      run-marked id events
        (heartbeat store token_hash digest show_uuid parse_uuid new_node zero_resources t ping s).1
        n (message-find t id ping s a ∙ h) m q
  run-marked id (tick now ∷ events) s n h m q =
      let passed = (check_nodes store now s).2 in
      let found : find_node id (w.nodes passed)
          ≡ some (marked (leb not_ready_threshold (elapsed now n)) n) =
        rw ((check_nodes_lem store w now s).2 id, h) (ap some (aged_worker now n m)) in
      elim (Bool-cases (leb not_ready_threshold (elapsed now n))) [
        | inl k ↦ rw k (
            run-marked id events passed (record n { status = not_ready })
              (found ∙ ap (λ b. some (marked b n)) k) m q
            ∙ ap some (marked_again (any (overdue n.last_heartbeat) events) n))
        | inr k ↦ rw k (run-marked id events passed n (found ∙ ap (λ b. some (marked b n)) k) m q)
      ]

  last_tick :
      (last start j : ℕ) (events : List Event)
      → ticks events ≡ interval start (suc j)
      → last + secs 30 ≤ start + j * monitor_interval
      → any (overdue last) events ≡ true
  last_tick last start j [] h b = ground (arith, h)
  last_tick last start j (message t ping ∷ events) h b = last_tick last start j events h b
  last_tick last start zero (tick now ∷ events) h b = ground (arith, h, b)
  last_tick last start (suc j) (tick now ∷ events) h b =
      let rest : ticks events ≡ interval (start + monitor_interval) (suc j) = ground (arith, h) in
      let later : last + secs 30 ≤ start + monitor_interval + j * monitor_interval =
        omega (arith, b) in
      ground (arith, last_tick last (start + monitor_interval) j events rest later)

  -- A worker of the store of which no message comes is marked as not ready by the first tick of the
  -- monitor that is half a minute or more after its last heartbeat, whatever the other nodes send
  -- and whatever its status was, and is otherwise as it was: the ticks are ten seconds apart.
  pub run-silent :
      (id start j : ℕ) (events : List Event) (s : S) (n : Node)
      → find_node id (w.nodes s) ≡ some n
      → is_master n.role ≡ false
      → IsSilent parse_uuid id events
      → ticks events ≡ interval start (suc j)
      → n.last_heartbeat + secs 30 ≤ start + j * monitor_interval
      → find_node id (
          w.nodes
            (run store token_hash digest show_uuid parse_uuid new_node zero_resources events s))
        ≡ some (record n { status = not_ready })
  run-silent id start j events s n h m q k b =
      run-marked id events s n h m q
      ∙ ap (λ c. some (marked c n)) (last_tick n.last_heartbeat start j events k b)
