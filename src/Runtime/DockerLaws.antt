-- ===== src/Runtime/DockerLaws.antt =====
-- What Docker is asked to publish for a pod, and what its events tell the orchestrator.
use nexad.Prelude.{
  ℕ, suc, pos, negsuc, ◌+◌, ◌^◌, ◌<◌, ◌≡◌, refl, sym, ap, ◌∙◌, Option, none, some, List, [], ◌∷◌,
  ◌++◌, map, arith, Text, text, ◌==◌, byte_eq, list_eq, list_beq_iff, nat_beq_iff, if◌then◌else◌,
  any, All, Bool-cases, inl, inr,
}
use mathlib.Core.Option.{some-injective}
use nexad.HashMap.{HashMap, get, insert, get-insert}
use nexad.Str.{cut}
use nexad.Str.Decimal.{show, show-IsDigit, parse_uint-show, parse_uint, IsDigit}
use nexad.Str.Laws.{cut-append, IsDigit-IsFree}
use nexad.Result.{value}
use nexad.Cluster.Nodes.{Pod}
use nexad.Transport.Container.{ContainerRuntime, DeploymentSpec, Core, port_binding, config_of}
use nexad.Events.Watcher.{container_died, container_oom, handle_event_stream}
use nexad.Runtime.CtrEvents.{parse_i64}
use nexad.Runtime.DockerClient.{Config, BollardPortBinding, EventMessage}
use nexad.Runtime.Docker.{
  unwrap_or, container_config, bound, bind_ports, attribute, code_of, exit_code, runtime_event,
  mapped_events,
}

show-injective : (m n : ℕ) → show m ≡ show n → m ≡ n
show-injective m n h =
    let limit = suc (m + n) in
    some-injective m n (
      sym (parse_uint-show limit m (omega arith))
      ∙ ap (parse_uint limit) h
      ∙ parse_uint-show limit n (omega arith))

abbrev key : ℕ → Text
key n = show n ++ text "/tcp"

before_slash : (n : ℕ) → (cut 47 (key n)).0 ≡ show n
before_slash n =
    ap (λ c. c.0)
      (cut-append 47 (show n) (text "tcp")
        (IsDigit-IsFree 47 (show n) (λ d. omega (arith, d)) (show-IsDigit n)))

key_same : (m n : ℕ) → (key m == key n) ≡ (m == n)
key_same m n = elim (Bool-cases (key m == key n)) [
  | inl e ↦
      let same : key m ≡ key n = (list_beq_iff (key m) (key n)).0 e in
      let equal : m ≡ n =
        show-injective m n (sym (before_slash m) ∙ ap (λ t. (cut 47 t).0) same ∙ before_slash n) in
      e ∙ sym ((nat_beq_iff m n).1 equal)
  | inr e ↦ elim (Bool-cases (m == n)) [
    | inl k ↦ (list_beq_iff (key m) (key n)).1 (ap key ((nat_beq_iff m n).0 k)) ∙ sym k
    | inr k ↦ e ∙ sym k
  ]
]

-- the bindings that a configuration asks for
abbrev pub bindings_of : Config → HashMap Text (Option (List BollardPortBinding))
bindings_of c = elim c.host_config [ none ↦ [] | some h ↦ unwrap_or [] h.port_bindings ]

module _ {ℓ κ} {R : Type ℓ} {Volume : Type κ} (runtime : ContainerRuntime R) (core : Core Volume)
    (spec : DeploymentSpec Volume) where
  abbrev pub published :
      ℕ
      → List ℕ
      → HashMap Text (Option (List BollardPortBinding))
      → Option (Option (List BollardPortBinding))
  published n ports m =
      if any (λ p. p == n) ports
      then some (bound (port_binding runtime core spec n))
      else get m (key n)

  bind_ports-get :
      (n : ℕ) (ports : List ℕ) (m : HashMap Text (Option (List BollardPortBinding)))
      → get (bind_ports m (map (port_binding runtime core spec) ports)) (key n)
        ≡ published n ports m
  unfolding bind_ports port_binding
  bind_ports-get n [] m = refl
  bind_ports-get n (p ∷ ports) m =
      let rest =
        bind_ports-get n ports (insert m (key p) (bound (port_binding runtime core spec p))) in
      elim (Bool-cases (p == n)) [
        | inl e ↦
            let same = (nat_beq_iff p n).0 e in
            ground (
              arith,
              rest,
              e,
              get-insert m (key p) (key n) (bound (port_binding runtime core spec p)),
              key_same p n,
              ap (λ q. bound (port_binding runtime core spec q)) same,
            )
        | inr e ↦ ground (
          arith,
          rest,
          e,
          get-insert m (key p) (key n) (bound (port_binding runtime core spec p)),
          key_same p n,
        )
      ]

  bound_port :
      (n : ℕ)
      → bound (port_binding runtime core spec n)
        ≡ some (
            record {
              host_ip = some (text "0.0.0.0");
              host_port = if spec.replicas == 1 then some (show n) else none;
            }
            ∷ [])
  unfolding port_binding
  bound_port n = elim (Bool-cases (spec.replicas == 1)) [ inl e ↦ rw e refl | inr e ↦ rw e refl ]

  -- The container that Docker is asked to create for a pod publishes the TCP ports of the deployment
  -- and no other, on every address of the host: each on the port of its own number where the deployment
  -- has one replica, and else on a port that Docker chooses.
  pub container_config-config_of :
      (pod : Pod) (n : ℕ)
      → get
          (bindings_of (container_config (config_of runtime core pod spec)))
          (show n ++ text "/tcp")
        ≡ (if any (λ p. p == n) spec.ports
            then some (
                some (
                  record {
                    host_ip = some (text "0.0.0.0");
                    host_port = if spec.replicas == 1 then some (show n) else none;
                  }
                  ∷ []))
            else none)
  unfolding container_config config_of port_binding get
  container_config-config_of pod n = bind_ports-get n spec.ports [] ∙ rw (bound_port n) refl

-- An event's action is the one given; its actor has the id of the pod and an exit code as attributes.
abbrev pub IsOf : Text → Text → Text → EventMessage → Type 0
IsOf action id code event =
    (event.action ≡ some action)
    × (attribute event (text "nexa.pod-id") ≡ some id)
    × (attribute event (text "exitCode") ≡ some code)

parse_i64-digits :
    (s : Text) (n : ℕ) → All IsDigit s → parse_uint (2 ^ 63) s ≡ some n → parse_i64 s ≡ some (pos n)
unfolding parse_uint
parse_i64-digits [] n a h = ground (arith, h)
parse_i64-digits (c ∷ s) n (a, b) h = ground (arith, a, h)

parse_i64-show : (n : ℕ) → n < 2 ^ 63 → parse_i64 (show n) ≡ some (pos n)
parse_i64-show n h = parse_i64-digits (show n) n (show-IsDigit n) (parse_uint-show (2 ^ 63) n h)

exit_code-show :
    (event : EventMessage) (code : ℕ)
    → attribute event (text "exitCode") ≡ some (show code)
    → code < 2 ^ 63
    → exit_code event ≡ pos code
exit_code-show event code c h = ap code_of c ∙ ap (unwrap_or (negsuc 0)) (parse_i64-show code h)

runtime_event-died :
    (event : EventMessage) (uuid : Text) (code : ℕ)
    → IsOf (text "die") uuid (show code) event
    → code < 2 ^ 63
    → runtime_event event ≡ some (container_died uuid (pos code))
unfolding runtime_event
runtime_event-died event uuid code (a, b, c) h =
    rw (exit_code-show event code c h, b, runtime_event) (ground (arith, a))

runtime_event-oom :
    (event : EventMessage) (uuid : Text)
    → event.action ≡ some (text "oom")
    → attribute event (text "nexa.pod-id") ≡ some uuid
    → runtime_event event ≡ some (container_oom uuid)
unfolding runtime_event
runtime_event-oom event uuid a b = rw (a, b, runtime_event) refl

module _ (parse_uuid : Text → Option ℕ) where
  -- The death of a pod's container, whose label is the pod's id and which Docker reports as `die`,
  -- reaches the orchestrator as one exit of the pod with the code. One that is killed for want of
  -- memory is reported as `oom` and `die` and reaches it as two exits. The id and a code below 2^63
  -- are written as Docker writes them, and the channel takes two commands.
  pub mapped_events-handle_event_stream :
      (died killed : EventMessage) (id code t u : ℕ) (uuid : Text)
      → IsOf (text "die") uuid (show code) died
      → killed.action ≡ some (text "oom")
      → attribute killed (text "nexa.pod-id") ≡ some uuid
      → parse_uuid uuid ≡ some id
      → code < 2 ^ 63
      → ((handle_event_stream parse_uuid 2
            (map (λ e. (t, e)) (mapped_events (value died ∷ [])))).commands
          ≡ (id, pos code) ∷ [])
        × ((handle_event_stream parse_uuid 2
              (map (λ e. (u, e)) (mapped_events (value killed ∷ value died ∷ [])))).commands
            ≡ (id, pos 137) ∷ (id, pos code) ∷ [])
  unfolding mapped_events handle_event_stream
  mapped_events-handle_event_stream died killed id code t u uuid d k l p v =
      let died_as = runtime_event-died died uuid code d v in
      (
        rw (died_as, p, mapped_events) refl,
        rw (runtime_event-oom killed uuid k l, died_as, p, mapped_events) refl,
      )
