-- ===== src/Runtime/ContainerdLaws.antt =====
-- What the maps of the containerd runtime hold after any calls of it.
use nexad.Prelude.{
  ℕ, zero, suc, ◌≡◌, refl, ap, ◌∙◌, Bool, true, false, Option, none, some, List, [], ◌∷◌, arith,
  Text, text, byte_eq, list_eq, Bool-cases, inl, inr,
}
use nexad.HashMap
use nexad.Result.{runtime, Result, ok, err, Outcome, failed, value}
use nexad.Transport.Container.{ContainerConfig}
use nexad.Runtime.CniCalls.{attach}
use nexad.Runtime.Containerd.{
  Output, ContainerdRuntime, new, ctr, ctr_ok, checked, ran, and_then, is_running_in, ContainerInfo,
  described, task_started, record_netns, pull_image, create_container, start_container, kill_now,
  wait_stopped, stop_container, remove_container, inspect_container, container_exists,
  connect_to_network, container_ip, no_ip,
}

remove-empty :
    (id : Text) (m : HashMap.HashMap Text (Text × Text)) → m ≡ [] → HashMap.remove m id ≡ []
unfolding HashMap.remove
remove-empty id m h = ap (λ map. HashMap.remove map id) h

-- A call of the runtime; what making a log directory reports, and the rounds of waiting, are chosen.
pub data RuntimeCall : Type 0 where
  call_pull : (image : Text) → RuntimeCall
  call_create : (log_dir : Option Text) → ContainerConfig → RuntimeCall
  call_start : (id : Text) → RuntimeCall
  call_stop : (rounds : ℕ) → (id : Text) → RuntimeCall
  call_remove : (id : Text) → Bool → RuntimeCall
  call_inspect : (id : Text) → RuntimeCall
  call_exists : (name : Text) → RuntimeCall
  call_connect : (container_id network : Text) → RuntimeCall

module _ {ℓ} {C : Type ℓ} (run : C → List Text → Outcome Output × C) (trim : Text → Text)
    (words : Text → List Text) where
  abbrev pub after_call : RuntimeCall → ContainerdRuntime C → ContainerdRuntime C
  after_call (call_pull image) rt = (pull_image run trim image rt).1
  after_call (call_create log_dir config) rt = (create_container run trim log_dir config rt).1
  after_call (call_start id) rt = (start_container run trim id rt).1
  after_call (call_stop rounds id) rt = (stop_container run trim rounds id rt).1
  after_call (call_remove id force) rt = (remove_container run trim id force rt).1
  after_call (call_inspect id) rt = (inspect_container run trim words id rt).1
  after_call (call_exists name) rt = (container_exists run trim name rt).1
  after_call (call_connect id network) rt = (connect_to_network run trim id network rt).1

  abbrev pub after_calls : List RuntimeCall → ContainerdRuntime C → ContainerdRuntime C
  after_calls [] rt = rt
  after_calls (call ∷ calls) rt = after_calls calls (after_call call rt)

  -- No container has an address.
  abbrev IsUnconnected : ContainerdRuntime C → Type 0
  IsUnconnected rt = rt.network_map ≡ []

  ran-IsUnconnected :
      (rt : ContainerdRuntime C) (x : Outcome Output × C)
      → IsUnconnected rt
      → IsUnconnected (ran run trim rt x).1
  ran-IsUnconnected rt (failed e, c) h = h
  ran-IsUnconnected rt (value o, c) h = h

  ctr-IsUnconnected :
      (args : List Text) (rt : ContainerdRuntime C)
      → IsUnconnected rt
      → IsUnconnected (ctr run trim args rt).1
  unfolding ctr
  ctr-IsUnconnected args rt h = ran-IsUnconnected rt (run rt.world args) h

  checked-IsUnconnected :
      (args : List Text) (x : Result Output × ContainerdRuntime C)
      → IsUnconnected x.1
      → IsUnconnected (checked run trim args x).1
  checked-IsUnconnected args (err e, rt) h = h
  checked-IsUnconnected args (ok o, rt) h = elim (Bool-cases o.success) [
    | inl k ↦ rw k h
    | inr k ↦ rw k h
  ]

  ctr_ok-IsUnconnected :
      (args : List Text) (rt : ContainerdRuntime C)
      → IsUnconnected rt
      → IsUnconnected (ctr_ok run trim args rt).1
  unfolding ctr_ok
  ctr_ok-IsUnconnected args rt h =
      checked-IsUnconnected args (ctr run trim args rt) (ctr-IsUnconnected args rt h)

  and_then-IsUnconnected {κ μ} :
      {A : Type κ} {B : Type μ} (x : Result A × ContainerdRuntime C)
      (next : A → ContainerdRuntime C → Result B × ContainerdRuntime C)
      → IsUnconnected x.1
      → ((a : A) (rt : ContainerdRuntime C) → IsUnconnected rt → IsUnconnected (next a rt).1)
      → IsUnconnected (and_then run trim x next).1
  and_then-IsUnconnected (err e, rt) next h k = h
  and_then-IsUnconnected (ok a, rt) next h k = k a rt h

  pull_image-IsUnconnected :
      (image : Text) (rt : ContainerdRuntime C)
      → IsUnconnected rt
      → IsUnconnected (pull_image run trim image rt).1
  unfolding pull_image
  pull_image-IsUnconnected image rt h =
      and_then-IsUnconnected _ _ (ctr_ok-IsUnconnected _ rt h) (λ out r k. k)

  create_container-IsUnconnected :
      (log_dir : Option Text) (config : ContainerConfig) (rt : ContainerdRuntime C)
      → IsUnconnected rt
      → IsUnconnected (create_container run trim log_dir config rt).1
  unfolding create_container
  create_container-IsUnconnected none config rt h =
      and_then-IsUnconnected _ _ (ctr_ok-IsUnconnected _ rt h) (λ out r k. k)
  create_container-IsUnconnected (some e) config rt h =
      and_then-IsUnconnected _ _ (ctr_ok-IsUnconnected _ rt h) (λ out r k. k)

  record_netns-IsUnconnected :
      (id stdout : Text) (rt : ContainerdRuntime C)
      → IsUnconnected rt
      → IsUnconnected (record_netns run trim id stdout rt)
  record_netns-IsUnconnected id stdout rt h = ground (arith, h)

  task_started-IsUnconnected :
      (id : Text) (rt : ContainerdRuntime C) (x : Outcome Output × C)
      → IsUnconnected rt
      → IsUnconnected (task_started run trim id rt x).1
  task_started-IsUnconnected id rt (failed e, c) h = h
  task_started-IsUnconnected id rt (value o, c) h = elim (Bool-cases o.success) [
    | inl k ↦ rw k (record_netns-IsUnconnected id o.stdout (record rt { world = c }) h)
    | inr k ↦ rw k h
  ]

  start_container-IsUnconnected :
      (id : Text) (rt : ContainerdRuntime C)
      → IsUnconnected rt
      → IsUnconnected (start_container run trim id rt).1
  unfolding start_container
  start_container-IsUnconnected id rt h = task_started-IsUnconnected id rt _ h

  abbrev either :
      Bool
      → Result (Unit {0}) × ContainerdRuntime C
      → Result (Unit {0}) × ContainerdRuntime C
      → Result (Unit {0}) × ContainerdRuntime C
  either b x y = elim b [ true ↦ x | false ↦ y ]

  either-IsUnconnected :
      (b : Bool) (x y : Result (Unit {0}) × ContainerdRuntime C)
      → IsUnconnected x.1
      → IsUnconnected y.1
      → IsUnconnected (either b x y).1
  either-IsUnconnected true x y h k = h
  either-IsUnconnected false x y h k = k

  wait_stopped-IsUnconnected :
      (rounds : ℕ) (id : Text) (rt : ContainerdRuntime C)
      → IsUnconnected rt
      → IsUnconnected (wait_stopped run trim rounds id rt).1
  unfolding wait_stopped kill_now
  wait_stopped-IsUnconnected zero id rt h =
      and_then-IsUnconnected _ _ (ctr_ok-IsUnconnected _ rt h) (λ out r k. k)
  wait_stopped-IsUnconnected (suc rounds) id rt h =
      and_then-IsUnconnected (ctr run trim (text "tasks" ∷ text "list" ∷ []) rt)
        (λ (o : Output) r.
          either (is_running_in id o.stdout) (wait_stopped run trim rounds id r) (ok tt, r))
        (ctr-IsUnconnected _ rt h)
        (λ o r k.
          either-IsUnconnected (is_running_in id o.stdout) _ (ok tt, r)
            (wait_stopped-IsUnconnected rounds id r k) k)

  stop_container-IsUnconnected :
      (rounds : ℕ) (id : Text) (rt : ContainerdRuntime C)
      → IsUnconnected rt
      → IsUnconnected (stop_container run trim rounds id rt).1
  unfolding stop_container
  stop_container-IsUnconnected rounds id rt h =
      let term = text "tasks" ∷ text "kill" ∷ text "--signal" ∷ text "SIGTERM" ∷ id ∷ [] in
      and_then-IsUnconnected (ctr run trim term rt)
        (λ (o : Output) r. either o.success (wait_stopped run trim rounds id r) (ok tt, r))
        (ctr-IsUnconnected term rt h)
        (λ o r k.
          either-IsUnconnected o.success _ (ok tt, r) (wait_stopped-IsUnconnected rounds id r k) k)

  abbrev forget : Text → Text → ContainerdRuntime C → Result (Unit {0}) × ContainerdRuntime C
  forget id out rt = (
    ok tt,
    record rt {
      netns_map = HashMap.remove rt.netns_map id;
      network_map = HashMap.remove rt.network_map id;
    },
  )

  remove_container-IsUnconnected :
      (id : Text) (force : Bool) (rt : ContainerdRuntime C)
      → IsUnconnected rt
      → IsUnconnected (remove_container run trim id force rt).1
  unfolding remove_container
  remove_container-IsUnconnected id force rt h =
      let delete = text "containers" ∷ text "delete" ∷ id ∷ [] in
      and_then-IsUnconnected (ctr run trim (text "tasks" ∷ text "delete" ∷ id ∷ []) rt)
        (λ (o : Output) r. and_then run trim (ctr_ok run trim delete r) (forget id))
        (ctr-IsUnconnected _ rt h)
        (λ o r k.
          and_then-IsUnconnected (ctr_ok run trim delete r) (forget id)
            (ctr_ok-IsUnconnected delete r k) (λ out s m. remove-empty id s.network_map m))

  inspect_container-IsUnconnected :
      (id : Text) (rt : ContainerdRuntime C)
      → IsUnconnected rt
      → IsUnconnected (inspect_container run trim words id rt).1
  unfolding inspect_container
  inspect_container-IsUnconnected id rt h =
      let listed : Text → ContainerdRuntime C → Result ContainerInfo × ContainerdRuntime C =
        λ info r.
          and_then run trim (ctr run trim (text "tasks" ∷ text "list" ∷ []) r)
            (λ (o : Output) s. (ok (described words id info o.stdout), s)) in
      and_then-IsUnconnected (ctr_ok run trim (text "containers" ∷ text "info" ∷ id ∷ []) rt) listed
        (ctr_ok-IsUnconnected _ rt h)
        (λ info r k.
          and_then-IsUnconnected (ctr run trim (text "tasks" ∷ text "list" ∷ []) r)
            (λ (o : Output) s. (ok (described words id info o.stdout), s)) (ctr-IsUnconnected _ r k)
            (λ o s m. m))

  container_exists-IsUnconnected :
      (name : Text) (rt : ContainerdRuntime C)
      → IsUnconnected rt
      → IsUnconnected (container_exists run trim name rt).1
  unfolding container_exists
  container_exists-IsUnconnected name rt h =
      and_then-IsUnconnected _ _ (ctr-IsUnconnected _ rt h) (λ o r k. k)

  connect_to_network-fails :
      (id network : Text) (rt : ContainerdRuntime C)
      → connect_to_network run trim id network rt
        ≡ (err (runtime (text "CNI attach: CNI attach not yet implemented")), rt)
  unfolding connect_to_network attach
  connect_to_network-fails id network rt = refl

  after_call-IsUnconnected :
      (call : RuntimeCall) (rt : ContainerdRuntime C)
      → IsUnconnected rt
      → IsUnconnected (after_call call rt)
  after_call-IsUnconnected (call_pull image) rt h = pull_image-IsUnconnected image rt h
  after_call-IsUnconnected (call_create log_dir config) rt h =
      create_container-IsUnconnected log_dir config rt h
  after_call-IsUnconnected (call_start id) rt h = start_container-IsUnconnected id rt h
  after_call-IsUnconnected (call_stop rounds id) rt h = stop_container-IsUnconnected rounds id rt h
  after_call-IsUnconnected (call_remove id force) rt h =
      remove_container-IsUnconnected id force rt h
  after_call-IsUnconnected (call_inspect id) rt h = inspect_container-IsUnconnected id rt h
  after_call-IsUnconnected (call_exists name) rt h = container_exists-IsUnconnected name rt h
  after_call-IsUnconnected (call_connect id network) rt h =
      ap (λ done. done.1.network_map) (connect_to_network-fails id network rt) ∙ h

  after_calls-IsUnconnected :
      (calls : List RuntimeCall) (rt : ContainerdRuntime C)
      → IsUnconnected rt
      → IsUnconnected (after_calls calls rt)
  after_calls-IsUnconnected [] rt h = h
  after_calls-IsUnconnected (call ∷ calls) rt h =
      after_calls-IsUnconnected calls (after_call call rt) (after_call-IsUnconnected call rt h)

  container_ip-IsUnconnected :
      (id network : Text) (rt : ContainerdRuntime C)
      → IsUnconnected rt
      → container_ip run trim id network rt ≡ no_ip run trim id network
  unfolding container_ip HashMap.get
  container_ip-IsUnconnected id network rt h = rw (h, container_ip) refl

  -- After any calls of a new runtime that pull, create, start, stop, remove, inspect, look for or connect,
  -- whatever `ctr` does, connecting a container to a network fails with the manager's text and changes
  -- nothing, and no container has an address on any network.
  pub container_ip-after_calls :
      (c : C) (calls : List RuntimeCall) (container_id network : Text)
      → let rt = after_calls calls (new run trim c) in
        (connect_to_network run trim container_id network rt
          ≡ (err (runtime (text "CNI attach: CNI attach not yet implemented")), rt))
        × (container_ip run trim container_id network rt ≡ no_ip run trim container_id network)
  unfolding new
  container_ip-after_calls c calls container_id network =
      let rt = after_calls calls (record { world = c; netns_map = []; network_map = [] }) in
      (
        connect_to_network-fails container_id network rt,
        container_ip-IsUnconnected container_id network rt (
            after_calls-IsUnconnected calls (record { world = c; netns_map = []; network_map = [] })
              refl),
      )
