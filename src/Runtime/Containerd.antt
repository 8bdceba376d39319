-- ===== src/Runtime/Containerd.antt =====
-- `ContainerdRuntime` of src/adapters/runtime/containerd.rs, over the command `ctr` that it runs.
use nexad.Prelude.{
  ℕ, zero, suc, ◌^◌, Bool, true, false, ◌&&◌, ◌||◌, Option, none, some, List, [], ◌∷◌, ◌++◌, Text,
  text, ◌==◌, byte_eq, list_eq, if◌then◌else◌, any, find,
}
use nexad.HashMap.{HashMap, get, insert, remove}
use nexad.Str.{lines, contains_text, join}
use nexad.Str.Decimal.{show, parse_uint}
use nexad.Result.{runtime, Result, ok, err, Outcome, failed, value}
use nexad.Transport.Container.{ContainerConfig, VolumeBinding}
use nexad.Runtime.CniCalls.{attach}
use nexad.Runtime.Image.{normalize_image_ref}

-- What a finished command left, its texts as they are read with losses.
pub record Output : Type 0 where
  pub success : Bool
  pub stdout : Text
  pub stderr : Text

pub data ContainerState : Type 0 where
  created running paused restarting removing exited dead unknown : ContainerState

pub record ContainerInfo : Type 0 where
  pub id : Text
  pub name : Text
  pub image : Text
  pub state : ContainerState

-- `world` is what `ctr` works on; the maps are those of the runtime.
pub record ContainerdRuntime {ℓ} (C : Type ℓ) : Type ℓ where
  pub world : C
  pub netns_map : HashMap Text Text
  pub network_map : HashMap Text (Text × Text)

-- the entries of a map as arguments behind a flag
abbrev pub pairs_args : Text → HashMap Text Text → List Text
pairs_args flag [] = []
pairs_args flag ((k, v) ∷ m) = flag ∷ (k ++ (text "=" ++ v)) ∷ pairs_args flag m

unfoldable pub mount : VolumeBinding → Text
mount vol =
    text "type=bind,src="
    ++ (vol.source
        ++ (text ",dst="
            ++ (vol.target
                ++ (text ",options="
                    ++ (if vol.read_only then text "rbind:ro" else text "rbind:rw")))))

abbrev pub mount_args : List VolumeBinding → List Text
mount_args [] = []
mount_args (vol ∷ vols) = text "--mount" ∷ mount vol ∷ mount_args vols

unfoldable pub create_args : ContainerConfig → List Text
unfolding normalize_image_ref
create_args config =
    text "containers"
    ∷ text "create"
    ∷ normalize_image_ref config.image
    ∷ config.name
    ∷ (pairs_args (text "--env") config.env
        ++ (pairs_args (text "--label") config.labels ++ mount_args config.volumes))

unfoldable pub state_of_line : Text → ContainerState
state_of_line line =
    if contains_text line (text "RUNNING")
    then running
    else if contains_text line (text "STOPPED")
    then exited
    else if contains_text line (text "PAUSED")
    then paused
    else if contains_text line (text "CREATED")
    then created
    else unknown

-- the first line that has the id in it, as a state; without one there is no task
unfoldable pub state_in : Text → Text → ContainerState
state_in id tasks = elim (find (λ l. contains_text l id) (lines tasks)) [
  | none ↦ created
  | some line ↦ state_of_line line
]

unfoldable pub is_running_in : Text → Text → Bool
is_running_in id tasks =
    any (λ l. contains_text l id && contains_text l (text "RUNNING")) (lines tasks)

-- `words` is `split_whitespace`
abbrev pub last_word : List Text → Option Text
last_word [] = none
last_word (w ∷ []) = some w
last_word (w ∷ v ∷ ws) = last_word (v ∷ ws)

unfoldable pub image_in : (words : Text → List Text) → Text → Text
image_in words info =
    elim (find (λ l. contains_text l (text "Image:") || contains_text l (text "image:"))
      (lines info)) [
        | none ↦ text "unknown"
        | some line ↦ elim (last_word (words line)) [ none ↦ text "unknown" | some w ↦ w ]
      ]

abbrev pub described : (words : Text → List Text) (id info tasks : Text) → ContainerInfo
described words id info tasks = record {
  id = id;
  name = id;
  image = image_in words info;
  state = state_in id tasks;
}

-- `run` runs `ctr` in the namespace with arguments, `trim` is that of `str`.
module _ {ℓ} {C : Type ℓ} (run : C → List Text → Outcome Output × C) (trim : Text → Text) where
  abbrev pub Runtime : Type ℓ
  Runtime = ContainerdRuntime C

  -- the maps of `ContainerdRuntime::new`
  unfoldable pub new : C → Runtime
  new c = record { world = c; netns_map = []; network_map = [] }

  -- the result, and the runtime with what the command left
  abbrev pub ran : Runtime → Outcome Output × C → Result Output × Runtime
  ran rt (failed e, c) = (err (runtime (text "failed to run ctr: " ++ e)), record rt { world = c })
  ran rt (value o, c) = (ok o, record rt { world = c })

  unfoldable pub ctr : List Text → Runtime → Result Output × Runtime
  ctr args rt = ran rt (run rt.world args)

  abbrev pub checked : List Text → Result Output × Runtime → Result Text × Runtime
  checked args (err e, rt) = (err e, rt)
  checked args (ok o, rt) = if o.success then (ok o.stdout, rt) else (
    err (runtime (text "ctr " ++ (join (text " ") args ++ (text " failed: " ++ trim o.stderr)))),
    rt,
  )

  unfoldable pub ctr_ok : List Text → Runtime → Result Text × Runtime
  ctr_ok args rt = checked args (ctr args rt)

  abbrev pub and_then {κ μ} :
      {A : Type κ} {B : Type μ}
      → Result A × Runtime
      → (A → Runtime → Result B × Runtime)
      → Result B × Runtime
  and_then (err e, rt) next = (err e, rt)
  and_then (ok a, rt) next = next a rt

  unfoldable pub pull_image : Text → Runtime → Result (Unit {0}) × Runtime
  pull_image image rt =
      and_then (ctr_ok (text "images" ∷ text "pull" ∷ normalize_image_ref image ∷ []) rt)
        (λ out r. (ok tt, r))

  -- `log_dir` is what making the directory of the logs reports, if it fails.
  unfoldable pub create_container :
      (log_dir : Option Text) (config : ContainerConfig) → Runtime → Result Text × Runtime
  create_container log_dir config rt = and_then (ctr_ok (create_args config) rt) (λ out r.
      elim log_dir [
        | none ↦ (ok config.name, r)
        | some e ↦ (err (runtime (text "create log dir: " ++ e)), r)
      ])

  abbrev pub record_netns : Text → Text → Runtime → Runtime
  record_netns id stdout rt = elim (parse_uint (2 ^ 64) (trim stdout)) [
    | none ↦ rt
    | some pid ↦ record rt {
      netns_map = insert rt.netns_map id (text "/proc/" ++ (show pid ++ text "/ns/net"));
    }
  ]

  abbrev pub task_started : Text → Runtime → Outcome Output × C → Result (Unit {0}) × Runtime
  task_started id rt (failed e, c) =
      (err (runtime (text "failed to run ctr tasks start: " ++ e)), record rt { world = c })
  task_started id rt (value o, c) =
      if o.success then (ok tt, record_netns id o.stdout (record rt { world = c })) else (
        err (runtime (text "ctr tasks start failed: " ++ trim o.stderr)),
        record rt { world = c },
      )

  unfoldable pub start_container : Text → Runtime → Result (Unit {0}) × Runtime
  start_container id rt =
      task_started id rt (run rt.world (text "tasks" ∷ text "start" ∷ text "--detach" ∷ id ∷ []))

  unfoldable pub kill_now : Text → Runtime → Result (Unit {0}) × Runtime
  kill_now id rt =
      and_then (ctr_ok (text "tasks" ∷ text "kill" ∷ text "--signal" ∷ text "SIGKILL" ∷ id ∷ []) rt)
        (λ out r. (ok tt, r))

  -- The loop that waits, for the number of its rounds that begin before the deadline: each round
  -- lists the tasks.
  unfoldable pub wait_stopped : ℕ → Text → Runtime → Result (Unit {0}) × Runtime
  wait_stopped zero id rt = kill_now id rt
  wait_stopped (suc rounds) id rt =
      and_then (ctr (text "tasks" ∷ text "list" ∷ []) rt) (λ (o : Output) r.
        elim (is_running_in id o.stdout) [ true ↦ wait_stopped rounds id r | false ↦ (ok tt, r) ])

  unfoldable pub stop_container : (rounds : ℕ) (id : Text) → Runtime → Result (Unit {0}) × Runtime
  stop_container rounds id rt =
      and_then (ctr (text "tasks" ∷ text "kill" ∷ text "--signal" ∷ text "SIGTERM" ∷ id ∷ []) rt)
        (λ (o : Output) r. elim o.success [ false ↦ (ok tt, r) | true ↦ wait_stopped rounds id r ])

  -- The directory of the logs is removed too, whatever the file system reports.
  unfoldable pub remove_container :
      (id : Text) (force : Bool) → Runtime → Result (Unit {0}) × Runtime
  remove_container id force rt = and_then (ctr (text "tasks" ∷ text "delete" ∷ id ∷ []) rt) (λ o r.
      and_then (ctr_ok (text "containers" ∷ text "delete" ∷ id ∷ []) r) (λ out s. (
        ok tt,
        record s { netns_map = remove s.netns_map id; network_map = remove s.network_map id },
      )))

  unfoldable pub inspect_container :
      (words : Text → List Text) (id : Text) → Runtime → Result ContainerInfo × Runtime
  inspect_container words id rt =
      and_then (ctr_ok (text "containers" ∷ text "info" ∷ id ∷ []) rt) (λ info r.
        and_then (ctr (text "tasks" ∷ text "list" ∷ []) r)
          (λ (o : Output) s. (ok (described words id info o.stdout), s)))

  unfoldable pub container_exists : Text → Runtime → Result Bool × Runtime
  container_exists name rt =
      and_then (ctr (text "containers" ∷ text "info" ∷ name ∷ []) rt)
        (λ (o : Output) r. (ok o.success, r))

  abbrev pub attached : Text → Text → Runtime → Outcome Text → Result (Unit {0}) × Runtime
  attached container_id network rt (failed e) = (err (runtime (text "CNI attach: " ++ e)), rt)
  attached container_id network rt (value ip) =
      (ok tt, record rt { network_map = insert rt.network_map container_id (network, ip) })

  unfoldable pub connect_to_network :
      (container_id network : Text) → Runtime → Result (Unit {0}) × Runtime
  connect_to_network container_id network rt =
      attached container_id network rt (attach container_id network)

  abbrev pub no_ip : Text → Text → Result Text
  no_ip container_id network = err (
      runtime
        (text "no IP found for container " ++ (container_id ++ (text " on network " ++ network))))

  unfoldable pub container_ip : (container_id network : Text) → Runtime → Result Text
  container_ip container_id network rt = elim (get rt.network_map container_id) [
    | none ↦ no_ip container_id network
    | some (net, ip) ↦ if net == network then ok ip else no_ip container_id network
  ]
