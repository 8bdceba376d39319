-- ===== src/Runtime/CniCalls.antt =====
-- The other methods of `CniManager` in src/adapters/runtime/cni.rs, and the networks of containerd.rs,
-- which are the manager's.
use nexad.Prelude.{Bool, List, [], ◌∷◌, ◌++◌, Text, text, if◌then◌else◌}
use nexad.Result.{NexaError, runtime, Result, ok, err, Outcome, failed, value}
use nexad.Runtime.Cni.{CniManager, FileSystem}
use nexad.Runtime.Cni

-- `exists` tells whether a path is there.
abbrev pub check_each : (exists_ : Text → Bool) (bin_dir : Text) → List Text → Outcome (Unit {0})
check_each exists_ bin_dir [] = value tt
check_each exists_ bin_dir (plugin ∷ plugins) =
    let path = bin_dir ++ (text "/" ++ plugin) in
    let rest = check_each exists_ bin_dir plugins in
    if exists_ path then rest else failed (text "CNI plugin not found: " ++ path)

unfoldable pub check_plugins : (exists_ : Text → Bool) (bin_dir : Text) → Outcome (Unit {0})
check_plugins exists_ bin_dir = check_each exists_ bin_dir (text "bridge" ∷ text "loopback" ∷ [])

unfoldable pub attach : (container_id network : Text) → Outcome Text
attach container_id network = failed (text "CNI attach not yet implemented")

unfoldable pub detach : (container_id network : Text) → Outcome (Unit {0})
detach container_id network = failed (text "CNI detach not yet implemented")

-- `display` is the text of an error of the manager.
module _ (display : NexaError → Text) where
  abbrev pub with_context {ℓ} : {A : Type ℓ} → Text → A → Result (Unit {0}) → Result A
  with_context context a (ok u) = ok a
  with_context context a (err e) = err (runtime (context ++ display e))

  unfoldable pub create_network : FileSystem → Text → CniManager → Result Text × CniManager
  create_network fs name m =
      let (r, after_) = Cni.ensure_network fs m name in
      (with_context (text "create network: ") name r, after_)

  unfoldable pub remove_network : FileSystem → Text → CniManager → Result (Unit {0}) × CniManager
  remove_network fs name m =
      let (r, after_) = Cni.remove_network fs m name in
      (with_context (text "remove network: ") tt r, after_)
