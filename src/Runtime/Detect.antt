-- ===== src/Runtime/Detect.antt =====
-- The choice of a runtime: src/adapters/runtime/detect.rs.
use nexad.Prelude.{
  Bool, true, false, ◌≡◌, refl, arith, ◌++◌, Text, text, ◌==◌, byte_eq, list_eq, if◌then◌else◌,
}
use nexad.Result.{Outcome, failed, value}

pub data RuntimeKind : Type 0 where
  docker containerd auto : RuntimeKind

-- `to_lowercase` is that of `str`
unfoldable pub from_str : (to_lowercase : Text → Text) → Text → Outcome RuntimeKind
from_str to_lowercase s =
    let lower = to_lowercase s in
    if lower == text "docker"
    then value docker
    else if lower == text "containerd"
    then value containerd
    else if lower == text "auto"
    then value auto
    else failed (text "unknown runtime: " ++ (lower ++ text ". Use: docker, containerd, or auto"))

unfoldable pub show_kind : RuntimeKind → Text
show_kind docker = text "docker"
show_kind containerd = text "containerd"
show_kind auto = text "auto"

-- whether the two sockets are there
unfoldable pub auto_detect : Bool × Bool → Outcome RuntimeKind
auto_detect (true, c) = value docker
auto_detect (false, true) = value containerd
auto_detect (false, false) =
    failed (text "no container runtime found: neither Docker nor containerd socket detected")

unfoldable pub resolve : Bool × Bool → RuntimeKind → Outcome RuntimeKind
resolve probed auto = auto_detect probed
resolve probed docker = value docker
resolve probed containerd = value containerd

-- The constructors with their connections to the daemons are parameters.
unfoldable pub build {ℓ} :
    {Runtime : Type ℓ}
    → (docker_runtime containerd_runtime : Outcome Runtime) → RuntimeKind
    → Outcome Runtime
build docker_runtime containerd_runtime docker = docker_runtime
build docker_runtime containerd_runtime containerd = containerd_runtime
build docker_runtime containerd_runtime auto =
    failed (text "RuntimeKind::Auto must be resolved before building")

-- What a kind is printed as is read as the kind, where lower case is left as it is.
from_str-show_kind :
    (to_lowercase : Text → Text) (kind : RuntimeKind)
    → to_lowercase (show_kind kind) ≡ show_kind kind
    → from_str to_lowercase (show_kind kind) ≡ value kind
unfolding from_str show_kind
from_str-show_kind to_lowercase docker h = rw (from_str, h) refl
from_str-show_kind to_lowercase containerd h = rw (from_str, h) refl
from_str-show_kind to_lowercase auto h = rw (from_str, h) refl

abbrev is_auto : RuntimeKind → Bool
is_auto auto = true
is_auto docker = false
is_auto containerd = false

-- A kind that was resolved is never `auto`, so building does not meet it.
resolve-kind :
    (probed : Bool × Bool) (kind found : RuntimeKind)
    → resolve probed kind ≡ value found
    → is_auto found ≡ false
unfolding resolve auto_detect
resolve-kind (true, c) auto found h = ground (arith, h)
resolve-kind (false, true) auto found h = ground (arith, h)
resolve-kind (false, false) auto found h = ground (arith, h)
resolve-kind probed docker found h = ground (arith, h)
resolve-kind probed containerd found h = ground (arith, h)
