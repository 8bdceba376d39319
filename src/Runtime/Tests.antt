-- ===== src/Runtime/Tests.antt =====
-- The names of images; and a daemon with two networks, one of which is removed and made again while writing fails once.
use nexad.Prelude.{◌≡◌, ◌≢◌, refl, some, List, [], ◌∷◌, Text, text, byte_eq, list_eq, inl, inr}
use nexad.HashMap
use nexad.Result.{runtime}
use nexad.Str.Decimal.{show}
use nexad.Prelude.{true, false, contains, ◌||◌, not}
use nexad.Str.{cut, rsplit_once}
use nexad.Runtime.Image.{normalize_image_ref, host_part, has_tag, normalize-normalize}
use nexad.Runtime.Cni.{
  FileSystem, not_filled, new, ensure_network, remove_network, write_config, allocate, release,
  subnet_of, network_config,
}
use nexad.Runtime.CniLaws.{Operation, run, run_distinct, no_faults, restart_shares}

abbrev full : FileSystem
full = record no_faults { write = not_filled (runtime (text "no space")) }

abbrev operations : List Operation
operations =
    inl (no_faults, text "a")
    ∷ inl (full, text "b")
    ∷ inr (no_faults, text "b")
    ∷ inl (no_faults, text "b")
    ∷ []

second_network :
    HashMap.get (run operations (new [])).conf_dir (text "b")
    ≡ some (some (network_config (text "b") (text "172.20.3.0/24")))
unfolding run ensure_network remove_network write_config allocate release new subnet_of show
    HashMap.get HashMap.insert HashMap.remove
second_network = refl

run_distinct_example :
    (x y : Text) × (network_config (text "a") (subnet_of 1) ≡ network_config (text "a") x)
    × (network_config (text "b") (subnet_of 3) ≡ network_config (text "b") y)
    × (x ≢ y)
unfolding run ensure_network remove_network write_config allocate release new HashMap.get
    HashMap.insert HashMap.remove
run_distinct_example =
    run_distinct operations (text "a") (text "b") (network_config (text "a") (subnet_of 1))
      (network_config (text "b") (subnet_of 3)) refl refl refl

restart_shares_example :
    let first = (ensure_network no_faults (new []) (text "a")).1 in
    let second = (ensure_network no_faults (new first.conf_dir) (text "b")).1 in
    (HashMap.get second.conf_dir (text "a") ≡ some (some (network_config (text "a") (subnet_of 1))))
    × (HashMap.get second.conf_dir (text "b")
        ≡ some (some (network_config (text "b") (subnet_of 1))))
restart_shares_example = restart_shares (text "a") (text "b") refl

bare_image : normalize_image_ref (text "nginx:1.25") ≡ text "docker.io/library/nginx:1.25"
unfolding normalize_image_ref host_part cut rsplit_once
bare_image = refl

-- A registry with a port and no dot is taken for a name, and its port for a tag.
local_registry :
    normalize_image_ref (text "localhost:5000/img") ≡ text "docker.io/library/localhost:5000/img"
unfolding normalize_image_ref host_part cut rsplit_once
local_registry = refl

-- A registry's port is no tag, and none is added.
no_tag_added : has_tag (normalize_image_ref (text "registry.example.com:5000/img")) ≡ false
unfolding normalize_image_ref host_part cut has_tag
no_tag_added = refl

normalize-normalize_example :
    let full = normalize_image_ref (text "org/img:2") in
    (contains b'.' (host_part full) ≡ true)
    × (has_tag full ≡ (has_tag (text "org/img:2") || not (contains b':' (text "org/img:2"))))
    × (normalize_image_ref full ≡ full)
normalize-normalize_example = normalize-normalize (text "org/img:2")
