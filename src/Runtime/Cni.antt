-- ===== src/Runtime/Cni.antt =====
-- `SubnetAllocator` and `CniManager` of src/adapters/runtime/cni.rs.
use nexad.Prelude.{
  ℕ, ◌+◌, ◌%◌, Bool, true, Option, none, some, List, [], ◌∷◌, ◌++◌, Text, text, ◌==◌, byte_eq,
  list_eq, if◌then◌else◌,
}
use nexad.HashMap
use nexad.HashMap.{HashMap}
use nexad.Result.{NexaError, runtime, Result, ok, err}
use nexad.Str.Decimal.{show}

pub record SubnetAllocator : Type 0 where
  pub allocations : HashMap Text ℕ
  pub next_octet : ℕ

abbrev pub new_allocator : SubnetAllocator
new_allocator = record { allocations = []; next_octet = 1 }

-- `"172.20.{octet}.0/24"`
unfoldable pub subnet_of : ℕ → Text
subnet_of octet = text "172.20." ++ (show octet ++ text ".0/24")

abbrev pub exhausted : NexaError
exhausted = runtime (text "subnet pool exhausted (255 /24 networks allocated)")

unfoldable pub allocate : SubnetAllocator → Text → Result Text × SubnetAllocator
allocate s name = elim (HashMap.get s.allocations name) [
  | some octet ↦ (ok (subnet_of octet), s)
  | none ↦ if s.next_octet == 0 then (err exhausted, s) else (
    ok (subnet_of s.next_octet),
    record {
      allocations = HashMap.insert s.allocations name s.next_octet;
      next_octet = (s.next_octet + 1) % 256;
    },
  )
]

unfoldable pub release : SubnetAllocator → Text → SubnetAllocator
release s name = record s { allocations = HashMap.remove s.allocations name }

pub record CniIpam : Type 0 where
  pub ipam_type : Text
  pub subnet : Text

pub data CniPlugin : Type 0 where
  bridge : Text → Bool → CniIpam → CniPlugin
  loopback : CniPlugin

pub record CniConfig : Type 0 where
  pub cni_version : Text
  pub name : Text
  pub plugins : List CniPlugin

-- The manager and the directory of its files. `{name}.conflist` is the only kind of file there, so
-- the name is the key; a file holds the configuration that was serialised into it, or a part of
-- one (`none`) where writing it failed.
pub record CniManager : Type 0 where
  pub conf_dir : HashMap Text (Option CniConfig)
  pub subnet_allocator : SubnetAllocator

-- A daemon that starts has a new allocator over the files that are there.
unfoldable pub new : HashMap Text (Option CniConfig) → CniManager
new files = record { conf_dir = files; subnet_allocator = new_allocator }

-- `fs::write` creates the file and fills it; either step can fail.
pub data Write : Type 0 where
  written : Write
  not_created not_filled : NexaError → Write

-- What the file system reports for the calls of one operation: `none`, or the error.
pub record FileSystem : Type 0 where
  pub create_dir_all : Option NexaError
  pub write : Write
  pub remove_file : Option NexaError

unfoldable pub network_config : Text → Text → CniConfig
network_config name subnet = record {
  cni_version = text "1.0.0";
  name = name;
  plugins =
      bridge (text "cni-" ++ name) true (record { ipam_type = text "host-local"; subnet = subnet })
      ∷ loopback
      ∷ [];
}

unfoldable pub write_config :
    Write → CniManager → Text → Result Text × SubnetAllocator → Result (Unit {0}) × CniManager
write_config w m name (err e, s) = (err e, record m { subnet_allocator = s })
write_config (not_created e) m name (ok subnet, s) = (err e, record m { subnet_allocator = s })
write_config (not_filled e) m name (ok subnet, s) =
    (err e, record { conf_dir = HashMap.insert m.conf_dir name none; subnet_allocator = s })
write_config written m name (ok subnet, s) = (
  ok tt,
  record {
    conf_dir = HashMap.insert m.conf_dir name (some (network_config name subnet));
    subnet_allocator = s;
  },
)

unfoldable pub ensure_network : FileSystem → CniManager → Text → Result (Unit {0}) × CniManager
ensure_network fs m name = elim fs.create_dir_all [
  | some e ↦ (err e, m)
  | none ↦ elim (HashMap.get m.conf_dir name) [
    | some config ↦ (ok tt, m)
    | none ↦ write_config fs.write m name (allocate m.subnet_allocator name)
  ]
]

unfoldable pub remove_network : FileSystem → CniManager → Text → Result (Unit {0}) × CniManager
remove_network fs m name = elim (HashMap.get m.conf_dir name) [
  | none ↦ (ok tt, record m { subnet_allocator = release m.subnet_allocator name })
  | some config ↦ elim fs.remove_file [
    | some e ↦ (err e, m)
    | none ↦ (
      ok tt,
      record {
        conf_dir = HashMap.remove m.conf_dir name;
        subnet_allocator = release m.subnet_allocator name;
      },
    )
  ]
]
