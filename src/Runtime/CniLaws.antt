-- ===== src/Runtime/CniLaws.antt =====
-- Which subnets the networks of a daemon's CNI directory hold.
use nexad.Prelude.{
  Option-cases, beq_refl, ℕ, ◌<◌, ◌≡◌, ◌≢◌, ◌⊎◌, inl, inr, false, none, some, List, [], ◌∷◌, arith,
  Text, ◌==◌, byte_eq, list_eq,
}
use nexad.HashMap
use nexad.HashMap.{HashMap, get-insert, get-insert_self, get-remove}
use nexad.Str.Decimal.{show}
use nexad.Network.Subnet.{subnet_text}
use nexad.Network.Allocation.{subnet_text-injective}
use nexad.Runtime.Cni.{
  CniConfig, CniManager, FileSystem, written, subnet_of, network_config, allocate, write_config,
  new, ensure_network, remove_network,
}
use nexad.Runtime.CniInvariant.{
  IsConsistent, release-IsConsistent, absent-IsConsistent, write_config-IsConsistent,
}

abbrev pub Operation : Type 0
Operation = (FileSystem × Text) ⊎ (FileSystem × Text)

-- The state after a run of `ensure_network` (`inl`) and `remove_network` (`inr`), each with the
-- faults of its calls.
unfoldable pub run : List Operation → CniManager → CniManager
run [] m = m
run (inl (fs, name) ∷ ops) m = run ops (ensure_network fs m name).1
run (inr (fs, name) ∷ ops) m = run ops (remove_network fs m name).1

ensure_network-IsConsistent :
    (fs : FileSystem) (m : CniManager) (name : Text)
    → IsConsistent m
    → IsConsistent (ensure_network fs m name).1
unfolding ensure_network
ensure_network-IsConsistent fs m name w = elim (Option-cases fs.create_dir_all) [
  | inr (e, p) ↦ rw (p, ensure_network) w
  | inl p ↦ elim (Option-cases (HashMap.get m.conf_dir name)) [
    | inr (c, a) ↦ rw (p, a, ensure_network) w
    | inl a ↦ rw (p, a, ensure_network) (write_config-IsConsistent fs.write m name w a)
  ]
]

remove_network-IsConsistent :
    (fs : FileSystem) (m : CniManager) (name : Text)
    → IsConsistent m
    → IsConsistent (remove_network fs m name).1
unfolding remove_network
remove_network-IsConsistent fs m name w = elim (Option-cases (HashMap.get m.conf_dir name)) [
  | inl a ↦ rw (a, remove_network) (absent-IsConsistent m name w a)
  | inr (c, a) ↦ elim (Option-cases fs.remove_file) [
    | inr (e, p) ↦ rw (a, p, remove_network) w
    | inl p ↦ rw (a, p, remove_network) (release-IsConsistent m name w)
  ]
]

run-IsConsistent :
    (ops : List Operation) (m : CniManager) → IsConsistent m → IsConsistent (run ops m)
unfolding run
run-IsConsistent [] m w = w
run-IsConsistent (inl (fs, name) ∷ ops) m w =
    run-IsConsistent ops (ensure_network fs m name).1 (ensure_network-IsConsistent fs m name w)
run-IsConsistent (inr (fs, name) ∷ ops) m w =
    run-IsConsistent ops (remove_network fs m name).1 (remove_network-IsConsistent fs m name w)

new-IsConsistent : IsConsistent (new [])
unfolding new HashMap.get
new-IsConsistent = record {
  fresh = record {
    next_bound = omega arith;
    octet_bound = λ k o h. ground arith;
    octet_unique = λ j k o h. ground arith;
  };
  file_subnet = λ k c h. ground arith;
}

subnet_of-injective : (c d : ℕ) → c < 256 → d < 256 → subnet_of c ≡ subnet_of d → c ≡ d
unfolding subnet_of subnet_text show
subnet_of-injective = subnet_text-injective 172 20

-- In the state after any run on an empty directory, whatever calls of the file system failed, the
-- files of two networks hold different subnets.
pub run_distinct :
    (ops : List Operation) (j k : Text) (c d : CniConfig)
    → HashMap.get (run ops (new [])).conf_dir j ≡ some (some c)
    → HashMap.get (run ops (new [])).conf_dir k ≡ some (some d)
    → (j == k) ≡ false
    → (x y : Text) × (c ≡ network_config j x) × (d ≡ network_config k y) × (x ≢ y)
run_distinct ops j k c d h h' ne =
    let m = run ops (new []) in
    let w = run-IsConsistent ops (new []) new-IsConsistent in
    let s = m.subnet_allocator in
    let p = w.file_subnet j c h in
    let q = w.file_subnet k d h' in
    elim (Option-cases (HashMap.get s.allocations j)) [
      | inl e ↦ ground (arith, p, e)
      | inr (a, e) ↦ elim (Option-cases (HashMap.get s.allocations k)) [
        | inl e' ↦ ground (arith, q, e')
        | inr (b, e') ↦ (
          subnet_of a,
          subnet_of b,
          ground (arith, p, e),
          ground (arith, q, e'),
          λ t. ground (
            arith,
            subnet_of-injective a b,
            w.fresh.octet_bound j a e,
            w.fresh.octet_bound k b e',
            w.fresh.octet_unique j k a,
            e,
            e',
            t,
            ne,
          ),
        )
      ]
    ]

abbrev pub no_faults : FileSystem
no_faults = record { create_dir_all = none; write = written; remove_file = none }

-- A daemon that starts over the files of the one before it gives a second network the subnet that
-- the first one holds: its allocator does not read the files.
pub restart_shares :
    (j k : Text)
    → (j == k) ≡ false
    → let first = (ensure_network no_faults (new []) j).1 in
      let second = (ensure_network no_faults (new first.conf_dir) k).1 in
      (HashMap.get second.conf_dir j ≡ some (some (network_config j (subnet_of 1))))
      × (HashMap.get second.conf_dir k ≡ some (some (network_config k (subnet_of 1))))
unfolding ensure_network new write_config allocate HashMap.get HashMap.insert
restart_shares j k ne = ground (arith, beq_refl j, beq_refl k, ne)
