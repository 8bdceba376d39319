-- ===== src/Runtime/CniInvariant.antt =====
-- The invariant of a CNI manager: what each step of its operations keeps.
use nexad.Prelude.{
  Bool-cases, Option-cases, list_beq_iff, ℕ, ◌+◌, ◌%◌, ◌<◌, ◌≡◌, ◌≢◌, refl, ◌⊎◌, inl, inr, true,
  false, Option, none, some, arith, Text, ◌==◌, byte_eq, list_eq,
}
use nexad.HashMap
use nexad.HashMap.{HashMap, get-insert, get-insert_self, get-remove}
use nexad.Result.{NexaError, ok, err}
use nexad.Runtime.Cni.{
  exhausted, SubnetAllocator, CniConfig, CniManager, Write, written, not_created, not_filled,
  subnet_of, network_config, allocate, release, write_config,
}

-- Each allocated octet is one that the counter has passed, and no two names share one.
pub record IsFresh (s : SubnetAllocator) : Type 0 where
  pub next_bound : s.next_octet < 256
  pub octet_bound :
      (k : Text) (o : ℕ)
      → HashMap.get s.allocations k ≡ some o
      → (0 < o) × (o < 256) × ((s.next_octet ≡ 0) ⊎ (o < s.next_octet))
  pub octet_unique :
      (j k : Text) (o : ℕ)
      → HashMap.get s.allocations j ≡ some o
      → HashMap.get s.allocations k ≡ some o
      → (j == k) ≡ true

-- the configuration with the subnet allocated to a name
abbrev allocated_config : SubnetAllocator → Text → Option CniConfig
allocated_config s k = elim (HashMap.get s.allocations k) [
  | none ↦ none
  | some o ↦ some (network_config k (subnet_of o))
]

-- Moreover each whole file holds the subnet allocated to its name.
pub record IsConsistent (m : CniManager) : Type 0 where
  pub fresh : IsFresh m.subnet_allocator
  pub file_subnet :
      (k : Text) (c : CniConfig)
      → HashMap.get m.conf_dir k ≡ some (some c)
      → allocated_config m.subnet_allocator k ≡ some c

insert-IsFresh :
    (s : SubnetAllocator) (name : Text)
    → s.next_octet ≢ 0
    → IsFresh s
    → IsFresh (record {
      allocations = HashMap.insert s.allocations name s.next_octet;
      next_octet = (s.next_octet + 1) % 256;
    })
insert-IsFresh s name nz f = record {
  next_bound = omega arith;
  octet_bound = λ k o h.
      let b = f.octet_bound k o in
      ground (arith, get-insert s.allocations name k s.next_octet, b, f.next_bound, h);
  octet_unique = λ j k o h h'. ground (
    arith,
    get-insert s.allocations name j s.next_octet,
    get-insert s.allocations name k s.next_octet,
    f.octet_bound j o,
    f.octet_bound k o,
    f.octet_unique j k o,
    list_beq_iff name j,
    list_beq_iff name k,
    list_beq_iff j k,
    h,
    h',
  );
}

release-IsFresh : (s : SubnetAllocator) (name : Text) → IsFresh s → IsFresh (release s name)
unfolding release
release-IsFresh s name f = record {
  next_bound = f.next_bound;
  octet_bound = λ k o h. ground (arith, get-remove s.allocations name k, f.octet_bound k o, h);
  octet_unique = λ j k o h h'. ground (
    arith,
    get-remove s.allocations name j,
    get-remove s.allocations name k,
    f.octet_unique j k o,
    h,
    h',
  );
}

pub release-IsConsistent :
    (m : CniManager) (name : Text)
    → IsConsistent m
    → IsConsistent (record {
      conf_dir = HashMap.remove m.conf_dir name;
      subnet_allocator = release m.subnet_allocator name;
    })
unfolding release
release-IsConsistent m name w = record {
  fresh = release-IsFresh m.subnet_allocator name w.fresh;
  file_subnet = λ k c h. ground (
    arith,
    get-remove m.conf_dir name k,
    get-remove m.subnet_allocator.allocations name k,
    w.file_subnet k c,
    h,
  );
}

pub absent-IsConsistent :
    (m : CniManager) (name : Text)
    → IsConsistent m
    → HashMap.get m.conf_dir name ≡ none
    → IsConsistent (record m { subnet_allocator = release m.subnet_allocator name })
unfolding release
absent-IsConsistent m name w a = record {
  fresh = release-IsFresh m.subnet_allocator name w.fresh;
  file_subnet = λ k c h. ground (
    arith,
    get-remove m.subnet_allocator.allocations name k,
    w.file_subnet k c,
    list_beq_iff name k,
    a,
    h,
  );
}

-- An allocator that still holds what the old one held, and a subnet for `name`.
write_ok :
    (x : Write) (m : CniManager) (name : Text) (s : SubnetAllocator) (o : ℕ)
    → IsConsistent m
    → IsFresh s
    → HashMap.get s.allocations name ≡ some o
    → ((k : Text)
        → (name == k) ≡ false
        → HashMap.get s.allocations k ≡ HashMap.get m.subnet_allocator.allocations k)
    → HashMap.get m.conf_dir name ≡ none
    → IsConsistent (write_config x m name (ok (subnet_of o), s)).1
unfolding write_config
write_ok written m name s o w f g same a = record {
  fresh = f;
  file_subnet = λ k c h. ground (
    arith,
    get-insert m.conf_dir name k (some (network_config name (subnet_of o))),
    w.file_subnet k c,
    same k,
    list_beq_iff name k,
    g,
    a,
    h,
  );
}
write_ok (not_created e) m name s o w f g same a = record {
  fresh = f;
  file_subnet = λ k c h. ground (arith, w.file_subnet k c, same k, list_beq_iff name k, g, a, h);
}
write_ok (not_filled e) m name s o w f g same a = record {
  fresh = f;
  file_subnet = λ k c h. ground (
    arith,
    get-insert m.conf_dir name k (none),
    w.file_subnet k c,
    same k,
    list_beq_iff name k,
    g,
    a,
    h,
  );
}

write_err :
    (x : Write) (m : CniManager) (name : Text) (e : NexaError)
    → IsConsistent m
    → IsConsistent (write_config x m name (err e, m.subnet_allocator)).1
unfolding write_config
write_err x m name e w = w

pub write_config-IsConsistent :
    (x : Write) (m : CniManager) (name : Text)
    → IsConsistent m
    → HashMap.get m.conf_dir name ≡ none
    → IsConsistent (write_config x m name (allocate m.subnet_allocator name)).1
unfolding allocate write_config
write_config-IsConsistent x m name w h =
    let s = m.subnet_allocator in
    elim (Option-cases (HashMap.get s.allocations name)) [
      | inr (o, e) ↦ rw (e, allocate) (write_ok x m name s o w w.fresh e (λ k ne. refl) h)
      | inl e ↦ elim (Bool-cases (s.next_octet == 0)) [
        | inl z ↦ rw (e, z, allocate) (write_err x m name exhausted w)
        | inr z ↦
            rw (e, z, allocate)
              (write_ok x m name
                (record {
                  allocations = HashMap.insert s.allocations name s.next_octet;
                  next_octet = (s.next_octet + 1) % 256;
                })
                s.next_octet w (insert-IsFresh s name (ground arith) w.fresh)
                (get-insert_self s.allocations name s.next_octet)
                (λ k ne. ground (arith, get-insert s.allocations name k s.next_octet)) h)
      ]
    ]
