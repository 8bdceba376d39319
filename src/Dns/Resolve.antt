-- ===== src/Dns/Resolve.antt =====
-- `DnsRecordStore::resolve`: which names have which answers.
use nexad.Prelude.{
  ℕ, zero, suc, ◌<◌, ◌≡◌, ◌≢◌, refl, ◌∙◌, true, false, Option, none, some, List, [], ◌∷◌, ◌++◌,
  arith, Text, text, ◌==◌, byte_eq, list_eq, if◌then◌else◌, contains, is_empty, get_elem?, All,
  All-append, All-imp, Bool-cases, Option-cases, inl, inr,
}
use mathlib.Core.Path.{subst}
use mathlib.Core.List.{append-nil}
use mathlib.Core.Option.{some-injective}
use nexad.Str.{splitn, rsplit_once, trim_end_matches}
use nexad.Str.Laws.{
  IsFree, splitn_three, rsplit_once-append, rsplit_once-free, trim_end_matches-append,
  trim_end_matches-append_nil, IsDigit-IsFree,
}
use nexad.Str.Decimal.{parse_uint, parse_uint-show, show, show-IsDigit}
use nexad.Dns.Address.{IpAddr, ip_eq, ip_beq_iff}
use nexad.Dns.Records.{
  DnsRecordStore, and_then, lookup, lookup_replica, usize_limit, resolve_replica, resolve_host,
  resolve_parts, resolve,
}

-- `<host>.<project>.internal` with any number of dots behind it
unfoldable pub dots : ℕ → Text
dots zero = []
dots (suc n) = b'.' ∷ dots n

abbrev pub full_name : Text → Text → Text
full_name host project = host ++ b'.' ∷ (project ++ b'.' ∷ text "internal")

trim-dots : (n : ℕ) → trim_end_matches b'.' (dots n) ≡ []
unfolding trim_end_matches dots
trim-dots zero = refl
trim-dots (suc n) = ground (arith, trim-dots n)

trim-full_name :
    (host project : Text) (n : ℕ)
    → trim_end_matches b'.' (full_name host project ++ dots n) ≡ full_name host project
unfolding trim_end_matches
trim-full_name host project n =
    trim_end_matches-append_nil b'.' (full_name host project) (dots n) (trim-dots n)
    ∙ trim_end_matches-append b'.' host (b'.' ∷ (project ++ b'.' ∷ text "internal"))
        (trim_end_matches-append b'.' (b'.' ∷ project) (b'.' ∷ text "internal") refl (ground arith))
        (ground arith)

-- A name of the cluster's domain is looked up by its first two labels, which hold no dot; dots
-- behind the name make no difference.
pub resolve-full_name :
    (s : DnsRecordStore) (host project : Text) (n : ℕ)
    → IsFree b'.' host
    → IsFree b'.' project
    → resolve s (full_name host project ++ dots n) ≡ resolve_host s project host
unfolding resolve resolve_parts
resolve-full_name s host project n h k =
    rw (trim-full_name host project n, splitn_three b'.' host project (text "internal") h k) refl

pub resolve-full_name_bare :
    (s : DnsRecordStore) (host project : Text)
    → IsFree b'.' host
    → IsFree b'.' project
    → resolve s (full_name host project) ≡ resolve_host s project host
unfolding dots
resolve-full_name_bare s host project h k =
    rw append-nil at (resolve-full_name s host project 0 h k)

lookup_replica-lookup :
    (s : DnsRecordStore) (p d : Text) (i : ℕ) → lookup_replica s p d i ≡ get_elem? (lookup s p d) i
unfolding lookup_replica lookup
lookup_replica-lookup s p d i = ground arith

resolve_replica-show :
    (s : DnsRecordStore) (project d : Text) (i : ℕ)
    → i < usize_limit
    → resolve_replica s project (d ++ b'-' ∷ show i) ≡ get_elem? (lookup s project d) i
unfolding resolve_replica
resolve_replica-show s project d i h =
    rw
      (
        rsplit_once-append b'-' d (show i)
            (IsDigit-IsFree b'-' (show i) (omega arith) (show-IsDigit i)),
        parse_uint-show usize_limit i h,
      )
      (lookup_replica-lookup s project d i)

IsFree-show : (i : ℕ) → IsFree b'.' (show i)
IsFree-show i = IsDigit-IsFree b'.' (show i) (omega arith) (show-IsDigit i)

-- `<deployment>-<i>.<project>.internal` is the i-th address of the deployment, alone, where the
-- deployment has more than i addresses.
pub resolve_replica_name :
    (s : DnsRecordStore) (project d : Text) (i n : ℕ) (ip : IpAddr)
    → IsFree b'.' d
    → IsFree b'.' project
    → i < usize_limit
    → get_elem? (lookup s project d) i ≡ some ip
    → resolve s (full_name (d ++ b'-' ∷ show i) project ++ dots n) ≡ some (ip ∷ [])
unfolding resolve_host
resolve_replica_name s project d i n ip hd hp hi e =
    rw
      (resolve-full_name s (d ++ b'-' ∷ show i) project n
        (All-append (λ x. x ≢ b'.') d (b'-' ∷ show i) hd (omega arith, IsFree-show i)) hp)
      (rw (resolve_replica-show s project d i hi ∙ e, resolve_host) refl)

resolve_replica-free :
    (s : DnsRecordStore) (project d : Text) → IsFree b'-' d → resolve_replica s project d ≡ none
unfolding resolve_replica
resolve_replica-free s project d hf = rw (rsplit_once-free b'-' d hf)

-- A host with no dash is a deployment: the answer is all its addresses, oldest first, and there is
-- no answer where it has none.
pub resolve_deployment_name :
    (s : DnsRecordStore) (project d : Text) (n : ℕ)
    → IsFree b'.' d
    → IsFree b'-' d
    → IsFree b'.' project
    → resolve s (full_name d project ++ dots n)
      ≡ (if is_empty (lookup s project d) then none else some (lookup s project d))
unfolding resolve_host
resolve_deployment_name s project d n hd hf hp =
    rw (resolve-full_name s d project n hd hp)
      (rw (resolve_replica-free s project d hf, resolve_host) refl)

-- every address of `ips` is registered for the deployment
abbrev pub AreRegistered : DnsRecordStore → Text → Text → List IpAddr → Type 0
AreRegistered s p d ips = All (λ ip. contains ip (lookup s p d) ≡ true) ips

All-contains : (xs : List IpAddr) → All (λ ip. contains ip xs ≡ true) xs
All-contains [] = tt
All-contains (x ∷ xs) = (
  ground (arith, ip_beq_iff x x),
  All-imp (λ y h. ground (arith, ip_beq_iff x y)) xs (All-contains xs),
)

contains-get_elem? :
    (xs : List IpAddr) (i : ℕ) (ip : IpAddr) → get_elem? xs i ≡ some ip → contains ip xs ≡ true
contains-get_elem? [] i ip h = cc
contains-get_elem? (x ∷ xs) zero ip h = ground (arith, ip_beq_iff x ip)
contains-get_elem? (x ∷ xs) (suc i) ip h = ground (arith, contains-get_elem? xs i ip)

and_then-eq_some {ℓ κ} :
    {A : Type ℓ} {B : Type κ} (o : Option A) (f : A → Option B) {b : B}
    → and_then o f ≡ some b
    → (a : A) × (o ≡ some a) × (f a ≡ some b)
and_then-eq_some none f h = cc
and_then-eq_some (some a) f h = (a, refl, h)

resolve_replica_sound :
    (s : DnsRecordStore) (p host : Text) (ip : IpAddr)
    → resolve_replica s p host ≡ some ip
    → (d : Text) × (contains ip (lookup s p d) ≡ true)
unfolding resolve_replica
resolve_replica_sound s p host ip h =
    let (parts, _, found) = and_then-eq_some (rsplit_once b'-' host) _ h in
    let (i, _, here) = and_then-eq_some (parse_uint usize_limit parts.1) _ found in
    (
      parts.0,
      contains-get_elem? (lookup s p parts.0) i ip
          (rw (← lookup_replica-lookup s p parts.0 i) here),
    )

-- the addresses of an answer are not none, and are registered for one deployment of the project
abbrev pub IsAnswer : DnsRecordStore → Text → List IpAddr → Type 0
IsAnswer s p ips = (d : Text) × (is_empty ips ≡ false) × AreRegistered s p d ips

resolve_host_sound :
    (s : DnsRecordStore) (p host : Text) (ips : List IpAddr)
    → resolve_host s p host ≡ some ips
    → IsAnswer s p ips
unfolding resolve_host
resolve_host_sound s p host ips h = elim (Option-cases (resolve_replica s p host)) [
  | inr (ip, here) ↦
      let (d, inside) = resolve_replica_sound s p host ip here in
      subst (IsAnswer s p) (some-injective (ip ∷ []) ips (rw (here, resolve_host) at h))
        (d, refl, (inside, tt))
  | inl gone ↦ elim (Bool-cases (is_empty (lookup s p host))) [
    | inl nothing ↦ cc (rw (gone, nothing, resolve_host) at h)
    | inr left ↦
        subst (IsAnswer s p)
          (some-injective (lookup s p host) ips (rw (gone, left, resolve_host) at h))
          (host, left, All-contains (lookup s p host))
  ]
]

resolve_parts_sound :
    (s : DnsRecordStore) (parts : List Text) (ips : List IpAddr)
    → resolve_parts s parts ≡ some ips
    → (p : Text) × IsAnswer s p ips
unfolding resolve_parts
resolve_parts_sound s (host ∷ p ∷ domain ∷ []) ips h =
    elim (Bool-cases (domain == text "internal")) [
      | inl same ↦ (p, resolve_host_sound s p host ips (rw same at h))
      | inr other ↦ cc (rw other at h)
    ]
resolve_parts_sound s parts ips h = cc

-- Whatever the name, an answer is never an empty list, and all its addresses are registered for
-- one deployment.
pub resolve_sound :
    (s : DnsRecordStore) (name : Text) (ips : List IpAddr)
    → resolve s name ≡ some ips
    → (p : Text) × IsAnswer s p ips
unfolding resolve
resolve_sound s name ips h =
    resolve_parts_sound s (splitn 3 b'.' (trim_end_matches b'.' name)) ips h
