-- ===== src/Dns/Records.antt =====
-- `DnsRecordStore` of src/adapters/dns/record_store.rs. The lock is held for a whole method, so a
-- method is one step from state to state.
use nexad.Prelude.{
  ℕ, ◌^◌, not, Option, none, some, List, [], ◌∷◌, ◌++◌, Text, text, ◌==◌, byte_eq, list_eq,
  if◌then◌else◌, contains, retain, is_empty, get_elem?,
}
use nexad.HashMap
use nexad.HashMap.{HashMap}
use nexad.Str.{splitn, rsplit_once, trim_end_matches}
use nexad.Str.Decimal.{parse_uint}
use nexad.Dns.Address.{IpAddr, ip_eq}

pub record DnsRecordStore : Type 0 where
  pub entries : HashMap Text (HashMap Text (List IpAddr))

abbrev pub new : DnsRecordStore
new = record { entries = [] }

-- `unwrap_or_default` and `or_default` at a list or a map
abbrev pub or_default {ℓ} : {A : Type ℓ} → Option (List A) → List A
or_default none = []
or_default (some xs) = xs

unfoldable pub register : DnsRecordStore → Text → Text → IpAddr → DnsRecordStore
register s project deployment ip =
    let project_map = or_default (HashMap.get s.entries project) in
    let ips = or_default (HashMap.get project_map deployment) in
    let ips' = if contains ip ips then ips else ips ++ ip ∷ [] in
    record {
      entries = HashMap.insert s.entries project (HashMap.insert project_map deployment ips');
    }

-- the inner `if let`, on the map of one project
unfoldable pub retain_other :
    HashMap Text (List IpAddr) → Text → IpAddr → HashMap Text (List IpAddr)
retain_other project_map deployment ip = elim (HashMap.get project_map deployment) [
  | none ↦ project_map
  | some ips ↦
      let ips' = retain (λ existing. not (existing == ip)) ips in
      if is_empty ips'
      then HashMap.remove project_map deployment
      else HashMap.insert project_map deployment ips'
]

-- the project's map is written in place, or dropped if nothing is left in it
unfoldable pub put_project :
    HashMap Text (HashMap Text (List IpAddr))
    → Text
    → HashMap Text (List IpAddr)
    → HashMap Text (HashMap Text (List IpAddr))
put_project entries project project_map =
    if is_empty project_map
    then HashMap.remove entries project
    else HashMap.insert entries project project_map

unfoldable pub deregister : DnsRecordStore → Text → Text → IpAddr → DnsRecordStore
deregister s project deployment ip = record {
  entries = elim (HashMap.get s.entries project) [
    | none ↦ s.entries
    | some project_map ↦ put_project s.entries project (retain_other project_map deployment ip)
  ];
}

abbrev pub and_then {ℓ κ} : {A : Type ℓ} {B : Type κ} → Option A → (A → Option B) → Option B
and_then none f = none
and_then (some a) f = f a

unfoldable pub lookup : DnsRecordStore → Text → Text → List IpAddr
lookup s project deployment =
    or_default (and_then (HashMap.get s.entries project) (λ m. HashMap.get m deployment))

unfoldable pub lookup_replica : DnsRecordStore → Text → Text → ℕ → Option IpAddr
lookup_replica s project deployment index =
    and_then (and_then (HashMap.get s.entries project) (λ m. HashMap.get m deployment))
      (λ ips. get_elem? ips index)

-- the values of `usize` lie below this
abbrev pub usize_limit : ℕ
usize_limit = 2 ^ 64

-- the first `if let`: a host `<deployment>-<index>` that names a replica
unfoldable pub resolve_replica : DnsRecordStore → Text → Text → Option IpAddr
resolve_replica s project host =
    and_then (rsplit_once b'-' host)
      (λ p. and_then (parse_uint usize_limit p.1) (λ index. lookup_replica s project p.0 index))

unfoldable pub resolve_host : DnsRecordStore → Text → Text → Option (List IpAddr)
resolve_host s project host = elim (resolve_replica s project host) [
  | some ip ↦ some (ip ∷ [])
  | none ↦ let ips = lookup s project host in if is_empty ips then none else some ips
]

unfoldable pub resolve_parts : DnsRecordStore → List Text → Option (List IpAddr)
resolve_parts s (host ∷ project ∷ domain ∷ []) =
    if domain == text "internal" then resolve_host s project host else none
resolve_parts s _ = none

unfoldable pub resolve : DnsRecordStore → Text → Option (List IpAddr)
resolve s query_name = resolve_parts s (splitn 3 b'.' (trim_end_matches b'.' query_name))
