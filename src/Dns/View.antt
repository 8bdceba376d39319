-- ===== src/Dns/View.antt =====
-- What clients see of the record store: for each deployment its addresses, oldest first.
use nexad.Prelude.{
  ◌≡◌, not, ◌&&◌, some, List, [], ◌∷◌, ◌++◌, arith, Text, ◌==◌, byte_eq, list_eq, if◌then◌else◌,
  contains, retain, inl, inr, Bool-cases, Option-cases, list_beq_iff,
}
use nexad.HashMap
use nexad.HashMap.{HashMap}
use nexad.Dns.Address.{IpAddr, ip_eq}
use nexad.Dns.Records.{
  DnsRecordStore, or_default, register, retain_other, put_project, deregister, lookup,
}

-- the list of one deployment after a registration, and after a removal
abbrev pub with_ip : IpAddr → List IpAddr → List IpAddr
with_ip ip ips = if contains ip ips then ips else ips ++ ip ∷ []

abbrev pub without_ip : IpAddr → List IpAddr → List IpAddr
without_ip ip ips = retain (λ existing. not (existing == ip)) ips

pub lookup_lem :
    (s : DnsRecordStore) (q e : Text)
    → lookup s q e ≡ or_default (HashMap.get (or_default (HashMap.get s.entries q)) e)
unfolding lookup HashMap.get
lookup_lem s q e = ground arith

-- a map of maps read at two keys after one write
get-insert_two :
    (m : HashMap Text (HashMap Text (List IpAddr))) (p d q e : Text) (ips : List IpAddr)
    → or_default (
        HashMap.get
          (or_default (
            HashMap.get
              (HashMap.insert m p (HashMap.insert (or_default (HashMap.get m p)) d ips))
              q))
          e)
      ≡ (if p == q && d == e
          then ips
          else or_default (HashMap.get (or_default (HashMap.get m q)) e))
get-insert_two m p d q e ips = rw HashMap.get-insert (elim (Bool-cases (p == q)) [
  | inl same ↦ rw (same, HashMap.get-insert) (rw ((list_beq_iff p q).0 same) (ground arith))
  | inr other ↦ rw other
])

-- Registering an address changes the list of that deployment alone: the address is appended
-- unless it is there. Every other deployment of every project reads as before.
pub lookup-register :
    (s : DnsRecordStore) (p d : Text) (ip : IpAddr) (q e : Text)
    → lookup (register s p d ip) q e
      ≡ (if p == q && d == e then with_ip ip (lookup s p d) else lookup s q e)
unfolding register
lookup-register s p d ip q e = simp (lookup_lem, get-insert_two)

module _ (pm : HashMap Text (List IpAddr)) (d : Text) (ip : IpAddr) where
  -- one project's map after a removal: an emptied list reads as a missing one
  get-retain_other :
      (e : Text)
      → or_default (HashMap.get (retain_other pm d ip) e) ≡ (
          if d == e
          then without_ip ip (or_default (HashMap.get pm d))
          else or_default (HashMap.get pm e))
  unfolding retain_other
  get-retain_other e = ground (
    arith,
    list_beq_iff d e,
    HashMap.get-remove pm d e,
    HashMap.get-insert pm d e (without_ip ip (or_default (HashMap.get pm d))),
  )

get-put_project :
    (m : HashMap Text (HashMap Text (List IpAddr))) (p : Text) (pm : HashMap Text (List IpAddr))
    (q e : Text)
    → or_default (HashMap.get (or_default (HashMap.get (put_project m p pm) q)) e) ≡ (
        if p == q
        then or_default (HashMap.get pm e)
        else or_default (HashMap.get (or_default (HashMap.get m q)) e))
unfolding put_project HashMap.get
get-put_project m p pm q e =
    ground (arith, HashMap.is_empty-get pm e, HashMap.get-remove m p q, HashMap.get-insert m p q pm)

pub entries-deregister :
    (s : DnsRecordStore) (p d : Text) (ip : IpAddr) (pm : HashMap Text (List IpAddr))
    → HashMap.get s.entries p ≡ some pm
    → (deregister s p d ip).entries ≡ put_project s.entries p (retain_other pm d ip)
unfolding deregister
entries-deregister s p d ip pm h = rw (h, deregister)

-- Deregistering an address removes it from the list of that deployment alone, whether or not the
-- list or the project's map becomes empty. Every other deployment reads as before.
pub lookup-deregister :
    (s : DnsRecordStore) (p d : Text) (ip : IpAddr) (q e : Text)
    → lookup (deregister s p d ip) q e
      ≡ (if p == q && d == e then without_ip ip (lookup s p d) else lookup s q e)
unfolding deregister
lookup-deregister s p d ip q e = simp (lookup_lem) (elim (Option-cases (HashMap.get s.entries p)) [
  | inl gone ↦ rw gone (unfold HashMap.get in ground (arith, list_beq_iff p q))
  | inr (pm, here) ↦
      rw (entries-deregister s p d ip pm here, get-put_project, get-retain_other)
        (ground (arith, list_beq_iff p q))
])
