-- ===== src/Dns/History.antt =====
-- Any run of registrations and removals, against the history of one deployment.
use nexad.Prelude.{
  ◌≡◌, refl, ap, ◌∙◌, ◌&&◌, List, [], ◌∷◌, arith, Text, ◌==◌, byte_eq, list_eq, if◌then◌else◌,
  list_beq_iff,
}
use nexad.Dns.Address.{IpAddr, ip_eq}
use nexad.Dns.Records.{DnsRecordStore, register, deregister, lookup}
use nexad.Dns.View.{with_ip, without_ip, lookup-register, lookup-deregister}

pub data Op : Type 0 where
  add remove : Text → Text → IpAddr → Op

unfoldable pub apply : Op → DnsRecordStore → DnsRecordStore
apply (add p d ip) s = register s p d ip
apply (remove p d ip) s = deregister s p d ip

unfoldable pub run : List Op → DnsRecordStore → DnsRecordStore
unfolding apply
run [] s = s
run (op ∷ ops) s = run ops (apply op s)

-- The history of one deployment: only the operations on it count.
abbrev entry : Op → Text → Text → List IpAddr → List IpAddr
entry (add p d ip) q e ips = if p == q && d == e then with_ip ip ips else ips
entry (remove p d ip) q e ips = if p == q && d == e then without_ip ip ips else ips

unfoldable pub history : List Op → Text → Text → List IpAddr → List IpAddr
history [] q e ips = ips
history (op ∷ ops) q e ips = history ops q e (entry op q e ips)

lookup-apply :
    (op : Op) (s : DnsRecordStore) (q e : Text)
    → lookup (apply op s) q e ≡ entry op q e (lookup s q e)
unfolding apply
lookup-apply (add p d ip) s q e =
    ground (arith, lookup-register s p d ip q e, list_beq_iff p q, list_beq_iff d e)
lookup-apply (remove p d ip) s q e =
    ground (arith, lookup-deregister s p d ip q e, list_beq_iff p q, list_beq_iff d e)

-- After any run, from any store, a deployment's addresses are its earlier ones carried through the
-- registrations and removals of that deployment alone, in their order.
pub lookup-run :
    (ops : List Op) (s : DnsRecordStore) (q e : Text)
    → lookup (run ops s) q e ≡ history ops q e (lookup s q e)
unfolding run history
lookup-run [] s q e = refl
lookup-run (op ∷ ops) s q e =
    lookup-run ops (apply op s) q e ∙ ap (history ops q e) (lookup-apply op s q e)
