-- ===== src/Dns/Noop.antt =====
-- `NoopDnsProvider` of src/adapters/dns/noop.rs.
use nexad.Prelude.{List, [], Text}
use nexad.Result.{Result, ok}
use nexad.Dns.Address.{IpAddr}

unfoldable pub register : Text → Text → IpAddr → Result (Unit {0})
register project deployment ip = ok tt

unfoldable pub deregister : Text → Text → IpAddr → Result (Unit {0})
deregister project deployment ip = ok tt

unfoldable pub lookup : Text → Text → Result (List IpAddr)
lookup project deployment = ok []
