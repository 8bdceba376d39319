-- ===== src/Dns/Server.antt =====
-- `HickoryDnsProvider` of src/adapters/dns/hickory.rs, and what its two servers make of the messages
-- that come in.
use nexad.Prelude.{
  ℕ, ◌+◌, ◌%◌, ◌^◌, Option, none, some, List, [], ◌∷◌, ◌++◌, Text, text, ltb, if◌then◌else◌, length,
  take, drop,
}
use nexad.Result.{runtime, Result, ok, err, Outcome, failed, value}
use nexad.Dns.Address.{IpAddr}
use nexad.Dns.Records.{DnsRecordStore}
use nexad.Dns.Records
use nexad.Dns.Wire.{from_be16, be16, byte_at, handle_dns_query}

-- An address of a socket is its text.
pub record HickoryDnsProvider : Type 0 where
  pub store : DnsRecordStore
  pub listen_addr : Text
  pub upstream_dns : Text

abbrev pub new : Text → Text → HickoryDnsProvider
new listen_addr upstream_dns = record {
  store = Records.new;
  listen_addr = listen_addr;
  upstream_dns = upstream_dns;
}

unfoldable pub register :
    Text → Text → IpAddr → HickoryDnsProvider → Result (Unit {0}) × HickoryDnsProvider
register project deployment ip p =
    (ok tt, record p { store = Records.register p.store project deployment ip })

unfoldable pub deregister :
    Text → Text → IpAddr → HickoryDnsProvider → Result (Unit {0}) × HickoryDnsProvider
deregister project deployment ip p =
    (ok tt, record p { store = Records.deregister p.store project deployment ip })

unfoldable pub lookup : Text → Text → HickoryDnsProvider → Result (List IpAddr)
lookup project deployment p = ok (Records.lookup p.store project deployment)

-- what binding the two sockets reports, if it fails; the tasks are started behind it
unfoldable pub start : (udp tcp : Option Text) → HickoryDnsProvider → Result (Unit {0})
start (some e) tcp p =
    err (runtime (text "failed to bind DNS UDP on " ++ (p.listen_addr ++ (text ": " ++ e))))
start none (some e) p =
    err (runtime (text "failed to bind DNS TCP on " ++ (p.listen_addr ++ (text ": " ++ e))))
start none none p = ok tt

module _ (lower : Text → Text) (upstream : List ℕ → Option (List ℕ)) where
  abbrev pub reply_to : Text → Option (List ℕ) → List (Text × List ℕ) → List (Text × List ℕ)
  reply_to src none later = later
  reply_to src (some response) later = (src, response) ∷ later

  -- The replies that are sent, for what is received: a datagram, of which the buffer takes 4096 bytes,
  -- and its sender, or an error; each with the store as it is by then.
  unfoldable pub serve_udp : List (DnsRecordStore × Outcome (List ℕ × Text)) → List (Text × List ℕ)
  serve_udp [] = []
  serve_udp ((store, failed e) ∷ later) = serve_udp later
  serve_udp ((store, value (datagram, src)) ∷ later) =
      reply_to src (handle_dns_query lower upstream (take 4096 datagram) store) (serve_udp later)

  -- what the two writes report, if they fail, and the bytes that are written
  abbrev pub written : Option (List ℕ) → (first second : Option Text) → Outcome (Unit {0}) × List ℕ
  written none first second = (value tt, [])
  written (some response) (some e) second = (failed e, [])
  written (some response) none (some e) = (failed e, be16 (length response % 2 ^ 16))
  written (some response) none none = (value tt, be16 (length response % 2 ^ 16) ++ response)

  -- `input` is what the client sends before it ends; `eof` is the error of a read that it cuts short.
  unfoldable pub handle_tcp_dns_client :
      (eof : Text) (first second : Option Text)
      → DnsRecordStore
      → List ℕ
      → Outcome (Unit {0}) × List ℕ
  handle_tcp_dns_client eof first second store input =
      let msg_len = from_be16 (byte_at input 0) (byte_at input 1) in
      let msg_buf = take msg_len (drop 2 input) in
      if ltb (length input) 2
      then (failed eof, [])
      else if ltb (length input) (2 + msg_len)
      then (failed eof, [])
      else written (handle_dns_query lower upstream msg_buf store) first second
