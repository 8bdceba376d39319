-- ===== src/Dns/Framing.antt =====
-- A query over TCP gets the answer that it gets over UDP.
use nexad.Prelude.{
  ℕ, zero, suc, ◌/◌, ◌%◌, ◌^◌, ◌≤◌, ◌<◌, ◌≡◌, refl, ap, Option, none, some, List, [], ◌∷◌, ◌++◌,
  arith, Text, ltb, if◌then◌else◌, length, take, length-append, take-append,
}
use nexad.Result.{value}
use nexad.Dns.Records.{DnsRecordStore}
use nexad.Dns.Wire.{from_be16, be16, handle_dns_query}
use nexad.Dns.Server.{serve_udp, written, handle_tcp_dns_client}

-- a message with its length in front, as a client sends it
abbrev pub framed : List ℕ → List ℕ
framed message = be16 (length message) ++ message

-- what a client takes for the message of a stream: as many bytes as the first two say, if they are there
abbrev pub read_framed : List ℕ → Option (List ℕ)
read_framed [] = none
read_framed (a ∷ []) = none
read_framed (a ∷ b ∷ rest) =
    if ltb (length rest) (from_be16 a b) then none else some (take (from_be16 a b) rest)

from_be16-be16 : (n : ℕ) → from_be16 (n / 256) (n % 256) ≡ n
from_be16-be16 n = omega arith

take_all : (n : ℕ) (xs : List ℕ) → length xs ≤ n → take n xs ≡ xs
take_all zero [] h = refl
take_all zero (x ∷ xs) h = ground (arith, h)
take_all (suc n) [] h = refl
take_all (suc n) (x ∷ xs) h = ap (λ ys. x ∷ ys) (take_all n xs (omega (arith, h)))

read_framed-framed :
    (r : List ℕ) → length r < 2 ^ 16 → read_framed (be16 (length r % 2 ^ 16) ++ r) ≡ some r
read_framed-framed r h =
    let small : length r % 2 ^ 16 ≡ length r = omega (arith, h) in
    rw (small, from_be16-be16 (length r)) (ground (arith, take_all (length r) r (omega arith)))

module _ (lower : Text → Text) (upstream : List ℕ → Option (List ℕ)) where
  received :
      (eof : Text) (store : DnsRecordStore) (q rest : List ℕ)
      → handle_tcp_dns_client lower upstream eof none none store (framed q ++ rest)
        ≡ written lower upstream (handle_dns_query lower upstream q store) none none
  unfolding handle_tcp_dns_client
  received eof store q rest =
      rw (from_be16-be16 (length q), take-append q rest, handle_tcp_dns_client)
        (ground (arith, length-append q rest))

  -- A query of at most 4096 bytes that is answered with fewer than 65536 bytes gets over TCP, where the
  -- writes succeed, a stream in which the client reads the message that it would get over
  -- UDP, whatever it sends behind the query.
  pub handle_tcp_dns_client-serve_udp :
      (eof src : Text) (store : DnsRecordStore) (q rest r : List ℕ)
      → length q ≤ 4096
      → handle_dns_query lower upstream q store ≡ some r
      → length r < 2 ^ 16
      → let done = handle_tcp_dns_client lower upstream eof none none store (framed q ++ rest) in
        (done.0 ≡ value tt)
        × (read_framed done.1 ≡ some r)
        × (serve_udp lower upstream ((store, value (q, src)) ∷ []) ≡ (src, r) ∷ [])
  unfolding serve_udp
  handle_tcp_dns_client-serve_udp eof src store q rest r a h b =
      rw (received eof store q rest, take_all 4096 q a)
        (rw h refl, rw h (read_framed-framed r b), rw h refl)
