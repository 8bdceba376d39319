-- ===== src/Dns/Address.antt =====
-- `std::net::IpAddr`: an IPv4 address by its four octets, an IPv6 address by its 128-bit number.
use nexad.Prelude.{ℕ, ◌≡◌, ◌↔◌, Bool, true, false, ◌&&◌, arith, Eq, ◌==◌, byte_eq}

pub data IpAddr : Type 0 where
  v4 : ℕ → ℕ → ℕ → ℕ → IpAddr
  v6 : ℕ → IpAddr

abbrev pub ip_beq : IpAddr → IpAddr → Bool
ip_beq (v4 a b c d) (v4 e f g h) = a == e && b == f && c == g && d == h
ip_beq (v6 n) (v6 m) = n == m
ip_beq (v4 a b c d) (v6 m) = false
ip_beq (v6 n) (v4 e f g h) = false

pub ip_beq_iff : (i j : IpAddr) → (ip_beq i j ≡ true) ↔ (i ≡ j)
ip_beq_iff (v4 a b c d) (v4 e f g h) = ground arith
ip_beq_iff (v6 n) (v6 m) = ground arith
ip_beq_iff (v4 a b c d) (v6 m) = ground arith
ip_beq_iff (v6 n) (v4 e f g h) = ground arith

instance abbrev pub ip_eq : Eq IpAddr
ip_eq = record { test = ip_beq; test_iff = ip_beq_iff }
