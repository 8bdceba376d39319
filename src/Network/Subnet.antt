-- ===== src/Network/Subnet.antt =====
-- `SubnetAllocator` of src/adapters/network/subnet.rs.
use nexad.Prelude.{
  ℕ, ◌+◌, ◌%◌, Option, none, some, List, [], ◌∷◌, ◌++◌, Text, text, ◌==◌, byte_eq, if◌then◌else◌,
}
use nexad.Str.{split}
use nexad.Str.Decimal.{parse_uint, show}
use nexad.Str.Ipv4.{parse_ipv4}

-- The atomic counter is a byte; `fetch_add` is one step.
pub record SubnetAllocator : Type 0 where
  pub base_first : ℕ
  pub base_second : ℕ
  pub next_third_octet : ℕ

abbrev of_octets : Option (ℕ × ℕ × ℕ × ℕ) → Option SubnetAllocator
of_octets none = none
of_octets (some (a, b, c, d)) =
    some (record { base_first = a; base_second = b; next_third_octet = 1 })

abbrev of_prefix : Option ℕ → Text → Option SubnetAllocator
of_prefix none ip = none
of_prefix (some prefix_len) ip = if prefix_len == 16 then of_octets (parse_ipv4 ip) else none

unfoldable pub of_parts : List Text → Option SubnetAllocator
of_parts (ip ∷ prefix_len ∷ []) = of_prefix (parse_uint 256 prefix_len) ip
of_parts _ = none

unfoldable pub new : Text → Option SubnetAllocator
unfolding of_parts split parse_uint parse_ipv4
new cidr = of_parts (split b'/' cidr)

-- `"{}.{}.{}.0/24"`
unfoldable pub subnet_text : ℕ → ℕ → ℕ → Text
subnet_text a b c = show a ++ b'.' ∷ (show b ++ b'.' ∷ (show c ++ b'.' ∷ text "0/24"))

unfoldable pub allocate : SubnetAllocator → Option Text × SubnetAllocator
allocate s =
    let third = s.next_third_octet in
    let s' = record s { next_third_octet = (third + 1) % 256 } in
    if third == 0 then (none, s') else (some (subnet_text s.base_first s.base_second third), s')

unfoldable pub master_gateway : SubnetAllocator → ℕ × ℕ × ℕ × ℕ
master_gateway s = (s.base_first, s.base_second, 0, 1)

-- `"{}.{}.0.0/24"`
unfoldable pub master_subnet : SubnetAllocator → Text
master_subnet s = show s.base_first ++ b'.' ∷ (show s.base_second ++ text ".0.0/24")
