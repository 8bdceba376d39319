-- ===== src/Str/Ipv4.antt =====
-- `str::parse::<Ipv4Addr>`: four decimal octets of at most three digits, none with a leading zero.
use nexad.Prelude.{
  ℕ, Bool, false, ◌&&◌, Option, none, some, List, [], ◌∷◌, Text, ◌==◌, byte_eq, not, leb, length,
  if◌then◌else◌,
}
use nexad.Str.{split}
use nexad.Str.Decimal.{parse_digits}

has_leading_zero : Text → Bool
has_leading_zero (c ∷ d ∷ s) = c == b'0'
has_leading_zero _ = false

unfoldable pub parse_octet : Text → Option ℕ
unfolding has_leading_zero parse_digits
parse_octet s =
    if leb 1 (length s) && leb (length s) 3 && not (has_leading_zero s)
    then parse_digits 256 0 s
    else none

abbrev octets : Option ℕ → Option ℕ → Option ℕ → Option ℕ → Option (ℕ × ℕ × ℕ × ℕ)
octets (some a) (some b) (some c) (some d) = some (a, b, c, d)
octets _ _ _ _ = none

abbrev parse_parts : List Text → Option (ℕ × ℕ × ℕ × ℕ)
parse_parts (a ∷ b ∷ c ∷ d ∷ []) =
    octets (parse_octet a) (parse_octet b) (parse_octet c) (parse_octet d)
parse_parts _ = none

unfoldable pub parse_ipv4 : Text → Option (ℕ × ℕ × ℕ × ℕ)
unfolding split parse_octet
parse_ipv4 s = parse_parts (split b'.' s)
