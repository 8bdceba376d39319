-- ===== src/Dns/Wire.antt =====
-- The messages of src/adapters/dns/hickory.rs: reading a query and writing the answer. The sockets,
-- and with them the upstream server, are outside: what comes back from it is a parameter.
pub mod Codec
pub mod Question
pub mod LabelLoop
pub mod Answer
pub mod Query
use Prim.Native.Nat.{bit_or}
use nexad.Prelude.{
  ℕ, zero, suc, ◌+◌, ◌-◌, ◌*◌, ◌/◌, ◌%◌, Bool, true, false, ◌&&◌, ◌||◌, Option, none, some, List,
  [], ◌∷◌, ◌++◌, Text, text, ltb, leb, if◌then◌else◌, ◌==◌, byte_eq, is_empty, length, get_elem?,
  take, drop, retain, not, ◌^◌,
}
use nexad.Str.{join, ends_with}
use nexad.Str.Utf8.{valid_utf8}
use nexad.Dns.Address.{IpAddr, v4, v6}
use nexad.Dns.Records.{DnsRecordStore, or_default, resolve}

-- `u16::from_be_bytes` and `u16::to_be_bytes`
abbrev pub from_be16 : ℕ → ℕ → ℕ
from_be16 a b = a * 256 + b

abbrev pub be16 : ℕ → List ℕ
be16 n = (n / 256) ∷ (n % 256) ∷ []

-- the big-endian octets of a number of `k` bytes
unfoldable pub be_bytes : ℕ → ℕ → List ℕ
be_bytes zero n = []
be_bytes (suc k) n = be_bytes k (n / 256) ++ (n % 256) ∷ []

-- `data[i]`, read where the code has checked that it is there
abbrev pub byte_at : List ℕ → ℕ → ℕ
byte_at [] i = 0
byte_at (b ∷ bs) zero = b
byte_at (b ∷ bs) (suc i) = byte_at bs i

-- `data[from..to]`
abbrev pub slice : List ℕ → ℕ → ℕ → List ℕ
slice bytes from to = take (to - from) (drop from bytes)

abbrev pub with_label : Text → Option (List Text × ℕ) → Option (List Text × ℕ)
with_label label none = none
with_label label (some (labels, end)) = some (label ∷ labels, end)

-- The loop over the labels: each round moves the offset on, so as much fuel as there are bytes is
-- enough. The result holds the labels and the offset behind the closing zero.
unfoldable pub parse_labels : ℕ → List ℕ → ℕ → Option (List Text × ℕ)
parse_labels zero bytes offset = none
parse_labels (suc fuel) bytes offset = elim (get_elem? bytes offset) [
  | none ↦ none
  | some label_len ↦
      let next = offset + 1 + label_len in
      let label = slice bytes (offset + 1) next in
      let rest = with_label label (parse_labels fuel bytes next) in
      if label_len == 0
      then some ([], offset + 1)
      else if ltb (length bytes) next
      then none
      else if valid_utf8 label
      then rest
      else none
]

abbrev question_end : List ℕ → Option (List Text × ℕ) → Option (Text × ℕ × ℕ)
question_end bytes none = none
question_end bytes (some (labels, offset)) =
    if ltb (length bytes) (offset + 4)
    then none
    else some (
      join (text ".") labels,
      from_be16 (byte_at bytes offset) (byte_at bytes (offset + 1)),
      offset + 4,
    )

unfoldable pub parse_question : List ℕ → ℕ → Option (Text × ℕ × ℕ)
parse_question bytes offset = question_end bytes (parse_labels (length bytes + 1) bytes offset)

-- the `matches!` on the query's type and the address
abbrev pub matches : ℕ → IpAddr → Bool
matches qtype (v4 a b c d) = qtype == 1 || qtype == 255
matches qtype (v6 n) = qtype == 28 || qtype == 255

-- one resource record: a pointer to the question's name, type, class, time to live, address
abbrev pub answer : IpAddr → List ℕ
answer (v4 a b c d) =
    0xC0 ∷ 0x0C ∷ (be16 1 ++ (be16 1 ++ (0 ∷ 0 ∷ 0 ∷ 60 ∷ (be16 4 ++ (a ∷ b ∷ c ∷ d ∷ [])))))
answer (v6 n) = 0xC0 ∷ 0x0C ∷ (be16 28 ++ (be16 1 ++ (0 ∷ 0 ∷ 0 ∷ 60 ∷ (be16 16 ++ be_bytes 16 n))))

abbrev pub answers : List IpAddr → List ℕ
answers [] = []
answers (ip ∷ ips) = answer ip ++ answers ips

unfoldable pub build_dns_response : ℕ → List ℕ → ℕ → ℕ → Option (List IpAddr) → List ℕ
build_dns_response id original question_end qtype found =
    let ips = or_default found in
    let matching_ips = retain (matches qtype) ips in
    let an_count = length matching_ips % 65536 in
    let rcode : ℕ = if is_empty matching_ips && is_empty ips then 3 else 0 in
    let flags = bit_or (bit_or (bit_or 0x8000 0x0400) 0x0080) rcode in
    be16 id
    ++ (be16 flags
        ++ (be16 1
            ++ (be16 an_count
                ++ (be16 0
                    ++ (be16 0 ++ (slice original 12 question_end ++ answers matching_ips))))))

-- `lower` is `str::to_lowercase`, over Unicode's tables; `upstream` is the other server's answer.
module _ (lower : Text → Text) (upstream : List ℕ → Option (List ℕ)) where
  unfoldable pub answer_question :
      List ℕ → DnsRecordStore → ℕ → Option (Text × ℕ × ℕ) → Option (List ℕ)
  answer_question bytes store id none = none
  answer_question bytes store id (some (query_name, qtype, question_end)) =
      let name_lower = lower query_name in
      if ends_with name_lower (text ".internal") || ends_with name_lower (text ".internal.")
      then some (build_dns_response id bytes question_end qtype (resolve store name_lower))
      else upstream bytes

  unfoldable pub handle_dns_query : List ℕ → DnsRecordStore → Option (List ℕ)
  handle_dns_query bytes store =
      let id = from_be16 (byte_at bytes 0) (byte_at bytes 1) in
      let flags = from_be16 (byte_at bytes 2) (byte_at bytes 3) in
      let qd_count = from_be16 (byte_at bytes 4) (byte_at bytes 5) in
      let opcode = flags / 2 ^ 11 % 16 in
      if ltb (length bytes) 12
      then none
      else if not (opcode == 0) || qd_count == 0
      then none
      else answer_question bytes store id (parse_question bytes 12)
