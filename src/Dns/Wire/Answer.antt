-- ===== src/Dns/Wire/Answer.antt =====
-- Writing the answer: a resolver that reads the message finds the addresses in it.
use native.Mathlib.Nat.{pow-suc}
use Prim.Native.Nat.{bit_or}
use nexad.Prelude.{
  Bool-cases, inl, inr, ℕ, zero, suc, ◌+◌, ◌-◌, ◌*◌, ◌/◌, ◌%◌, ◌^◌, ◌≤◌, ◌<◌, ◌≡◌, refl, Bool, ◌&&◌,
  Option, none, some, List, [], ◌∷◌, ◌++◌, arith, length, take, drop, retain, is_empty,
  length-append, length-take, length-drop, take-append_of_length, drop-append_of_length, All,
  byte_eq, ◌==◌, if◌then◌else◌,
}
use nexad.Dns.Address.{IpAddr, v4, v6}
use nexad.Dns.Records.{or_default}
use nexad.Dns.Wire.{from_be16, be_bytes, slice, matches, answer, answers, build_dns_response}

pub of_be : ℕ → List ℕ → ℕ
of_be acc [] = acc
of_be acc (b ∷ bs) = of_be (acc * 256 + b) bs

of_be-append : (acc b : ℕ) (bs : List ℕ) → of_be acc (bs ++ b ∷ []) ≡ of_be acc bs * 256 + b
unfolding of_be
of_be-append acc b [] = refl
of_be-append acc b (x ∷ bs) = of_be-append (acc * 256 + x) b bs

of_be-be_bytes : (k n : ℕ) → n < 256 ^ k → of_be 0 (be_bytes k n) ≡ n
unfolding of_be be_bytes
of_be-be_bytes zero n h = omega arith
of_be-be_bytes (suc k) n h =
    let room : n < 256 ^ k * 256 = rw pow-suc at h in
    rw (of_be-append, of_be-be_bytes k (n / 256) (omega arith)) (omega arith)

length-be_bytes : (k n : ℕ) → length (be_bytes k n) ≡ k
unfolding be_bytes
length-be_bytes zero n = refl
length-be_bytes (suc k) n =
    omega (arith, length-append (be_bytes k (n / 256)) (n % 256 ∷ []), length-be_bytes k (n / 256))

abbrev read_v4 : List ℕ → Option (IpAddr × List ℕ)
read_v4 (a ∷ b ∷ c ∷ d ∷ rest) = some (v4 a b c d, rest)
read_v4 _ = none

abbrev read_v6 : List ℕ → Option (IpAddr × List ℕ)
read_v6 bytes = some (v6 (of_be 0 (take 16 bytes)), drop 16 bytes)

-- a resolver's reading of one record of the answer section
unfoldable pub read_answer : List ℕ → Option (IpAddr × List ℕ)
read_answer (p ∷ q ∷ t ∷ u ∷ c ∷ e ∷ w ∷ x ∷ y ∷ z ∷ l ∷ m ∷ rest) =
    if from_be16 t u == 1 && from_be16 l m == 4
    then read_v4 rest
    else if from_be16 t u == 28 && from_be16 l m == 16
    then read_v6 rest
    else none
read_answer _ = none

abbrev then_read : Option (IpAddr × List ℕ) → (List ℕ → Option (List IpAddr)) → Option (List IpAddr)
then_read none f = none
then_read (some (ip, rest)) f = elim (f rest) [ none ↦ none | some ips ↦ some (ip ∷ ips) ]

unfoldable pub read_answers : ℕ → List ℕ → Option (List IpAddr)
unfolding read_answer
read_answers zero bytes = some []
read_answers (suc n) bytes = then_read (read_answer bytes) (read_answers n)

abbrev pub IsAddress : IpAddr → Type 0
IsAddress (v4 a b c d) = Unit
IsAddress (v6 n) = n < 256 ^ 16

read_v6_lem :
    (n : ℕ) (rest : List ℕ) → n < 256 ^ 16 → read_v6 (be_bytes 16 n ++ rest) ≡ some (v6 n, rest)
read_v6_lem n rest h =
    let bytes = be_bytes 16 n in
    rw
      (
        take-append_of_length 16 bytes rest (length-be_bytes 16 n),
        drop-append_of_length 16 bytes rest (length-be_bytes 16 n),
        of_be-be_bytes 16 n h,
      )
      refl

read_answer-answer :
    (ip : IpAddr) (rest : List ℕ) → IsAddress ip → read_answer (answer ip ++ rest) ≡ some (ip, rest)
unfolding read_answer
read_answer-answer (v4 a b c d) rest h = refl
read_answer-answer (v6 n) rest h = read_v6_lem n rest h

read_answers-answers :
    (ips : List IpAddr) → All IsAddress ips → read_answers (length ips) (answers ips) ≡ some ips
unfolding read_answers
read_answers-answers [] h = refl
read_answers-answers (ip ∷ ips) h =
    rw (read_answer-answer ip (answers ips) h.0) (rw (read_answers-answers ips h.1) refl)

-- what a resolver reads of a response with a question of `question_len` bytes
pub record Response : Type 0 where
  pub id : ℕ
  pub flags : ℕ
  pub questions : ℕ
  pub found : List IpAddr

abbrev response : ℕ → ℕ → ℕ → Option (List IpAddr) → Option Response
response id flags questions none = none
response id flags questions (some found) =
    some (record { id = id; flags = flags; questions = questions; found = found })

unfoldable pub read_response : ℕ → List ℕ → Option Response
unfolding read_answers
read_response question_len (i ∷ j ∷ f ∷ g ∷ q ∷ r ∷ a ∷ b ∷ n ∷ m ∷ o ∷ p ∷ body) =
    response (from_be16 i j) (from_be16 f g) (from_be16 q r)
      (read_answers (from_be16 a b) (drop question_len body))
read_response question_len _ = none

-- the response code of the flags: 3 is "no such name"
abbrev pub rcode : Response → ℕ
rcode r = r.flags % 16

length-retain : (p : IpAddr → Bool) (ips : List IpAddr) → length (retain p ips) ≤ length ips
length-retain p [] = omega arith
length-retain p (ip ∷ ips) = ground (arith, length-retain p ips)

All-retain :
    (p : IpAddr → Bool) (ips : List IpAddr) → All IsAddress ips → All IsAddress (retain p ips)
All-retain p [] h = tt
All-retain p (ip ∷ ips) h = ground (arith, All-retain p ips)

-- the flags with their response code, before they are split into two bytes
abbrev flags_of : Bool → ℕ
flags_of none_left = if none_left then 0x8483 else 0x8480

flags_lem :
    (qtype : ℕ) (ips : List IpAddr)
    → bit_or 0x8480 (if is_empty (retain (matches qtype) ips) && is_empty ips then 3 else 0)
      ≡ flags_of (is_empty ips)
flags_lem qtype [] = refl
flags_lem qtype (ip ∷ ips) = elim (Bool-cases (is_empty (retain (matches qtype) (ip ∷ ips)))) [
  | inl e ↦ rw e refl
  | inr e ↦ rw e refl
]

length-slice :
    (original : List ℕ) (end : ℕ)
    → end ≤ length original
    → length (slice original 12 end) ≡ end - 12
length-slice original end k =
    omega (arith, length-take (end - 12) (drop 12 original), length-drop 12 original)

answer_section :
    (original : List ℕ) (end : ℕ) (ips : List IpAddr)
    → end ≤ length original
    → All IsAddress ips
    → length ips < 65536
    → read_answers
        (from_be16 (length ips % 65536 / 256) (length ips % 65536 % 256))
        (drop (end - 12) (slice original 12 end ++ answers ips))
      ≡ some ips
answer_section original end ips k g l =
    let count : from_be16 (length ips % 65536 / 256) (length ips % 65536 % 256) ≡ length ips =
      omega arith in
    rw
      (
        count,
        drop-append_of_length (end - 12) (slice original 12 end) (answers ips)
            (length-slice original end k),
      )
      (read_answers-answers ips g)

-- A resolver that reads the response finds the query's id, one question, exactly the addresses of
-- the query's type in their order, and the code 3 exactly when the name has no address at all.
pub read_response-build_dns_response :
    (id : ℕ) (original : List ℕ) (end qtype : ℕ) (found : Option (List IpAddr))
    → 12 ≤ end
    → end ≤ length original
    → All IsAddress (or_default found)
    → length (or_default found) < 65536
    → (r : Response) × (read_response (end - 12) (build_dns_response id original end qtype found)
        ≡ some r)
      × (r.id ≡ id)
      × (r.questions ≡ 1)
      × (r.found ≡ retain (matches qtype) (or_default found))
      × (rcode r ≡ (if is_empty (or_default found) then 3 else 0))
unfolding build_dns_response read_response
read_response-build_dns_response id original end qtype found h k g l =
    let ips = or_default found in
    let matching = retain (matches qtype) ips in
    let section =
      answer_section original end matching k (All-retain (matches qtype) ips g)
        (omega (arith, length-retain (matches qtype) ips)) in
    (
      record { id = id; flags = flags_of (is_empty ips); questions = 1; found = matching },
      rw (flags_lem qtype ips, section) (ground arith),
      refl,
      refl,
      refl,
      ground arith,
    )
