-- ===== src/Network/Allocation.antt =====
-- A series of allocations: which subnets it hands out, and when it hands one out again.
use nexad.Prelude.{
  ℕ, zero, suc, ◌+◌, ◌%◌, ◌<◌, ◌≡◌, ◌≢◌, refl, sym, ◌∙◌, ap, Option, none, some, ◌∷◌, ◌++◌, arith,
  Text, text, ◌==◌, byte_eq, if◌then◌else◌,
}
use mathlib.Core.Option.{some-injective}
use nexad.Str.{cut}
use nexad.Str.Decimal.{parse_uint, parse_uint-show, show, show-IsDigit}
use nexad.Str.Laws.{cut-append, IsDigit-IsFree, IsFree}
use nexad.Network.Subnet.{SubnetAllocator, subnet_text, allocate}

-- the state after `n` calls, and the result of the call after those
unfoldable pub after : ℕ → SubnetAllocator → SubnetAllocator
after zero s = s
after (suc n) s = after n (allocate s).1

abbrev pub nth : ℕ → SubnetAllocator → Option Text
nth n s = (allocate (after n s)).0

-- the third label of a dotted text, as a byte
third_octet : Text → Option ℕ
third_octet s = elim ((cut b'.' s).1) [
  | none ↦ none
  | some r ↦ elim ((cut b'.' r).1) [ none ↦ none | some q ↦ parse_uint 256 (cut b'.' q).0 ]
]

free : (n : ℕ) → IsFree b'.' (show n)
free n = IsDigit-IsFree b'.' (show n) (omega arith) (show-IsDigit n)

third_octet-subnet_text : (a b c : ℕ) → c < 256 → third_octet (subnet_text a b c) ≡ some c
unfolding third_octet subnet_text
third_octet-subnet_text a b c h = ground (
  arith,
  cut-append b'.' (show a) (show b ++ b'.' ∷ (show c ++ b'.' ∷ text "0/24")) (free a),
  cut-append b'.' (show b) (show c ++ b'.' ∷ text "0/24") (free b),
  cut-append b'.' (show c) (text "0/24") (free c),
  parse_uint-show 256 c h,
)

pub subnet_text-injective :
    (a b c d : ℕ) → c < 256 → d < 256 → subnet_text a b c ≡ subnet_text a b d → c ≡ d
subnet_text-injective a b c d h k e =
    some-injective c d
      (sym (third_octet-subnet_text a b c h) ∙ ap third_octet e ∙ third_octet-subnet_text a b d k)

allocate-state :
    (s : SubnetAllocator)
    → (allocate s).1 ≡ record s { next_third_octet = (s.next_third_octet + 1) % 256 }
unfolding allocate
allocate-state s = ground arith

after_counter :
    (n : ℕ) (s : SubnetAllocator)
    → s.next_third_octet < 256
    → after n s ≡ record s { next_third_octet = (s.next_third_octet + n) % 256 }
unfolding after
after_counter zero s h =
    let e : (s.next_third_octet + 0) % 256 ≡ s.next_third_octet = omega arith in rw e refl
after_counter (suc n) s h =
    let third = (s.next_third_octet + 1) % 256 in
    let e : (third + n) % 256 ≡ (s.next_third_octet + suc n) % 256 = omega arith in
    ap (after n) (allocate-state s)
    ∙ after_counter n (record s { next_third_octet = third }) (omega arith)
    ∙ ap (λ t. record s { next_third_octet = t }) e

-- the octet of the n-th call
abbrev octet_of : ℕ → SubnetAllocator → ℕ
octet_of n s = (s.next_third_octet + n) % 256

nth_lem :
    (n : ℕ) (s : SubnetAllocator)
    → s.next_third_octet < 256
    → nth n s ≡ (
        if octet_of n s == 0
        then none
        else some (subnet_text s.base_first s.base_second (octet_of n s)))
unfolding allocate
nth_lem n s h = rw (after_counter n s h, nth) (ground arith)

-- The first 255 calls on a fresh allocator all return a subnet, and no two of them the same.
pub nth_distinct :
    (s : SubnetAllocator) (i j : ℕ)
    → s.next_third_octet ≡ 1
    → i < j
    → j < 255
    → (x y : Text) × (nth i s ≡ some x) × (nth j s ≡ some y) × (x ≢ y)
nth_distinct s i j h k l = (
  subnet_text s.base_first s.base_second (octet_of i s),
  subnet_text s.base_first s.base_second (octet_of j s),
  ground (arith, nth_lem i s (omega arith)),
  ground (arith, nth_lem j s (omega arith)),
  λ e. omega (
    arith,
    subnet_text-injective s.base_first s.base_second (octet_of i s) (octet_of j s) (omega arith)
        (omega arith) e,
  ),
)

-- The 256th call on a fresh allocator reports that no subnet is left, and the calls after it hand
-- out the subnets of the first calls once more.
pub nth_exhausted :
    (s : SubnetAllocator) (n : ℕ)
    → s.next_third_octet ≡ 1
    → (nth 255 s ≡ none) × (nth (n + 256) s ≡ nth n s)
nth_exhausted s n h = (
  ground (arith, nth_lem 255 s (omega arith)),
  ground (arith, nth_lem (n + 256) s (omega arith), nth_lem n s (omega arith)),
)
