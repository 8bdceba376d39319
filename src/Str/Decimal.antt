-- ===== src/Str/Decimal.antt =====
-- Decimal numbers as `format!` prints them and `str::parse` reads them.
use nexad.Prelude.{
  ℕ, zero, suc, ◌+◌, ◌-◌, ◌*◌, ◌/◌, ◌%◌, ◌≤◌, ◌<◌, ◌≡◌, refl, ◌≢◌, inl, inr, Bool, ◌&&◌, Option,
  none, some, [], ◌∷◌, ◌++◌, arith, Text, ltb, leb, Bool-cases, if◌then◌else◌, All, All-append,
  nat_beq,
}

abbrev pub is_digit : ℕ → Bool
is_digit c = leb b'0' c && leb c b'9'

-- The number's own decimal digits. The fuel `n + 1` is more than their count.
show_fuel : ℕ → ℕ → Text
show_fuel zero n = []
show_fuel (suc f) n =
    let front = show_fuel f (n / 10) in
    if ltb n 10 then (b'0' + n) ∷ [] else front ++ (b'0' + n % 10) ∷ []

unfoldable pub show : ℕ → Text
unfolding show_fuel
show n = show_fuel (suc n) n

-- `checked_mul(10)` and `checked_add(digit)` fail together as the new value reaches the limit.
unfoldable pub parse_digits : ℕ → ℕ → Text → Option ℕ
parse_digits limit acc [] = some acc
parse_digits limit acc (c ∷ cs) =
    let v = acc * 10 + (c - b'0') in
    let rest = parse_digits limit v cs in if is_digit c && ltb v limit then rest else none

-- `parse::<uN>()` with `limit = 2^N`: an optional `+`, then at least one digit.
unfoldable pub parse_uint : ℕ → Text → Option ℕ
unfolding parse_digits
parse_uint limit [] = none
parse_uint limit (c ∷ []) = parse_digits limit 0 (c ∷ [])
parse_uint limit (c ∷ d ∷ cs) =
    if nat_beq c b'+' then parse_digits limit 0 (d ∷ cs) else parse_digits limit 0 (c ∷ d ∷ cs)

abbrev then_digits : ℕ → Option ℕ → Text → Option ℕ
then_digits limit none ys = none
then_digits limit (some a) ys = parse_digits limit a ys

parse_digits-append :
    (limit acc : ℕ) (xs ys : Text)
    → parse_digits limit acc (xs ++ ys) ≡ then_digits limit (parse_digits limit acc xs) ys
unfolding parse_digits
parse_digits-append limit acc [] ys = refl
parse_digits-append limit acc (c ∷ xs) ys =
    ground (arith, parse_digits-append limit (acc * 10 + (c - b'0')) xs ys)

last_digit : (limit n : ℕ) → n < limit → parse_digits limit (n / 10) ((b'0' + n % 10) ∷ []) ≡ some n
unfolding parse_digits
last_digit limit n h = ground arith

parse_digits-show_fuel :
    (limit f n : ℕ) → n < f → n < limit → parse_digits limit 0 (show_fuel f n) ≡ some n
unfolding show_fuel
parse_digits-show_fuel limit zero n h k = elim h [ ]
parse_digits-show_fuel limit (suc f) n h k = elim (Bool-cases (ltb n 10)) [
  | inl small ↦ rw small (unfold parse_digits in ground arith)
  | inr large ↦
      rw
        (
          large,
          parse_digits-append,
          parse_digits-show_fuel limit f (n / 10) (ground arith) (ground arith),
        )
        (last_digit limit n k)
]

abbrev pub IsDigit : ℕ → Type 0
IsDigit c = (b'0' ≤ c) × (c ≤ b'9')

show_fuel-IsDigit : (f n : ℕ) → n < f → All IsDigit (show_fuel f n)
unfolding show_fuel
show_fuel-IsDigit zero n h = elim h [ ]
show_fuel-IsDigit (suc f) n h = elim (Bool-cases (ltb n 10)) [
  | inl small ↦ rw small (ground arith)
  | inr large ↦
      rw large (All-append IsDigit _ _ (show_fuel-IsDigit f (n / 10) (ground arith)) (omega arith))
]

pub show-IsDigit : (n : ℕ) → All IsDigit (show n)
unfolding show
show-IsDigit n = show_fuel-IsDigit (suc n) n (omega arith)

append_ne_nil : (xs : Text) (y : ℕ) → xs ++ y ∷ [] ≢ []
append_ne_nil [] y = ground arith
append_ne_nil (x ∷ xs) y = ground arith

parse_uint-digits :
    (limit : ℕ) (s : Text) {n : ℕ}
    → All IsDigit s
    → s ≢ []
    → parse_digits limit 0 s ≡ some n
    → parse_uint limit s ≡ some n
unfolding parse_uint
parse_uint-digits limit [] d e h = absurd (e refl)
parse_uint-digits limit (c ∷ []) d e h = h
parse_uint-digits limit (c ∷ x ∷ cs) d e h = ground arith

show-ne-nil : (n : ℕ) → show n ≢ []
unfolding show
show-ne-nil n = ground (arith, append_ne_nil (show_fuel n (n / 10)) (b'0' + n % 10))

-- What is printed reads back, if it fits the type.
pub parse_uint-show : (limit n : ℕ) → n < limit → parse_uint limit (show n) ≡ some n
parse_uint-show limit n h =
    parse_uint-digits limit (show n) (show-IsDigit n) (show-ne-nil n)
      (unfold show in parse_digits-show_fuel limit (suc n) n (omega arith) h)
