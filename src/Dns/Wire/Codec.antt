-- ===== src/Dns/Wire/Codec.antt =====
-- Positions in a message: what stands behind an offset decides what a reader finds there.
use native.Mathlib.Nat.{zero-add, suc-add}
use nexad.Prelude.{
  ℕ, zero, suc, ◌+◌, ◌-◌, ◌≤◌, ◌<◌, ◌≡◌, some, List, [], ◌∷◌, ◌++◌, arith, length, get_elem?, drop,
  length-drop, take-append,
}
use nexad.Dns.Wire.{byte_at, slice}

module _ {A : Type 0} where
  pub drop-add : (n k : ℕ) (xs : List A) → drop (n + k) xs ≡ drop k (drop n xs)
  drop-add zero k xs = rw zero-add
  drop-add (suc n) zero [] = rw suc-add
  drop-add (suc n) (suc k) [] = rw suc-add
  drop-add (suc n) k (x ∷ xs) = rw suc-add (drop-add n k xs)

  pub get_elem?-drop :
      (n : ℕ) (xs : List A) (y : A) (ys : List A) → drop n xs ≡ y ∷ ys → get_elem? xs n ≡ some y
  get_elem?-drop zero [] y ys h = ground arith
  get_elem?-drop zero (x ∷ xs) y ys h = ground arith
  get_elem?-drop (suc n) [] y ys h = ground arith
  get_elem?-drop (suc n) (x ∷ xs) y ys h = get_elem?-drop n xs y ys h

  -- what lies behind an offset is no longer than the whole
  pub le_length-drop :
      (n : ℕ) (xs : List A) (k : ℕ) → 0 < k → k ≤ length (drop n xs) → n + k ≤ length xs
  le_length-drop n xs k h m = omega (arith, length-drop n xs)

pub byte_at-drop :
    (n : ℕ) (xs : List ℕ) (y : ℕ) (ys : List ℕ) → drop n xs ≡ y ∷ ys → byte_at xs n ≡ y
byte_at-drop zero [] y ys h = ground arith
byte_at-drop zero (x ∷ xs) y ys h = ground arith
byte_at-drop (suc n) [] y ys h = ground arith
byte_at-drop (suc n) (x ∷ xs) y ys h = byte_at-drop n xs y ys h

pub slice-drop :
    (bytes : List ℕ) (from k to : ℕ) (xs ys : List ℕ)
    → drop from bytes ≡ xs ++ ys
    → length xs ≡ k
    → to ≡ from + k
    → slice bytes from to ≡ xs
slice-drop bytes from k to xs ys h l t =
    let e : to - from ≡ length xs = omega arith in rw (h, e) (take-append xs ys)
