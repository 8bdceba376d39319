-- ===== src/Sqlite/Sorted.antt =====
-- What a sort and a reading of rows leave of a list's searches.
use nexad.Prelude.{
  ◌≡◌, refl, ap, ◌∙◌, Bool, true, Option, none, some, List, [], ◌∷◌, map, arith, if◌then◌else◌,
  find, retain, insert_by, sort_by, All, Bool-cases, inl, inr,
}
use nexad.Result.{Result, ok, collect}

abbrev pub map_some {ℓ κ} : {A : Type ℓ} {B : Type κ} → (A → B) → Option A → Option B
map_some f none = none
map_some f (some a) = some (f a)

module _ {A : Type 0} where
  -- One element at most passes the test.
  abbrev pub IsSingle : (A → Bool) → List A → Type 0
  IsSingle p [] = Unit
  IsSingle p (x ∷ xs) = (p x ≡ true → find p xs ≡ none) × IsSingle p xs

  find-insert_by :
      (below : A → A → Bool) (p : A → Bool) (x : A) (ys : List A)
      → (p x ≡ true → find p ys ≡ none)
      → find p (insert_by below x ys) ≡ (if p x then some x else find p ys)
  find-insert_by below p x [] h = refl
  find-insert_by below p x (y ∷ ys) h = elim (Bool-cases (below x y)) [
    | inl e ↦ rw e refl
    | inr e ↦ elim (Bool-cases (p x)) [
      | inl k ↦ ground (arith, e, k, h k, find-insert_by below p x ys (λ u. ground (arith, h k)))
      | inr k ↦ ground (arith, e, k, find-insert_by below p x ys (λ u. ground (arith, k, u)))
    ]
  ]

  -- A sort changes no search that at most one element passes.
  pub find-sort_by :
      (below : A → A → Bool) (p : A → Bool) (xs : List A)
      → IsSingle p xs
      → find p (sort_by below xs) ≡ find p xs
  find-sort_by below p [] s = refl
  find-sort_by below p (x ∷ xs) (h, s) =
      find-insert_by below p x (sort_by below xs) (λ e. find-sort_by below p xs s ∙ h e)
      ∙ ap (λ o. if p x then some x else o) (find-sort_by below p xs s)

  All-insert_by :
      (P : A → Type 0) (below : A → A → Bool) (x : A) (ys : List A)
      → P x
      → All P ys
      → All P (insert_by below x ys)
  All-insert_by P below x [] a b = (a, tt)
  All-insert_by P below x (y ∷ ys) a (b, c) = elim (Bool-cases (below x y)) [
    | inl e ↦ rw e (a, (b, c))
    | inr e ↦ rw e (b, All-insert_by P below x ys a c)
  ]

  pub All-sort_by :
      (P : A → Type 0) (below : A → A → Bool) (xs : List A) → All P xs → All P (sort_by below xs)
  All-sort_by P below [] a = tt
  All-sort_by P below (x ∷ xs) (a, b) =
      All-insert_by P below x (sort_by below xs) a (All-sort_by P below xs b)

module _ {A B : Type 0} (f : A → B) where
  insert_by-map :
      (p : A → A → Bool) (q : B → B → Bool)
      → ((x y : A) → q (f x) (f y) ≡ p x y)
      → (x : A) (ys : List A) → insert_by q (f x) (map f ys) ≡ map f (insert_by p x ys)
  insert_by-map p q h x [] = refl
  insert_by-map p q h x (y ∷ ys) = elim (Bool-cases (p x y)) [
    | inl e ↦ rw (h x y, e) refl
    | inr e ↦ rw (h x y, e) (ap (λ zs. f y ∷ zs) (insert_by-map p q h x ys))
  ]

  pub sort_by-map :
      (p : A → A → Bool) (q : B → B → Bool)
      → ((x y : A) → q (f x) (f y) ≡ p x y)
      → (xs : List A) → sort_by q (map f xs) ≡ map f (sort_by p xs)
  sort_by-map p q h [] = refl
  sort_by-map p q h (x ∷ xs) =
      ap (λ ys. insert_by q (f x) ys) (sort_by-map p q h xs) ∙ insert_by-map p q h x (sort_by p xs)

  pub find-map :
      (p : A → Bool) (q : B → Bool)
      → ((x : A) → q (f x) ≡ p x)
      → (xs : List A) → find q (map f xs) ≡ map_some f (find p xs)
  find-map p q h [] = refl
  find-map p q h (x ∷ xs) = ground (arith, h x, find-map p q h xs)

  pub retain-map :
      (p : A → Bool) (q : B → Bool)
      → ((x : A) → q (f x) ≡ p x)
      → (xs : List A) → retain q (map f xs) ≡ map f (retain p xs)
  retain-map p q h [] = refl
  retain-map p q h (x ∷ xs) = ground (arith, h x, retain-map p q h xs)

  -- a reading that undoes the writing reads all the values
  pub collect-map :
      (read : B → Result A) (xs : List A)
      → All (λ x. read (f x) ≡ ok x) xs
      → collect read (map f xs) ≡ ok xs
  collect-map read [] a = refl
  collect-map read (x ∷ xs) (a, b) = ground (arith, a, collect-map read xs b)
