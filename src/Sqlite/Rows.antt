-- ===== src/Sqlite/Rows.antt =====
-- Rows under a key, and rows with a parent: what inserting, removing and updating keeps.
use nexad.Prelude.{
  ◌≡◌, refl, ◌∙◌, Bool, true, false, not, ◌||◌, List, [], ◌∷◌, ◌++◌, map, arith, Text, ◌==◌,
  byte_eq, list_eq, list_beq_iff, any, retain, All, Bool-cases, inl, inr,
}

pub text_eq_sym : (s t : Text) → (s == t) ≡ (t == s)
text_eq_sym s t = ground (arith, list_beq_iff s t, list_beq_iff t s)

module _ {A : Type 0} where
  pub any-append : (p : A → Bool) (xs ys : List A) → any p (xs ++ ys) ≡ (any p xs || any p ys)
  any-append p [] ys = refl
  any-append p (x ∷ xs) ys = ground (arith, any-append p xs ys)

  pub any_mono :
      (p q : A → Bool)
      → ((x : A) → p x ≡ true → q x ≡ true)
      → (xs : List A) → any p xs ≡ true
      → any q xs ≡ true
  any_mono p q h [] e = ground (arith, e)
  any_mono p q h (x ∷ xs) e = ground (arith, h x, any_mono p q h xs, e)

  -- a row that the removal keeps is found in what is kept
  pub any_kept :
      (p q : A → Bool)
      → ((x : A) → p x ≡ true → q x ≡ true)
      → (xs : List A) → any p xs ≡ true
      → any p (retain q xs) ≡ true
  any_kept p q h [] e = ground (arith, e)
  any_kept p q h (x ∷ xs) e = ground (arith, h x, any_kept p q h xs, e)

  pub any_split :
      (p q : A → Bool) (xs : List A)
      → any p xs ≡ (any p (retain q xs) || any p (retain (λ x. not (q x)) xs))
  any_split p q [] = refl
  any_split p q (x ∷ xs) = ground (arith, any_split p q xs)

  pub any-map :
      {B : Type 0} (p : B → Bool) (f : A → B) (xs : List A)
      → any p (map f xs) ≡ any (λ x. p (f x)) xs
  any-map p f [] = refl
  any-map p f (x ∷ xs) = ground (arith, any-map p f xs)

  pub any_same : (p q : A → Bool) → ((x : A) → p x ≡ q x) → (xs : List A) → any p xs ≡ any q xs
  any_same p q h [] = refl
  any_same p q h (x ∷ xs) = ground (arith, h x, any_same p q h xs)

  pub any_retained : (p q : A → Bool) (xs : List A) → any p xs ≡ false → any p (retain q xs) ≡ false
  any_retained p q [] h = refl
  any_retained p q (x ∷ xs) h = ground (arith, any_retained p q xs, h)

  pub All-retain : (P : A → Type 0) (q : A → Bool) (xs : List A) → All P xs → All P (retain q xs)
  All-retain P q [] a = tt
  All-retain P q (x ∷ xs) (a, b) = elim (Bool-cases (q x)) [
    | inl e ↦ rw e (a, All-retain P q xs b)
    | inr e ↦ rw e (All-retain P q xs b)
  ]

  -- the kept rows satisfy the test by which they were kept as well
  pub All-retain_both :
      (P Q : A → Type 0) (q : A → Bool)
      → ((x : A) → P x → q x ≡ true → Q x)
      → (xs : List A) → All P xs
      → All Q (retain q xs)
  All-retain_both P Q q h [] a = tt
  All-retain_both P Q q h (x ∷ xs) (a, b) = elim (Bool-cases (q x)) [
    | inl e ↦ rw e (h x a e, All-retain_both P Q q h xs b)
    | inr e ↦ rw e (All-retain_both P Q q h xs b)
  ]

  pub All-map :
      {B : Type 0} (P : B → Type 0) (f : A → B) (xs : List A)
      → All (λ x. P (f x)) xs
      → All P (map f xs)
  All-map P f [] a = tt
  All-map P f (x ∷ xs) (a, b) = (a, All-map P f xs b)

-- No two rows have one key.
module _ {A : Type 0} (same : A → A → Bool) where
  abbrev pub IsUnique : List A → Type 0
  IsUnique [] = Unit
  IsUnique (x ∷ xs) = (any (λ y. same y x) xs ≡ false) × IsUnique xs

  pub append-IsUnique :
      ((x y : A) → same x y ≡ same y x)
      → (xs : List A) (x : A) → IsUnique xs
      → any (λ y. same y x) xs ≡ false
      → IsUnique (xs ++ x ∷ [])
  append-IsUnique comm [] x u h = (refl, tt)
  append-IsUnique comm (y ∷ ys) x (a, u) h = (
    ground (arith, any-append (λ z. same z y) ys (x ∷ []), comm x y, a, h),
    append-IsUnique comm ys x u (ground (arith, h)),
  )

  pub retain-IsUnique : (q : A → Bool) (xs : List A) → IsUnique xs → IsUnique (retain q xs)
  retain-IsUnique q [] u = tt
  retain-IsUnique q (x ∷ xs) (a, u) = elim (Bool-cases (q x)) [
    | inl e ↦ rw e (any_retained (λ y. same y x) q xs a, retain-IsUnique q xs u)
    | inr e ↦ rw e (retain-IsUnique q xs u)
  ]

  -- an update that changes no key
  pub map-IsUnique :
      (f : A → A)
      → ((x y : A) → same (f x) (f y) ≡ same x y)
      → (xs : List A) → IsUnique xs
      → IsUnique (map f xs)
  map-IsUnique f h [] u = tt
  map-IsUnique f h (x ∷ xs) (a, u) = (
    any-map (λ y. same y (f x)) f xs
        ∙ any_same (λ y. same (f y) (f x)) (λ y. same y x) (λ y. h y x) xs
        ∙ a,
    map-IsUnique f h xs u,
  )
