-- ===== src/State/Keyed.antt =====
-- Maps whose values hold their own key, and the listing of their values.
use mathlib.Core.Path.{subst}
use nexad.Prelude.{
  Bool-cases, ◌≡◌, refl, inl, inr, Bool, Option, none, some, [], ◌∷◌, arith, Text, ◌==◌, byte_eq,
  list_eq, list_beq_iff, if◌then◌else◌, find, retain,
}
use nexad.HashMap
use nexad.HashMap.{HashMap, is_some, get-insert, get-remove, HasDistinctKeys}
use nexad.State.Routes.{values}

abbrev pub filter_option {ℓ} : {A : Type ℓ} → (A → Bool) → Option A → Option A
filter_option q none = none
filter_option q (some a) = if q a then some a else none

module _ {ℓ} {V : Type ℓ} (key : V → Text) where
  -- Each value stands under its own key, once.
  abbrev pub IsKeyed : HashMap Text V → Type ℓ
  IsKeyed [] = Unit
  IsKeyed ((k, v) ∷ m) = (key v ≡ k) × (HashMap.get m k ≡ none) × IsKeyed m

  find_absent :
      (q : V → Bool) (m : HashMap Text V) (d : Text)
      → IsKeyed m
      → HashMap.get m d ≡ none
      → find (λ v. key v == d) (retain q (values m)) ≡ none
  unfolding HashMap.get values
  find_absent q [] d w h = refl
  find_absent q ((k, v) ∷ m) d (e, a, w) h =
      ground (arith, find_absent q m d w, list_beq_iff (key v) d, list_beq_iff k d, e, h)

  pub find-values :
      (q : V → Bool) (m : HashMap Text V) (d : Text)
      → IsKeyed m
      → find (λ v. key v == d) (retain q (values m)) ≡ filter_option q (HashMap.get m d)
  unfolding HashMap.get values
  find-values q [] d w = refl
  find-values q ((k, v) ∷ m) d (e, a, w) = ground (
    arith,
    find-values q m d w,
    find_absent q m k w a,
    list_beq_iff (key v) d,
    list_beq_iff k d,
    e,
  )

  pub insert-IsKeyed :
      (m : HashMap Text V) (v : V) → IsKeyed m → IsKeyed (HashMap.insert m (key v) v)
  unfolding HashMap.insert HashMap.get
  insert-IsKeyed [] v w = (refl, refl, tt)
  insert-IsKeyed ((k, u) ∷ m) v (e, a, w) = elim (Bool-cases (k == key v)) [
    | inl h ↦ rw h (refl, subst (λ x. HashMap.get m x ≡ none) ((list_beq_iff k (key v)).0 h) a, w)
    | inr h ↦ rw h (
      e,
      ground
          (arith, get-insert m (key v) k v, list_beq_iff k (key v), list_beq_iff (key v) k, a, h),
      insert-IsKeyed m v w,
    )
  ]

  pub remove-IsKeyed : (m : HashMap Text V) (d : Text) → IsKeyed m → IsKeyed (HashMap.remove m d)
  unfolding HashMap.remove HashMap.get
  remove-IsKeyed [] d w = tt
  remove-IsKeyed ((k, u) ∷ m) d (e, a, w) = elim (Bool-cases (k == d)) [
    | inl h ↦ rw h (remove-IsKeyed m d w)
    | inr h ↦ rw h (e, ground (arith, get-remove m d k, a), remove-IsKeyed m d w)
  ]
