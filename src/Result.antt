-- ===== src/Result.antt =====
-- `nexa_core::error`: the errors that the code builds, and the results that carry them.
use nexad.Prelude.{Text, ◌≡◌, refl, ◌⊎◌, inl, inr, Bool, true, false, List, [], ◌∷◌}

pub data NexaError : Type 0 where
  runtime network secret certificate proxy invalid_spec : Text → NexaError
  route_already_exists project_not_found deployment_not_found pod_not_found : Text → NexaError
  node_not_found project_not_empty image_pull : Text → NexaError
  serialization : NexaError

module _ {ℓ} (A : Type ℓ) where
  pub data Result : Type ℓ where
    err : NexaError → Result
    ok : A → Result

module _ {ℓ} {A : Type ℓ} where
  abbrev pub is_ok : Result A → Bool
  is_ok (err e) = false
  is_ok (ok a) = true

  pub Result-cases : (r : Result A) → ((a : A) × (r ≡ ok a)) ⊎ ((e : NexaError) × (r ≡ err e))
  Result-cases (err e) = inr (e, refl)
  Result-cases (ok a) = inl (a, refl)

module _ {ℓ κ} {A : Type ℓ} {B : Type κ} where
  infixl 5 ◌>>=◌
  abbrev pub ◌>>=◌ : Result A → (A → Result B) → Result B
  err e >>= next = err e
  ok a >>= next = next a

-- `collect` of results: the first error, or all the values
abbrev pub collect {ℓ κ} : {A : Type ℓ} {B : Type κ} → (A → Result B) → List A → Result (List B)
collect f [] = ok []
collect f (x ∷ xs) = f x >>= λ y. collect f xs >>= λ ys. ok (y ∷ ys)

-- What a library makes of a value or a text: the text of its error, or the outcome.
module _ {ℓ} (A : Type ℓ) where
  pub data Outcome : Type ℓ where
    failed : Text → Outcome
    value : A → Outcome
