-- ===== src/Api/Response.antt =====
-- What a handler answers: a status and a body, over the results that it is given.
use nexad.Prelude.{ℕ, Text}
use nexad.Result.{NexaError, Result, ok, err}

-- The body is empty, an object with the one field `error`, or the JSON form of a value.
module _ {ℓ} (A : Type ℓ) where
  pub data Body : Type ℓ where
    empty : Body
    error : Text → Body
    json : A → Body

  pub record Response : Type ℓ where
    pub status : ℕ
    pub body : Body

-- the codes of `StatusCode`
abbrev pub status_ok : ℕ
status_ok = 200

abbrev pub created : ℕ
created = 201

abbrev pub bad_request : ℕ
bad_request = 400

abbrev pub not_found : ℕ
not_found = 404

abbrev pub conflict : ℕ
conflict = 409

abbrev pub internal_server_error : ℕ
internal_server_error = 500

abbrev pub answer {ℓ} : {A : Type ℓ} → A → Response A
answer a = record { status = status_ok; body = json a }

-- `display` is the text of an error.
module _ {ℓ} {A : Type ℓ} (display : NexaError → Text) where
  abbrev pub failure : ℕ → NexaError → Response A
  failure code e = record { status = code; body = error (display e) }

  abbrev pub respond : (good bad : ℕ) → Result A → Response A
  respond good bad (ok a) = record { status = good; body = json a }
  respond good bad (err e) = failure bad e

-- a handler that has nothing to say when all is well
abbrev pub respond_empty : (NexaError → Text) → (bad : ℕ) → Result (Unit {0}) → Response (Unit {0})
respond_empty display bad (ok u) = record { status = status_ok; body = empty }
respond_empty display bad (err e) = failure display bad e
