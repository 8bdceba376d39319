-- ===== src/Secrets/RoundTrip.antt =====
-- What the secrets answer after any run of requests.
use nexad.Prelude.{
  ℕ, ◌≡◌, refl, inl, inr, ◌&&◌, ◌||◌, Option, none, some, List, [], ◌∷◌, ◌++◌, arith, Text, ◌==◌,
  byte_eq, list_eq, pair_eq, if◌then◌else◌, length, length-append, take-append_of_length,
  drop-append_of_length, contains, Option-cases, Bool-cases,
}
use nexad.HashMap
use nexad.HashMap.{HashMap, is_some, get-insert, get-remove}
use nexad.Result.{ok, is_ok, Result-cases}
use nexad.Secrets.Store.{Rows, insert_sorted, names_of, encrypt, decrypt, set, get, delete}

module _ (seal : List ℕ → List ℕ → Option (List ℕ)) (unseal : List ℕ → List ℕ → Option (List ℕ))
    (cipher_error : Text)
    (opens : (nonce v c : List ℕ) → seal nonce v ≡ some c → unseal nonce c ≡ some v) where
  decrypt-append :
      (nonce c v : List ℕ)
      → length nonce ≡ 12
      → unseal nonce c ≡ some v
      → decrypt seal unseal cipher_error (nonce ++ c) ≡ ok v
  unfolding decrypt
  decrypt-append nonce c v n e = ground (
    arith,
    take-append_of_length 12 nonce c n,
    drop-append_of_length 12 nonce c n,
    length-append nonce c,
    e,
    n,
  )

  decrypt-encrypt :
      (nonce v blob : List ℕ)
      → length nonce ≡ 12
      → encrypt seal unseal cipher_error nonce v ≡ ok blob
      → decrypt seal unseal cipher_error blob ≡ ok v
  unfolding encrypt
  decrypt-encrypt nonce v blob n h = elim (Option-cases (seal nonce v)) [
    | inl e ↦ ground (arith, h, e)
    | inr (c, e) ↦
        let same : nonce ++ c ≡ blob = ground (arith, h, e) in
        rw (← same) (decrypt-append nonce c v n (opens nonce v c e))
  ]

  -- After a request to set a secret that succeeded, its reading answers the value, decrypted; after
  -- one that failed every reading is what it was; other secrets' readings never change. The nonce
  -- has 12 bytes, and the cipher opens what it sealed.
  pub get-set :
      (fault : Option Text) (nonce : List ℕ) (rows : Rows) (project name p n : Text) (v : List ℕ)
      → length nonce ≡ 12
      → let done = set seal unseal cipher_error fault nonce rows project name v in
        get seal unseal cipher_error none done.1 p n ≡ (
          if is_ok done.0 && (project == p && name == n)
          then ok (some v)
          else get seal unseal cipher_error none rows p n)
  unfolding set get
  get-set fault nonce rows project name p n v len =
      elim (Result-cases (encrypt seal unseal cipher_error nonce v)) [
        | inr (e, h) ↦ ground (arith, h)
        | inl (blob, h) ↦ ground (
          arith,
          h,
          decrypt-encrypt nonce v blob len h,
          get-insert rows (project, name) (p, n) blob,
        )
      ]

module _ (seal : List ℕ → List ℕ → Option (List ℕ)) (unseal : List ℕ → List ℕ → Option (List ℕ))
    (cipher_error : Text) where
  -- After a request to delete a secret that succeeded there is none of its name; after one that
  -- failed every reading is what it was; other secrets' readings never change.
  pub get-delete :
      (fault : Option Text) (rows : Rows) (project name p n : Text)
      → let done = delete seal unseal cipher_error fault rows project name in
        get seal unseal cipher_error none done.1 p n ≡ (
          if is_ok done.0 && (project == p && name == n)
          then ok none
          else get seal unseal cipher_error none rows p n)
  unfolding delete get
  get-delete none rows project name p n = ground (arith, get-remove rows (project, name) (p, n))
  get-delete (some e) rows project name p n = refl

contains-insert_sorted :
    (s t : Text) (ts : List Text) → contains s (insert_sorted t ts) ≡ (t == s || contains s ts)
unfolding insert_sorted
contains-insert_sorted s t [] = refl
contains-insert_sorted s t (u ∷ ts) = ground (arith, contains-insert_sorted s t ts)

-- The names listed for a project are those under which a row of it stands.
pub contains-names_of :
    (project name : Text) (rows : Rows)
    → contains name (names_of project rows) ≡ is_some (HashMap.get rows (project, name))
unfolding names_of HashMap.get
contains-names_of project name [] = refl
contains-names_of project name (((p, n), blob) ∷ rows) =
    let rest = contains-names_of project name rows in
    elim (Bool-cases (p == project)) [
      | inr e ↦ rw e rest
      | inl e ↦ elim (Bool-cases (n == name)) [
        | inl h ↦ rw (e, contains-insert_sorted name n (names_of project rows), h) refl
        | inr h ↦ rw (e, contains-insert_sorted name n (names_of project rows), h) rest
      ]
    ]
