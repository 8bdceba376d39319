-- ===== src/Secrets/Store.antt =====
-- `EncryptedSqliteSecretStore` of src/adapters/secrets/encrypted.rs over its table of rows.
use nexad.Prelude.{
  ℕ, Bool, true, false, Option, none, some, List, [], ◌∷◌, ◌++◌, Text, text, ◌==◌, byte_eq, list_eq,
  if◌then◌else◌, ltb, length, take, drop, pair_eq,
}
use nexad.HashMap
use nexad.HashMap.{HashMap}
use nexad.Result.{secret, Result, ok, err}

-- The rows, by the primary key: project and name.
abbrev pub Rows : Type 0
Rows = HashMap (Text × Text) (List ℕ)

-- the collation of a text column compares bytes
unfoldable pub text_leb : Text → Text → Bool
text_leb [] t = true
text_leb (x ∷ s) [] = false
text_leb (x ∷ s) (y ∷ t) = let rest = text_leb s t in if x == y then rest else ltb x y

unfoldable pub insert_sorted : Text → List Text → List Text
insert_sorted s [] = s ∷ []
insert_sorted s (t ∷ ts) =
    let rest = insert_sorted s ts in if text_leb s t then s ∷ (t ∷ ts) else t ∷ rest

-- `ORDER BY name` of the names of a project
unfoldable pub names_of : Text → Rows → List Text
names_of project [] = []
names_of project (((p, n), blob) ∷ rows) =
    let rest = names_of project rows in if p == project then insert_sorted n rest else rest

-- `seal` and `unseal` are AES-256-GCM under the store's key, at a nonce; `cipher_error` is the text
-- of the cipher's one error. A failing statement of the database is given by its error's text.
module _ (seal : List ℕ → List ℕ → Option (List ℕ)) (unseal : List ℕ → List ℕ → Option (List ℕ))
    (cipher_error : Text) where
  -- at the nonce that the random source gives
  unfoldable pub encrypt : List ℕ → List ℕ → Result (List ℕ)
  encrypt nonce plaintext = elim (seal nonce plaintext) [
    | none ↦ err (secret (text "encryption failed: " ++ cipher_error))
    | some ciphertext ↦ ok (nonce ++ ciphertext)
  ]

  unfoldable pub decrypt : List ℕ → Result (List ℕ)
  decrypt blob =
      if ltb (length blob) 12
      then err (secret (text "ciphertext too short"))
      else elim (unseal (take 12 blob) (drop 12 blob)) [
        | none ↦ err (secret (text "decryption failed: " ++ cipher_error))
        | some plaintext ↦ ok plaintext
      ]

  abbrev pub execute : Text → Option Text → Rows → Rows → Result (Unit {0}) × Rows
  execute context none before after = (ok tt, after)
  execute context (some e) before after = (err (secret (context ++ e)), before)

  abbrev pub set_blob :
      Option Text → Rows → Text × Text → Result (List ℕ) → Result (Unit {0}) × Rows
  set_blob fault rows key (err e) = (err e, rows)
  set_blob fault rows key (ok blob) =
      execute (text "failed to set secret: ") fault rows (HashMap.insert rows key blob)

  unfoldable pub set : Option Text → List ℕ → Rows → Text → Text → List ℕ → Result (Unit {0}) × Rows
  set fault nonce rows project name value =
      set_blob fault rows (project, name) (encrypt nonce value)

  abbrev pub found : Result (List ℕ) → Result (Option (List ℕ))
  found (err e) = err e
  found (ok plaintext) = ok (some plaintext)

  unfoldable pub get : Option Text → Rows → Text → Text → Result (Option (List ℕ))
  get (some e) rows project name = err (secret (text "query failed: " ++ e))
  get none rows project name = elim (HashMap.get rows (project, name)) [
    | none ↦ ok none
    | some blob ↦ found (decrypt blob)
  ]

  unfoldable pub list : Option Text → Rows → Text → Result (List Text)
  list (some e) rows project = err (secret (text "query failed: " ++ e))
  list none rows project = ok (names_of project rows)

  unfoldable pub delete : Option Text → Rows → Text → Text → Result (Unit {0}) × Rows
  delete fault rows project name =
      execute (text "delete failed: ") fault rows (HashMap.remove rows (project, name))
