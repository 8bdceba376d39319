-- ===== src/Secrets/Tests.antt =====
-- A cipher that turns the value round its nonce's first byte, and a table of two rows.
use nexad.Prelude.{
  ℕ, ◌≡◌, refl, sym, ap, Option, none, some, List, [], ◌∷◌, ◌++◌, Text, text, ◌==◌, byte_eq,
  list_eq, pair_eq, ◌&&◌, if◌then◌else◌, contains,
}
use nexad.HashMap
use nexad.HashMap.{is_some}
use nexad.Result.{ok, is_ok}
use nexad.Secrets.Store.{Rows, names_of, set, get, delete, decrypt, insert_sorted, text_leb}
use nexad.Secrets.MasterKey.{FileSystem, written, load_or_generate, generate_key}
use nexad.Secrets.KeyLaws.{load_or_generate_again}
use nexad.Secrets.RoundTrip.{get-set, get-delete, contains-names_of}
use mathlib.Core.Option.{some-injective}

-- a byte before the value is the tag
abbrev seal : List ℕ → List ℕ → Option (List ℕ)
seal nonce v = some (7 ∷ v)

abbrev unseal : List ℕ → List ℕ → Option (List ℕ)
unseal nonce [] = none
unseal nonce (tag ∷ v) = some v

opens : (nonce v c : List ℕ) → seal nonce v ≡ some c → unseal nonce c ≡ some v
opens nonce v c h = ap (unseal nonce) (some-injective c (7 ∷ v) (sym h))

abbrev nonce : List ℕ
nonce = 1 ∷ 2 ∷ 3 ∷ 4 ∷ 5 ∷ 6 ∷ 7 ∷ 8 ∷ 9 ∷ 10 ∷ 11 ∷ 12 ∷ []

abbrev error : Text
error = text "aead::Error"

abbrev rows : Rows
rows =
    ((text "p", text "b"), nonce ++ (7 ∷ 1 ∷ []))
    ∷ ((text "p", text "a"), nonce ++ (7 ∷ 2 ∷ []))
    ∷ []

read_b : get seal unseal error none rows (text "p") (text "b") ≡ ok (some (1 ∷ []))
unfolding get decrypt HashMap.get
read_b = refl

listed : names_of (text "p") rows ≡ text "a" ∷ text "b" ∷ []
unfolding names_of insert_sorted text_leb
listed = refl

get-set_example :
    let done = set seal unseal error none nonce rows (text "p") (text "a") (9 ∷ []) in
    get seal unseal error none done.1 (text "p") (text "a") ≡ (
      if is_ok done.0 && (text "p" == text "p" && text "a" == text "a")
      then ok (some (9 ∷ []))
      else get seal unseal error none rows (text "p") (text "a"))
get-set_example =
    get-set seal unseal error opens none nonce rows (text "p") (text "a") (text "p") (text "a")
      (9 ∷ []) refl

deleted_is_gone :
    let done = delete seal unseal error none rows (text "p") (text "a") in
    get seal unseal error none done.1 (text "p") (text "b") ≡ (
      if is_ok done.0 && (text "p" == text "p" && text "a" == text "b")
      then ok none
      else get seal unseal error none rows (text "p") (text "b"))
deleted_is_gone = get-delete seal unseal error none rows (text "p") (text "a") (text "p") (text "b")

names_of_two_rows :
    contains (text "b") (names_of (text "p") rows) ≡ is_some (HashMap.get rows (text "p", text "b"))
names_of_two_rows = contains-names_of (text "p") (text "b") rows

abbrev calm : FileSystem
calm = record { read = none; create_dir_all = none; write = written; set_permissions = none }

abbrev key : List ℕ
key = nonce ++ (nonce ++ (1 ∷ 2 ∷ 3 ∷ 4 ∷ 5 ∷ 6 ∷ 7 ∷ 8 ∷ []))

load_or_generate_again_example :
    load_or_generate calm nonce (load_or_generate calm key none).1 ≡ (ok key, some key)
unfolding load_or_generate generate_key
load_or_generate_again_example = load_or_generate_again calm calm key nonce none key refl refl refl
