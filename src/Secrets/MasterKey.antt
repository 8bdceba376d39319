-- ===== src/Secrets/MasterKey.antt =====
-- The master key of src/crypto/master_key.rs and its file.
use nexad.Prelude.{
  ℕ, Option, none, some, List, ◌++◌, Text, text, ◌==◌, byte_eq, if◌then◌else◌, length,
}
use nexad.Result.{secret, Result, ok, err}
use nexad.Str.Decimal.{show}

abbrev pub key_len : ℕ
key_len = 32

-- `fs::write` makes the file and fills it, with what the text of an error says; a file that was
-- not filled holds a part.
pub data Write : Type 0 where
  written : Write
  not_created : Text → Write
  not_filled : List ℕ → Text → Write

-- What the file system reports for the calls of one start, `none` or the text of the error.
pub record FileSystem : Type 0 where
  pub read : Option Text
  pub create_dir_all : Option Text
  pub write : Write
  pub set_permissions : Option Text

unfoldable pub load_key : FileSystem → List ℕ → Result (List ℕ)
load_key fs bytes = elim fs.read [
  | some e ↦ err (secret (text "failed to read master key: " ++ e))
  | none ↦
      if length bytes == key_len
      then ok bytes
      else err (
          secret (
            text "master key invalid length: expected "
            ++ (show key_len ++ (text ", got " ++ show (length bytes)))))
]

abbrev pub restrict : Option Text → List ℕ → Result (List ℕ) × Option (List ℕ)
restrict none key = (ok key, some key)
restrict (some e) key = (err (secret (text "set perms failed: " ++ e)), some key)

abbrev pub write_key : FileSystem → Write → List ℕ → Result (List ℕ) × Option (List ℕ)
write_key fs written key = restrict fs.set_permissions key
write_key fs (not_created e) key = (err (secret (text "write key failed: " ++ e)), none)
write_key fs (not_filled part e) key = (err (secret (text "write key failed: " ++ e)), some part)

-- `key` is what the random source gives; there is no file yet
unfoldable pub generate_key : FileSystem → List ℕ → Result (List ℕ) × Option (List ℕ)
generate_key fs key = elim fs.create_dir_all [
  | some e ↦ (err (secret (text "mkdir failed: " ++ e)), none)
  | none ↦ write_key fs fs.write key
]

unfoldable pub load_or_generate :
    FileSystem → List ℕ → Option (List ℕ) → Result (List ℕ) × Option (List ℕ)
load_or_generate fs key none = generate_key fs key
load_or_generate fs key (some bytes) = (load_key fs bytes, some bytes)
