-- ===== src/Secrets/KeyLaws.antt =====
-- That a restart finds the same key.
use nexad.Prelude.{
  ℕ, ◌≡◌, sym, ◌∙◌, ap, Option, none, some, List, arith, byte_eq, list_eq, pair_eq, length,
}
use nexad.Result.{ok}
use nexad.Secrets.MasterKey.{key_len, FileSystem, load_key, generate_key, load_or_generate}

load_key_ok :
    (fs : FileSystem) (bytes key : List ℕ)
    → load_key fs bytes ≡ ok key
    → (bytes ≡ key) × (length bytes ≡ key_len)
unfolding load_key
load_key_ok fs bytes key h = (ground (arith, h), ground (arith, h))

load_key_same :
    (fs : FileSystem) (key : List ℕ)
    → fs.read ≡ none
    → length key ≡ key_len
    → load_key fs key ≡ ok key
unfolding load_key
load_key_same fs key r n = ground (arith, r, n)

generate_key_ok :
    (fs : FileSystem) (fresh key : List ℕ)
    → (generate_key fs fresh).0 ≡ ok key
    → (fresh ≡ key) × ((generate_key fs fresh).1 ≡ some key)
unfolding generate_key
generate_key_ok fs fresh key h = (ground (arith, h), ground (arith, h))

-- A start that got a key leaves a file from which every later start that can read it gets the same
-- key, whatever its random source gives. The first random source gives as many bytes as a key has.
pub load_or_generate_again :
    (fs again : FileSystem) (fresh other : List ℕ) (file : Option (List ℕ)) (key : List ℕ)
    → length fresh ≡ key_len
    → (load_or_generate fs fresh file).0 ≡ ok key
    → again.read ≡ none
    → load_or_generate again other (load_or_generate fs fresh file).1 ≡ (ok key, some key)
unfolding load_or_generate
load_or_generate_again fs again fresh other none key n h r =
    let made = generate_key_ok fs fresh key h in
    rw made.1 (ap (λ k. (k, some key)) (load_key_same again key r (ap length (sym made.0) ∙ n)))
load_or_generate_again fs again fresh other (some bytes) key n h r =
    let loaded = load_key_ok fs bytes key h in
    ap (λ k. (k, some bytes)) (load_key_same again bytes r loaded.1)
    ∙ ap (λ k. (ok k, some k)) loaded.0
