-- ===== src/Prelude/Bytes.antt =====
-- Text as Rust holds it: the bytes of its UTF-8 form. A literal is ASCII, so its bytes are its codes.
use Prim.Native.Nat.{ℕ}
use Prim.Native.Char.{code}
use Prim.Native.String.{String}
use mathlib.Core.List.{List, [], ◌∷◌}

abbrev pub Text : Type 0
Text = List ℕ

abbrev pub text : String → Text
text String.[] = []
text (String.◌∷◌ c s) = code c ∷ text s
