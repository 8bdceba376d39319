-- ===== src/Str/Lines.antt =====
-- Texts of lines, and their lines.
use nexad.Prelude.{
  ℕ, Bool, true, false, not, ◌&&◌, ◌||◌, contains, byte_eq, ◌≡◌, refl, ap, ◌∙◌, List, [], ◌∷◌, ◌++◌,
  arith, Text, All,
}
use nexad.Str.{split, lines, line_parts, strip_return}
use nexad.Str.Laws.{IsFree, split-head}

-- the lines, each with its line feed
abbrev pub unlines : List Text → Text
unlines [] = []
unlines (l ∷ ls) = (l ++ 10 ∷ []) ++ unlines ls

-- A text that `lines` gives back: without a line feed or a carriage return.
abbrev pub IsLine : Text → Type 0
IsLine l = IsFree 10 l × IsFree 13 l

append-cons : (l s : Text) → (l ++ 10 ∷ []) ++ s ≡ l ++ 10 ∷ s
append-cons [] s = refl
append-cons (x ∷ l) s = ap (λ t. x ∷ t) (append-cons l s)

split-unlines : (ls : List Text) → All IsLine ls → split 10 (unlines ls) ≡ ls ++ [] ∷ []
unfolding split
split-unlines [] h = refl
split-unlines (l ∷ ls) ((f, g), h) =
    ap (λ t. split 10 t) (append-cons l (unlines ls))
    ∙ (split-head 10 l (unlines ls) f ∙ ap (λ r. l ∷ r) (split-unlines ls h))

strip_return-free : (l : Text) → IsFree 13 l → strip_return l ≡ l
strip_return-free [] h = refl
strip_return-free (x ∷ []) (n, h) = ground (arith, n)
strip_return-free (x ∷ y ∷ l) (n, h) = ap (λ t. x ∷ t) (strip_return-free (y ∷ l) h)

line_parts-end : (ls : List Text) → All IsLine ls → line_parts (ls ++ [] ∷ []) ≡ ls
line_parts-end [] h = refl
line_parts-end (l ∷ []) ((f, g), h) = ap (λ t. t ∷ []) (strip_return-free l g)
line_parts-end (l ∷ m ∷ ls) ((f, g), h) =
    ap (λ t. t ∷ line_parts (m ∷ (ls ++ [] ∷ []))) (strip_return-free l g)
    ∙ ap (λ r. l ∷ r) (line_parts-end (m ∷ ls) h)

pub lines-unlines : (ls : List Text) → All IsLine ls → lines (unlines ls) ≡ ls
unfolding lines
lines-unlines ls h = ap (λ r. line_parts r) (split-unlines ls h) ∙ line_parts-end ls h

IsFree-contains : (c : ℕ) (s : Text) → contains c s ≡ false → IsFree c s
IsFree-contains c [] h = tt
IsFree-contains c (x ∷ s) h = (ground (arith, h), IsFree-contains c s (ground (arith, h)))

abbrev is_line : Text → Bool
is_line l = not (contains 10 l || contains 13 l)

is_line-IsLine : (l : Text) → is_line l ≡ true → IsLine l
is_line-IsLine l h =
    (IsFree-contains 10 l (ground (arith, h)), IsFree-contains 13 l (ground (arith, h)))

abbrev pub are_lines : List Text → Bool
are_lines [] = true
are_lines (l ∷ ls) = is_line l && are_lines ls

pub are_lines-IsLine : (ls : List Text) → are_lines ls ≡ true → All IsLine ls
are_lines-IsLine [] h = tt
are_lines-IsLine (l ∷ ls) h =
    (is_line-IsLine l (ground (arith, h)), are_lines-IsLine ls (ground (arith, h)))
