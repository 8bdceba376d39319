-- ===== src/Str.antt =====
-- The methods of `str` that the code calls, over the bytes of the text. The separators are ASCII, so
-- a search by bytes is the search by characters.
pub mod Decimal
pub mod Utf8
pub mod Ipv4
pub mod Laws
pub mod Lines
use nexad.Prelude.{
  ℕ, zero, suc, Bool, true, false, ◌&&◌, Option, none, some, List, [], ◌∷◌, ◌++◌, Text, ◌==◌,
  if◌then◌else◌, length, drop, leb, ◌-◌, byte_eq, list_eq, is_empty, map,
}
use nexad.HashMap.{is_some}

-- `split_once(c)`: what stands before the first `c`, and what stands behind it, if it is there.
unfoldable pub cut : ℕ → Text → Text × Option Text
cut c [] = ([], none)
cut c (x ∷ s) = let (a, b) = cut c s in if x == c then ([], some s) else (x ∷ a, b)

-- `splitn(n, c)`
unfoldable pub splitn : ℕ → ℕ → Text → List Text
splitn zero c s = []
splitn (suc zero) c s = s ∷ []
splitn (suc (suc n)) c s = elim ((cut c s).1) [
  | none ↦ (cut c s).0 ∷ []
  | some rest ↦ (cut c s).0 ∷ splitn (suc n) c rest
]

abbrev cons_head : ℕ → List Text → List Text
cons_head x [] = (x ∷ []) ∷ []
cons_head x (p ∷ ps) = (x ∷ p) ∷ ps

-- `split(c)`
unfoldable pub split : ℕ → Text → List Text
split c [] = [] ∷ []
split c (x ∷ s) = let ps = split c s in if x == c then [] ∷ ps else cons_head x ps

abbrev pub strip_return : Text → Text
strip_return [] = []
strip_return (x ∷ []) = if x == 13 then [] else x ∷ []
strip_return (x ∷ y ∷ s) = x ∷ strip_return (y ∷ s)

-- Each part but the last had a line feed behind it.
abbrev pub line_parts : List Text → List Text
line_parts [] = []
line_parts ([] ∷ []) = []
line_parts ((x ∷ l) ∷ []) = (x ∷ l) ∷ []
line_parts (l ∷ m ∷ ls) = strip_return l ∷ line_parts (m ∷ ls)

-- `lines()`: without the line feeds, and without a carriage return before one
unfoldable pub lines : Text → List Text
lines s = line_parts (split 10 s)

unfoldable pub starts_with : Text → Text → Bool
starts_with s [] = true
starts_with [] (p ∷ ps) = false
starts_with (x ∷ s) (p ∷ ps) = x == p && starts_with s ps

-- `contains` of a text, and `find` with the text from the place on
unfoldable pub find_text : Text → Text → Option Text
find_text [] p = if is_empty p then some [] else none
find_text (x ∷ s) p =
    let rest = find_text s p in if starts_with (x ∷ s) p then some (x ∷ s) else rest

abbrev pub contains_text : Text → Text → Bool
contains_text s p = is_some (find_text s p)

abbrev rsplit_cons : ℕ → ℕ → Text → Option (Text × Text) → Option (Text × Text)
rsplit_cons c x s (some (a, b)) = some (x ∷ a, b)
rsplit_cons c x s none = if x == c then some ([], s) else none

-- `rsplit_once(c)`, and `rfind(c)` with the slices on both sides of the position.
unfoldable pub rsplit_once : ℕ → Text → Option (Text × Text)
rsplit_once c [] = none
rsplit_once c (x ∷ s) = rsplit_cons c x s (rsplit_once c s)

abbrev trim_cons : ℕ → ℕ → Text → Text
trim_cons c x [] = if x == c then [] else x ∷ []
trim_cons c x (y ∷ ys) = x ∷ y ∷ ys

-- `trim_end_matches(c)`
unfoldable pub trim_end_matches : ℕ → Text → Text
trim_end_matches c [] = []
trim_end_matches c (x ∷ s) = trim_cons c x (trim_end_matches c s)

unfoldable pub ends_with : Text → Text → Bool
ends_with s p = leb (length p) (length s) && drop (length s - length p) s == p

-- `replace(c, d)` of one byte by another
unfoldable pub replace : ℕ → ℕ → Text → Text
replace c d [] = []
replace c d (x ∷ s) = (if x == c then d else x) ∷ replace c d s

-- `join(sep)`
unfoldable pub join : Text → List Text → Text
join sep [] = []
join sep (p ∷ []) = p
join sep (p ∷ q ∷ ps) = p ++ (sep ++ join sep (q ∷ ps))
