-- ===== src/Str/Laws.antt =====
-- Where the separators stand decides what the splits return.
use nexad.Prelude.{
  ℕ, suc, ◌≡◌, refl, ◌≢◌, true, none, some, [], ◌∷◌, ◌++◌, arith, Text, byte_eq, list_eq, ◌-◌, All,
  drop, All-imp, length, length-append, leb, le→leb, drop-append, beq_refl,
}
use mathlib.Core.Path.{subst}
use nexad.Str.{starts_with, ends_with, cut, split, splitn, rsplit_once, trim_end_matches}
use nexad.Str.Decimal.{IsDigit}

-- The byte `c` does not stand in the text.
abbrev pub IsFree : ℕ → Text → Type 0
IsFree c s = All (λ x. x ≢ c) s

pub cut-append : (c : ℕ) (a b : Text) → IsFree c a → cut c (a ++ c ∷ b) ≡ (a, some b)
unfolding cut
cut-append c [] b h = ground arith
cut-append c (x ∷ a) b h = ground (arith, cut-append c a b h.1)

pub cut-free : (c : ℕ) (a : Text) → IsFree c a → cut c a ≡ (a, none)
unfolding cut
cut-free c [] h = refl
cut-free c (x ∷ a) h = ground (arith, cut-free c a h.1)

-- What `cut` found stands there.
pub cut-eq_some : (c : ℕ) (s : Text) {b : Text} → (cut c s).1 ≡ some b → s ≡ (cut c s).0 ++ c ∷ b
unfolding cut
cut-eq_some c [] h = ground arith
cut-eq_some c (x ∷ s) {b} h = ground (arith, cut-eq_some c s {b = b})

pub cut-IsFree : (c : ℕ) (s : Text) → IsFree c (cut c s).0
unfolding cut
cut-IsFree c [] = tt
cut-IsFree c (x ∷ s) = ground (arith, cut-IsFree c s)

pub rsplit_once-free : (c : ℕ) (a : Text) → IsFree c a → rsplit_once c a ≡ none
unfolding rsplit_once
rsplit_once-free c [] h = refl
rsplit_once-free c (x ∷ a) h = ground (arith, rsplit_once-free c a h.1)

pub rsplit_once-append :
    (c : ℕ) (a b : Text) → IsFree c b → rsplit_once c (a ++ c ∷ b) ≡ some (a, b)
unfolding rsplit_once
rsplit_once-append c [] b h = ground (arith, rsplit_once-free c b h)
rsplit_once-append c (x ∷ a) b h = ground (arith, rsplit_once-append c a b h)

pub splitn-some :
    (n c : ℕ) (s a b : Text)
    → cut c s ≡ (a, some b)
    → splitn (suc (suc n)) c s ≡ a ∷ splitn (suc n) c b
unfolding splitn
splitn-some n c s a b h = ground arith

pub splitn_three :
    (c : ℕ) (a b r : Text)
    → IsFree c a
    → IsFree c b
    → splitn 3 c (a ++ c ∷ (b ++ c ∷ r)) ≡ a ∷ b ∷ r ∷ []
splitn_three c a b r h k =
    rw (splitn-some 1 c _ a _ (cut-append c a (b ++ c ∷ r) h))
      (rw (splitn-some 0 c _ b _ (cut-append c b r k)) (unfold splitn in refl))

-- A text that does not end in `c` is not trimmed.
pub trim_end_matches-free :
    (c : ℕ) (s : Text) (x : ℕ) → x ≢ c → trim_end_matches c (s ++ x ∷ []) ≡ s ++ x ∷ []
unfolding trim_end_matches
trim_end_matches-free c [] x h = ground arith
trim_end_matches-free c (y ∷ []) x h = ground arith
trim_end_matches-free c (y ∷ z ∷ s) x h = ground (arith, trim_end_matches-free c (z ∷ s) x h)

pub IsDigit-IsFree : (c : ℕ) (s : Text) → (IsDigit c → ⊥) → All IsDigit s → IsFree c s
IsDigit-IsFree c s h d = All-imp (λ x k e. h (subst IsDigit e k)) s d

pub trim_end_matches-append_nil :
    (c : ℕ) (a b : Text)
    → trim_end_matches c b ≡ []
    → trim_end_matches c (a ++ b) ≡ trim_end_matches c a
unfolding trim_end_matches
trim_end_matches-append_nil c [] b h = h
trim_end_matches-append_nil c (x ∷ a) b h = rw (trim_end_matches-append_nil c a b h)

pub trim_end_matches-append :
    (c : ℕ) (a b : Text) → trim_end_matches c b ≡ b → b ≢ [] → trim_end_matches c (a ++ b) ≡ a ++ b
unfolding trim_end_matches
trim_end_matches-append c [] b h k = h
trim_end_matches-append c (x ∷ []) [] h k = absurd (k refl)
trim_end_matches-append c (x ∷ []) (y ∷ b) h k = rw (h, trim_end_matches)
trim_end_matches-append c (x ∷ z ∷ a) b h k =
    rw (trim_end_matches-append c (z ∷ a) b h k, trim_end_matches)

pub ends_with-append : (a p : Text) → ends_with (a ++ p) p ≡ true
unfolding ends_with
ends_with-append a p =
    let front : length (a ++ p) - length p ≡ length a = omega (arith, length-append a p) in
    let fits : leb (length p) (length (a ++ p)) ≡ true =
      le→leb (length p) (length (a ++ p)) (omega (arith, length-append a p)) in
    rw (fits, front, drop-append a p) (beq_refl {A = Text} p)

pub starts_with-eq : (s p : Text) → starts_with s p ≡ true → s ≡ p ++ drop (length p) s
unfolding starts_with
starts_with-eq s [] h = refl
starts_with-eq [] (p ∷ ps) h = ground arith
starts_with-eq (x ∷ s) (p ∷ ps) h = ground (arith, starts_with-eq s ps, h)

-- The first part of a split is what stands before the first separator.
pub split-head : (c : ℕ) (s t : Text) → IsFree c s → split c (s ++ c ∷ t) ≡ s ∷ split c t
unfolding split
split-head c [] t f = ground arith
split-head c (x ∷ s) t (n, f) = ground (arith, n, split-head c s t f)
