-- ===== src/Runtime/Image.antt =====
-- `normalize_image_ref` of src/adapters/runtime/containerd.rs.
use nexad.Prelude.{
  ℕ, ◌≡◌, refl, ap, ◌∙◌, true, false, ◌||◌, ◌&&◌, not, Bool, ◌==◌, Option, Option-cases, none, some,
  [], ◌∷◌, ◌++◌, arith, Text, text, byte_eq, contains, if◌then◌else◌, Bool-cases, inl, inr,
}
use nexad.Str.{cut, rsplit_once}

-- The first parts of the splits at `/` and then at `:`.
unfoldable pub host_part : Text → Text
host_part image = (cut b':' (cut b'/' image).0).0

abbrev pub name_and_tag : Text → Option (Text × Text) → Text × Text
name_and_tag image none = (image, text "latest")
name_and_tag image (some (n, t)) = (n, t)

abbrev pub qualified : Text × Text → Text
qualified (name, tag) =
    if contains b'/' name
    then text "docker.io/" ++ (name ++ b':' ∷ tag)
    else text "docker.io/library/" ++ (name ++ b':' ∷ tag)

unfoldable pub normalize_image_ref : Text → Text
normalize_image_ref image =
    if contains b'.' (host_part image)
    then (if contains b':' image then image else image ++ text ":latest")
    else qualified (name_and_tag image (rsplit_once b':' image))

contains-append : (c : ℕ) (s t : Text) → contains c (s ++ t) ≡ (contains c s || contains c t)
contains-append c [] t = refl
contains-append c (x ∷ s) t = ground (arith, contains-append c s t)

host_part-tagged :
    (image tag : Text)
    → contains b':' image ≡ false
    → host_part (image ++ b':' ∷ tag) ≡ host_part image
unfolding host_part cut
host_part-tagged [] tag h = refl
host_part-tagged (x ∷ image) tag h = ground (arith, host_part-tagged image tag, h)

-- a reference with a registry and a tag is left as it is
normalize-full :
    (image : Text)
    → contains b'.' (host_part image) ≡ true
    → contains b':' image ≡ true
    → normalize_image_ref image ≡ image
unfolding normalize_image_ref
normalize-full image h k = ground (arith, h, k)

host_part-qualified : (p : Text × Text) → contains b'.' (host_part (qualified p)) ≡ true
unfolding host_part cut
host_part-qualified (name, tag) = elim (Bool-cases (contains b'/' name)) [
  | inl h ↦ rw h refl
  | inr h ↦ rw h refl
]

contains-qualified : (p : Text × Text) → contains b':' (qualified p) ≡ true
contains-qualified (name, tag) = elim (Bool-cases (contains b'/' name)) [
  | inl h ↦ rw h (ground (arith, contains-append b':' name (b':' ∷ tag)))
  | inr h ↦ rw h (ground (arith, contains-append b':' name (b':' ∷ tag)))
]

normalize-parts :
    (image : Text)
    → (contains b'.' (host_part (normalize_image_ref image)) ≡ true)
      × (contains b':' (normalize_image_ref image) ≡ true)
unfolding normalize_image_ref
normalize-parts image = elim (Bool-cases (contains b'.' (host_part image))) [
  | inr h ↦
      let p = name_and_tag image (rsplit_once b':' image) in
      rw h (host_part-qualified p, contains-qualified p)
  | inl h ↦ elim (Bool-cases (contains b':' image)) [
    | inl k ↦ rw (h, k) (h, k)
    | inr k ↦
        rw (h, k)
          (
            ap (contains b'.') (host_part-tagged image (text "latest") k) ∙ h,
            ground (arith, contains-append b':' image (text ":latest")),
          )
  ]
]

-- a colon with no slash behind it: what Docker takes for a tag
unfoldable pub has_tag : Text → Bool
has_tag [] = false
has_tag (x ∷ s) =
    let later = has_tag s in if later then true else x == b':' && not (contains b'/' s)

has_tag-slash : (p s : Text) → has_tag (p ++ b'/' ∷ s) ≡ has_tag s
unfolding has_tag
has_tag-slash [] s = ground arith
has_tag-slash (x ∷ p) s = ground (arith, has_tag-slash p s, contains-append b'/' p (b'/' ∷ s))

has_tag-latest : (s : Text) → has_tag (s ++ b':' ∷ text "latest") ≡ true
unfolding has_tag
has_tag-latest [] = refl
has_tag-latest (x ∷ s) = ground (arith, has_tag-latest s)

rsplit_once-some : (c : ℕ) (s : Text) {a b : Text} → rsplit_once c s ≡ some (a, b) → s ≡ a ++ c ∷ b
unfolding rsplit_once
rsplit_once-some c [] h = ground arith
rsplit_once-some c (x ∷ s) h = elim (Option-cases (rsplit_once c s)) [
  | inl e ↦ ground (arith, e, h)
  | inr ((a, b), e) ↦ ground (arith, rsplit_once-some c s e, e, h)
]

rsplit_once-none : (c : ℕ) (s : Text) → rsplit_once c s ≡ none → contains c s ≡ false
unfolding rsplit_once
rsplit_once-none c [] h = refl
rsplit_once-none c (x ∷ s) h = elim (Option-cases (rsplit_once c s)) [
  | inl e ↦ ground (arith, rsplit_once-none c s e, e, h)
  | inr ((a, b), e) ↦ ground (arith, e, h)
]

has_tag-qualified :
    (name tag : Text) → has_tag (qualified (name, tag)) ≡ has_tag (name ++ b':' ∷ tag)
has_tag-qualified name tag = elim (Bool-cases (contains b'/' name)) [
  | inl h ↦ rw h (has_tag-slash (text "docker.io") (name ++ b':' ∷ tag))
  | inr h ↦ rw h (has_tag-slash (text "docker.io/library") (name ++ b':' ∷ tag))
]

has_tag-parts :
    (image : Text)
    → has_tag (qualified (name_and_tag image (rsplit_once b':' image)))
      ≡ (has_tag image || not (contains b':' image))
has_tag-parts image = elim (Option-cases (rsplit_once b':' image)) [
  | inl e ↦
      rw (e, has_tag-qualified image (text "latest"), rsplit_once-none b':' image e)
        (ground (arith, has_tag-latest image))
  | inr ((a, b), e) ↦
      let parts = rsplit_once-some b':' image e in
      rw (e, has_tag-qualified a b) (ground (arith, parts, contains-append b':' a (b':' ∷ b)))
]

has_tag-normalize :
    (image : Text)
    → has_tag (normalize_image_ref image) ≡ (has_tag image || not (contains b':' image))
unfolding normalize_image_ref
has_tag-normalize image = elim (Bool-cases (contains b'.' (host_part image))) [
  | inr h ↦ rw h (has_tag-parts image)
  | inl h ↦ elim (Bool-cases (contains b':' image)) [
    | inl k ↦ rw (h, k) (ground arith)
    | inr k ↦ rw (h, k) (ground (arith, has_tag-latest image))
  ]
]

-- A normal form has a registry, and normalizing it again changes nothing. It has a tag, a colon
-- behind the last slash, exactly where the name had one or had no colon at all: a name whose only
-- colon stands before a registry's port is left without.
pub normalize-normalize :
    (image : Text)
    → let full = normalize_image_ref image in
      (contains b'.' (host_part full) ≡ true)
      × (has_tag full ≡ (has_tag image || not (contains b':' image)))
      × (normalize_image_ref full ≡ full)
normalize-normalize image =
    let (h, k) = normalize-parts image in
    (h, has_tag-normalize image, normalize-full (normalize_image_ref image) h k)
