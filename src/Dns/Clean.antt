-- ===== src/Dns/Clean.antt =====
-- The store holds no empty list, no empty map and no repeated address, whatever the operations.
use nexad.Prelude.{
  sym, ◌≡◌, ◌≢◌, refl, ap, ◌∙◌, Bool, true, false, Option, none, some, List, [], ◌∷◌, ◌++◌, arith,
  Text, ◌==◌, byte_eq, list_eq, if◌then◌else◌, contains, is_empty, Bool-cases, Option-cases, inl,
  inr, beq_refl,
}
use mathlib.Core.Path.{subst}
use mathlib.Core.Option.{some-injective}
use mathlib.Core.Bool.{false≢true}
use nexad.HashMap
use nexad.HashMap.{HashMap}
use nexad.Dns.Address.{IpAddr, ip_eq, ip_beq_iff}
use nexad.Dns.Records.{
  DnsRecordStore, new, or_default, register, deregister, retain_other, put_project, lookup,
}
use nexad.Dns.View.{with_ip, without_ip, lookup_lem}
use nexad.Dns.History.{Op, add, remove, apply, run, history, lookup-run}

-- No address stands twice.
abbrev pub HasNoRepeats : List IpAddr → Type 0
HasNoRepeats [] = Unit
HasNoRepeats (x ∷ xs) = (contains x xs ≡ false) × HasNoRepeats xs

abbrev pub IsListed : List IpAddr → Type 0
IsListed ips = (is_empty ips ≡ false) × HasNoRepeats ips

-- the lists of one project's map are not empty and hold no address twice
abbrev pub HasListed : HashMap Text (List IpAddr) → Type 0
HasListed pm = (d : Text) (ips : List IpAddr) → HashMap.get pm d ≡ some ips → IsListed ips

-- The store keeps no empty list, no empty map and no repeated address.
pub record IsClean (s : DnsRecordStore) : Type 0 where
  pub projects :
      (p : Text) (pm : HashMap Text (List IpAddr))
      → HashMap.get s.entries p ≡ some pm
      → (is_empty pm ≡ false) × HasListed pm

contains-append_ne :
    (a b : IpAddr) (xs : List IpAddr)
    → contains a xs ≡ false
    → a ≢ b
    → contains a (xs ++ b ∷ []) ≡ false
contains-append_ne a b [] h n = ground (arith, ip_beq_iff b a)
contains-append_ne a b (x ∷ xs) h n = ground (arith, contains-append_ne a b xs)

append-HasNoRepeats :
    (ip : IpAddr) (xs : List IpAddr)
    → contains ip xs ≡ false
    → HasNoRepeats xs
    → HasNoRepeats (xs ++ ip ∷ [])
append-HasNoRepeats ip [] h r = (refl, tt)
append-HasNoRepeats ip (x ∷ xs) h r =
    ground (arith, ip_beq_iff x ip, contains-append_ne x ip xs, append-HasNoRepeats ip xs)

with_ip-IsListed : (ip : IpAddr) (ips : List IpAddr) → HasNoRepeats ips → IsListed (with_ip ip ips)
with_ip-IsListed ip [] r = (refl, (refl, tt))
with_ip-IsListed ip (x ∷ xs) r = ground (arith, append-HasNoRepeats ip (x ∷ xs))

contains-without :
    (a ip : IpAddr) (xs : List IpAddr)
    → contains a xs ≡ false
    → contains a (without_ip ip xs) ≡ false
contains-without a ip [] h = refl
contains-without a ip (x ∷ xs) h = ground (arith, contains-without a ip xs)

without-HasNoRepeats :
    (ip : IpAddr) (xs : List IpAddr) → HasNoRepeats xs → HasNoRepeats (without_ip ip xs)
without-HasNoRepeats ip [] r = tt
without-HasNoRepeats ip (x ∷ xs) r =
    ground (arith, without-HasNoRepeats ip xs, contains-without x ip xs)

has_key :
    (pm : HashMap Text (List IpAddr)) (d : Text) (ips : List IpAddr)
    → is_empty (HashMap.insert pm d ips) ≡ false
unfolding HashMap.insert
has_key [] d ips = refl
has_key ((e, v) ∷ pm) d ips = ground arith

-- a map read after a write or a removal: the entry is the written one or an earlier one
if-some {ℓ κ} :
    {A : Type ℓ} (P : A → Type κ) (b : Bool) (x : A) (o : Option A)
    → P x
    → ((a : A) → o ≡ some a → P a)
    → (a : A) → (if b then some x else o) ≡ some a
    → P a
if-some P true x o px po a h = subst P (some-injective x a h) px
if-some P false x o px po a h = po a h

if-none {ℓ κ} :
    {A : Type ℓ} (P : A → Type κ) (b : Bool) (o : Option A)
    → ((a : A) → o ≡ some a → P a)
    → (a : A) → (if b then none else o) ≡ some a
    → P a
if-none P true o po a h = cc
if-none P false o po a h = po a h

HasListed-nil : HasListed []
unfolding HashMap.get
HasListed-nil d ips h = cc

HasListed-or_default :
    (o : Option (HashMap Text (List IpAddr)))
    → ((pm : HashMap Text (List IpAddr)) → o ≡ some pm → HasListed pm)
    → HasListed (or_default o)
HasListed-or_default none h = HasListed-nil
HasListed-or_default (some pm) h = h pm refl

HasNoRepeats-or_default :
    (o : Option (List IpAddr))
    → ((ips : List IpAddr) → o ≡ some ips → IsListed ips)
    → HasNoRepeats (or_default o)
HasNoRepeats-or_default none h = tt
HasNoRepeats-or_default (some ips) h = (h ips refl).1

HasListed-insert :
    (pm : HashMap Text (List IpAddr)) (d : Text) (ips : List IpAddr)
    → HasListed pm
    → IsListed ips
    → HasListed (HashMap.insert pm d ips)
HasListed-insert pm d ips h l e v g =
    if-some IsListed (d == e) ips (HashMap.get pm e) l (h e) v (rw HashMap.get-insert at g)

HasListed-remove :
    (pm : HashMap Text (List IpAddr)) (d : Text) → HasListed pm → HasListed (HashMap.remove pm d)
HasListed-remove pm d h e v g =
    if-none IsListed (d == e) (HashMap.get pm e) (h e) v (rw HashMap.get-remove at g)

HasListed-retain_other :
    (pm : HashMap Text (List IpAddr)) (d : Text) (ip : IpAddr)
    → HasListed pm
    → HasListed (retain_other pm d ip)
unfolding retain_other
HasListed-retain_other pm d ip h = elim (Option-cases (HashMap.get pm d)) [
  | inl gone ↦ rw (gone, retain_other) h
  | inr (ips, here) ↦ elim (Bool-cases (is_empty (without_ip ip ips))) [
    | inl emptied ↦ rw (here, emptied, retain_other) (HasListed-remove pm d h)
    | inr left ↦
        rw (here, left, retain_other)
          (HasListed-insert pm d (without_ip ip ips) h
            (left, without-HasNoRepeats ip ips (h d ips here).1))
  ]
]

-- what the invariant says of one project's map
abbrev IsProject : HashMap Text (List IpAddr) → Type 0
IsProject pm = (is_empty pm ≡ false) × HasListed pm

module _ (s : DnsRecordStore) (p d : Text) (ip : IpAddr) where
  register-IsClean : IsClean s → IsClean (register s p d ip)
  unfolding register
  register-IsClean c = record {
    projects = λ q pm g.
        let old = or_default (HashMap.get s.entries p) in
        let ips = or_default (HashMap.get old d) in
        let listed : HasListed old =
          HasListed-or_default (HashMap.get s.entries p) (λ m e. (c.projects p m e).1) in
        let unique : HasNoRepeats ips = HasNoRepeats-or_default (HashMap.get old d) (listed d) in
        if-some IsProject (p == q) (HashMap.insert old d (with_ip ip ips)) (HashMap.get s.entries q)
          (
            has_key old d (with_ip ip ips),
            HasListed-insert old d (with_ip ip ips) listed (with_ip-IsListed ip ips unique),
          )
          (c.projects q) pm (rw HashMap.get-insert at g);
  }

  put_project-IsClean :
      (pm : HashMap Text (List IpAddr))
      → IsClean s
      → HasListed pm
      → IsClean (record { entries = put_project s.entries p pm })
  unfolding put_project
  put_project-IsClean pm c h = record {
    projects = λ q m g. elim (Bool-cases (is_empty pm)) [
      | inl emptied ↦
          if-none IsProject (p == q) (HashMap.get s.entries q) (c.projects q) m
            (rw (← HashMap.get-remove s.entries p q) (rw (emptied, put_project) at g))
      | inr left ↦
          if-some IsProject (p == q) pm (HashMap.get s.entries q) (left, h) (c.projects q) m
            (rw (← HashMap.get-insert s.entries p q pm) (rw (left, put_project) at g))
    ];
  }

  deregister-IsClean : IsClean s → IsClean (deregister s p d ip)
  unfolding deregister
  deregister-IsClean c = elim (Option-cases (HashMap.get s.entries p)) [
    | inl gone ↦ rw (gone, deregister) c
    | inr (pm, here) ↦
        rw (here, deregister)
          (put_project-IsClean (retain_other pm d ip) c
            (HasListed-retain_other pm d ip (c.projects p pm here).1))
  ]

apply-IsClean : (op : Op) (s : DnsRecordStore) → IsClean s → IsClean (apply op s)
unfolding apply
apply-IsClean (add p d ip) s c = register-IsClean s p d ip c
apply-IsClean (remove p d ip) s c = deregister-IsClean s p d ip c

-- Every run of registrations and removals keeps a clean store clean.
pub run-IsClean : (ops : List Op) (s : DnsRecordStore) → IsClean s → IsClean (run ops s)
unfolding run
run-IsClean [] s c = c
run-IsClean (op ∷ ops) s c = run-IsClean ops (apply op s) (apply-IsClean op s c)

pub new-IsClean : IsClean new
unfolding HashMap.get
new-IsClean = record { projects = λ p pm g. cc }

head_get :
    {V : Type 0} (k : Text) (v : V) (m : HashMap Text V) → HashMap.get ((k, v) ∷ m) k ≡ some v
unfolding HashMap.get
head_get k v m = rw (beq_refl {A = Text} k)

IsListed-ne-nil : (ips : List IpAddr) → IsListed ips → ips ≢ []
IsListed-ne-nil [] l e = cc (l.0)
IsListed-ne-nil (x ∷ xs) l e = cc

-- In a clean store in which no deployment has an address, nothing is stored.
entries_of_lookup :
    (m : HashMap Text (HashMap Text (List IpAddr)))
    → IsClean (record { entries = m })
    → ((p d : Text) → lookup (record { entries = m }) p d ≡ [])
    → m ≡ []
entries_of_lookup [] c h = refl
entries_of_lookup ((p, []) ∷ m) c h =
    absurd (false≢true (sym (c.projects p [] (head_get p [] m)).0))
entries_of_lookup ((p, (d, ips) ∷ pm) ∷ m) c h =
    let here = head_get p ((d, ips) ∷ pm) m in
    let inside = head_get d ips pm in
    absurd (
      IsListed-ne-nil ips ((c.projects p ((d, ips) ∷ pm) here).1 d ips inside)
        (rw (lookup_lem, here, inside) at (h p d)))

-- Once the removals have emptied every deployment, the store is the new one again: no project and
-- no deployment is kept without an address.
pub run-eq-new : (ops : List Op) → ((p d : Text) → history ops p d [] ≡ []) → run ops new ≡ new
unfolding lookup history HashMap.get
run-eq-new ops h =
    ap (λ m. record { entries = m })
      (entries_of_lookup (run ops new).entries (run-IsClean ops new new-IsClean)
        (λ p d. lookup-run ops new p d ∙ h p d))
