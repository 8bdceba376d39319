-- ===== src/State/Subnets.antt =====
-- The subnets of the route store: who holds which, after any run of requests.
use nexad.Prelude.{
  ◌≡◌, refl, ◌∙◌, ap, ◌⊎◌, inl, inr, Bool, true, false, not, ◌&&◌, none, some, List, [], ◌∷◌, ◌++◌,
  arith, Text, ◌==◌, byte_eq, list_eq, list_beq_iff, if◌then◌else◌, any, find, retain, length, ltb,
  Bool-cases, ◌≤◌,
}
use nexad.HashMap.{is_some}
use nexad.Result.{is_ok}
use nexad.State.Routes.{
  SubnetAllocation, InMemoryRouteStore, is_at, has_subnet, new, allocate_subnet, get_node_subnet,
  deallocate_subnet,
}

module _ {ℓ} {A : Type ℓ} where
  pub find-append_one :
      (p : A → Bool) (xs : List A) (x : A)
      → find p (xs ++ x ∷ []) ≡ (if any p xs then find p xs else if p x then some x else none)
  find-append_one p [] x = refl
  find-append_one p (y ∷ ys) x = ground (arith, find-append_one p ys x)

  pub any-find : (p : A → Bool) (xs : List A) → any p xs ≡ is_some (find p xs)
  any-find p [] = refl
  any-find p (y ∷ ys) = ground (arith, any-find p ys)

  any_none :
      (p q : A → Bool) (xs : List A) (a : A) → any p xs ≡ false → find q xs ≡ some a → p a ≡ false
  any_none p q [] a h e = ground arith
  any_none p q (y ∷ ys) a h e = ground (arith, any_none p q ys a)

  pub find_holds : (p : A → Bool) (xs : List A) (a : A) → find p xs ≡ some a → p a ≡ true
  find_holds p [] a e = ground arith
  find_holds p (y ∷ ys) a e = ground (arith, find_holds p ys a)

  any-append_one :
      (p : A → Bool) (xs : List A) (x : A) → any p (xs ++ x ∷ []) ≡ (if any p xs then true else p x)
  any-append_one p [] x = ground arith
  any-append_one p (y ∷ ys) x = ground (arith, any-append_one p ys x)

  any-retain : (p q : A → Bool) (xs : List A) → any p xs ≡ false → any p (retain q xs) ≡ false
  any-retain p q [] h = refl
  any-retain p q (y ∷ ys) h = ground (arith, any-retain p q ys)

  length-retain : (q : A → Bool) (xs : List A) → length (retain q xs) ≤ length xs
  length-retain q [] = omega arith
  length-retain q (y ∷ ys) = ground (arith, length-retain q ys)

  retain_shorter :
      (q : A → Bool) (xs : List A)
      → ltb (length (retain (λ a. not (q a)) xs)) (length xs) ≡ any q xs
  retain_shorter q [] = ground arith
  retain_shorter q (y ∷ ys) = ground (arith, retain_shorter q ys, length-retain (λ a. not (q a)) ys)

-- No two entries of one node and project, none of one subnet.
abbrev pub IsExclusive : List SubnetAllocation → Type 0
IsExclusive [] = Unit
IsExclusive (a ∷ xs) =
    (any (is_at a.node_id a.project) xs ≡ false)
    × (any (has_subnet a.subnet) xs ≡ false)
    × IsExclusive xs

append-IsExclusive :
    (xs : List SubnetAllocation) (a : SubnetAllocation)
    → IsExclusive xs
    → any (is_at a.node_id a.project) xs ≡ false
    → any (has_subnet a.subnet) xs ≡ false
    → IsExclusive (xs ++ a ∷ [])
append-IsExclusive [] a w h k = (refl, refl, tt)
append-IsExclusive (x ∷ xs) a (u, v, w) h k = (
  ground (
    arith,
    any-append_one (is_at x.node_id x.project) xs a,
    list_beq_iff a.node_id x.node_id,
    list_beq_iff x.node_id a.node_id,
    list_beq_iff a.project x.project,
    list_beq_iff x.project a.project,
    u,
    h,
  ),
  ground (
    arith,
    any-append_one (has_subnet x.subnet) xs a,
    list_beq_iff a.subnet x.subnet,
    list_beq_iff x.subnet a.subnet,
    v,
    k,
  ),
  append-IsExclusive xs a w (ground (arith, h)) (ground (arith, k)),
)

retain-IsExclusive :
    (q : SubnetAllocation → Bool) (xs : List SubnetAllocation)
    → IsExclusive xs
    → IsExclusive (retain q xs)
retain-IsExclusive q [] w = tt
retain-IsExclusive q (x ∷ xs) (u, v, w) = elim (Bool-cases (q x)) [
  | inl e ↦ rw e (
    any-retain (is_at x.node_id x.project) q xs u,
    any-retain (has_subnet x.subnet) q xs v,
    retain-IsExclusive q xs w,
  )
  | inr e ↦ rw e (retain-IsExclusive q xs w)
]

find_same :
    (xs : List SubnetAllocation) (n p n' p' : Text) (a b : SubnetAllocation)
    → IsExclusive xs
    → find (is_at n p) xs ≡ some a
    → find (is_at n' p') xs ≡ some b
    → a.subnet ≡ b.subnet
    → a ≡ b
find_same [] n p n' p' a b w h k e = ground arith
find_same (x ∷ xs) n p n' p' a b (u, v, w) h k e = ground (
  arith,
  find_same xs n p n' p' a b w,
  any_none (has_subnet x.subnet) (is_at n p) xs a v,
  any_none (has_subnet x.subnet) (is_at n' p') xs b v,
  list_beq_iff a.subnet x.subnet,
  list_beq_iff b.subnet x.subnet,
  h,
  k,
  e,
)

find-retain :
    (xs : List SubnetAllocation) (n p n' p' : Text)
    → find (is_at n p) (retain (λ a. not (is_at n' p' a)) xs)
      ≡ (if n == n' && p == p' then none else find (is_at n p) xs)
find-retain [] n p n' p' = ground arith
find-retain (x ∷ xs) n p n' p' = ground (
  arith,
  find-retain xs n p n' p',
  list_beq_iff x.node_id n,
  list_beq_iff x.node_id n',
  list_beq_iff n n',
  list_beq_iff x.project p,
  list_beq_iff x.project p',
  list_beq_iff p p',
)

abbrev pub Request : Type 0
Request = SubnetAllocation ⊎ (Text × Text)

module _ {ℓ} {R : Type ℓ} where
  -- the store after a run of allocations (`inl`) and deallocations (`inr`)
  unfoldable pub run : List Request → InMemoryRouteStore R → InMemoryRouteStore R
  run [] s = s
  run (inl alloc ∷ rs) s = run rs (allocate_subnet s alloc).1
  run (inr (n, p) ∷ rs) s = run rs (deallocate_subnet s n p).1

  allocate_subnet-IsExclusive :
      (s : InMemoryRouteStore R) (a : SubnetAllocation)
      → IsExclusive s.subnets
      → IsExclusive (allocate_subnet s a).1.subnets
  unfolding allocate_subnet
  allocate_subnet-IsExclusive s a w =
      elim (Bool-cases (any (is_at a.node_id a.project) s.subnets)) [
        | inl h ↦ rw h w
        | inr h ↦ elim (Bool-cases (any (has_subnet a.subnet) s.subnets)) [
          | inl k ↦ rw (h, k) w
          | inr k ↦ rw (h, k) (append-IsExclusive s.subnets a w h k)
        ]
      ]

  run-IsExclusive :
      (rs : List Request) (s : InMemoryRouteStore R)
      → IsExclusive s.subnets
      → IsExclusive (run rs s).subnets
  unfolding run deallocate_subnet
  run-IsExclusive [] s w = w
  run-IsExclusive (inl a ∷ rs) s w =
      run-IsExclusive rs (allocate_subnet s a).1 (allocate_subnet-IsExclusive s a w)
  run-IsExclusive (inr (n, p) ∷ rs) s w =
      run-IsExclusive rs (deallocate_subnet s n p).1
        (retain-IsExclusive (λ a. not (is_at n p a)) s.subnets w)

  -- An allocation is refused exactly where its node and project hold a subnet already or its subnet
  -- is held. A refused one changes no lookup; an accepted one changes that of its node and project
  -- only, which it answers from then on.
  pub allocate_subnet_lem :
      (s : InMemoryRouteStore R) (a : SubnetAllocation)
      → let done = allocate_subnet s a in
        (is_ok done.0 ≡ (
          not (is_some (get_node_subnet s a.node_id a.project))
          && not (any (has_subnet a.subnet) s.subnets)))
        × ((n p : Text)
            → get_node_subnet done.1 n p ≡ (
                if is_ok done.0 && (a.node_id == n && a.project == p)
                then some a
                else get_node_subnet s n p))
  unfolding get_node_subnet allocate_subnet
  allocate_subnet_lem s a = (
    ground (arith, any-find (is_at a.node_id a.project) s.subnets),
    λ n p. ground (
      arith,
      any-find (is_at a.node_id a.project) s.subnets,
      any-find (is_at n p) s.subnets,
      find-append_one (is_at n p) s.subnets a,
      list_beq_iff a.node_id n,
      list_beq_iff a.project p,
    ),
  )

  -- A deallocation answers whether its node and project held a subnet. They hold none after it, and
  -- no other lookup changes.
  pub deallocate_subnet_lem :
      (s : InMemoryRouteStore R) (n p : Text)
      → let done = deallocate_subnet s n p in
        (done.0 ≡ is_some (get_node_subnet s n p))
        × ((n' p' : Text)
            → get_node_subnet done.1 n' p'
              ≡ (if n' == n && p' == p then none else get_node_subnet s n' p'))
  unfolding get_node_subnet deallocate_subnet
  deallocate_subnet_lem s n p = (
    retain_shorter (is_at n p) s.subnets ∙ any-find (is_at n p) s.subnets,
    λ n' p'. find-retain s.subnets n' p' n p,
  )

-- After any run of requests on an empty store, one subnet is held under one node and project only.
pub run_exclusive {ℓ} :
    (R : Type ℓ) (rs : List Request) (n p n' p' : Text) (a b : SubnetAllocation)
    → get_node_subnet (run rs (new {R = R})) n p ≡ some a
    → get_node_subnet (run rs (new {R = R})) n' p' ≡ some b
    → a.subnet ≡ b.subnet
    → (n ≡ n') × (p ≡ p')
unfolding get_node_subnet
run_exclusive R rs n p n' p' a b h k e =
    let xs = (run rs (new {R = R})).subnets in
    let same = find_same xs n p n' p' a b (run-IsExclusive rs (new {R = R}) tt) h k e in
    ground (
      arith,
      ap SubnetAllocation.node_id same,
      ap SubnetAllocation.project same,
      find_holds (is_at n p) xs a h,
      find_holds (is_at n' p') xs b k,
      list_beq_iff a.node_id n,
      list_beq_iff b.node_id n',
      list_beq_iff a.project p,
      list_beq_iff b.project p',
    )
