-- ===== src/State/RouteLaws.antt =====
-- Routes: what a lookup answers after any run of requests, and that the listings agree with it.
use nexad.Prelude.{
  Bool-cases, ◌≡◌, refl, ap, ◌∙◌, ◌⊎◌, inl, inr, not, ◌&&◌, Option, none, some, List, [], ◌∷◌,
  arith, Text, ◌==◌, byte_eq, list_eq, list_beq_iff, if◌then◌else◌, find,
}
use nexad.HashMap
use nexad.HashMap.{HashMap, is_some, get-insert, get-remove, HasDistinctKeys}
use nexad.State.Routes.{
  Route, InMemoryRouteStore, of_project, new, insert_route, get_route, list_routes, delete_route,
}
use nexad.State.Keyed.{filter_option, IsKeyed, find-values, insert-IsKeyed, remove-IsKeyed}

module _ {ℓ} {R : Type ℓ} where
  -- the store after a run of insertions (`inl`) and deletions (`inr`) of routes
  unfoldable pub run : List (Route R ⊎ Text) → InMemoryRouteStore R → InMemoryRouteStore R
  run [] s = s
  run (inl route ∷ rs) s = run rs (insert_route s route).1
  run (inr domain ∷ rs) s = run rs (delete_route s domain).1

  -- The same run seen from one domain: the first insertion counts until a deletion.
  unfoldable pub route_after : List (Route R ⊎ Text) → Text → Option (Route R) → Option (Route R)
  route_after [] d held = held
  route_after (inl route ∷ rs) d held =
      route_after rs d (if route.domain == d && not (is_some held) then some route else held)
  route_after (inr domain ∷ rs) d held = route_after rs d (if domain == d then none else held)

  insert_route-get :
      (s : InMemoryRouteStore R) (route : Route R) (d : Text)
      → get_route (insert_route s route).1 d
        ≡ (if route.domain == d && not (is_some (get_route s d)) then some route else get_route s d)
  unfolding get_route insert_route HashMap.contains_key
  insert_route-get s route d =
      ground (arith, get-insert s.routes route.domain d route, list_beq_iff route.domain d)

  -- After a run of requests the route of a domain follows from the requests for that domain alone.
  pub get_route-run :
      (rs : List (Route R ⊎ Text)) (s : InMemoryRouteStore R) (d : Text)
      → get_route (run rs s) d ≡ route_after rs d (get_route s d)
  unfolding run route_after delete_route get_route
  get_route-run [] s d = refl
  get_route-run (inl route ∷ rs) s d =
      get_route-run rs (insert_route s route).1 d
      ∙ ap (route_after rs d) (insert_route-get s route d)
  get_route-run (inr domain ∷ rs) s d =
      get_route-run rs (delete_route s domain).1 d
      ∙ ap (route_after rs d) (get-remove s.routes domain d)

  insert_route-IsKeyed :
      (s : InMemoryRouteStore R) (route : Route R)
      → IsKeyed Route.domain s.routes
      → IsKeyed Route.domain (insert_route s route).1.routes
  unfolding insert_route
  insert_route-IsKeyed s route w = elim (Bool-cases (HashMap.contains_key s.routes route.domain)) [
    | inl h ↦ rw h w
    | inr h ↦ rw h (insert-IsKeyed Route.domain s.routes route w)
  ]

  run-IsKeyed :
      (rs : List (Route R ⊎ Text)) (s : InMemoryRouteStore R)
      → IsKeyed Route.domain s.routes
      → IsKeyed Route.domain (run rs s).routes
  unfolding run delete_route
  run-IsKeyed [] s w = w
  run-IsKeyed (inl route ∷ rs) s w =
      run-IsKeyed rs (insert_route s route).1 (insert_route-IsKeyed s route w)
  run-IsKeyed (inr domain ∷ rs) s w =
      run-IsKeyed rs (delete_route s domain).1 (remove-IsKeyed Route.domain s.routes domain w)

-- After any run of requests on an empty store the listing of a project, or of all, holds at each
-- domain just what the lookup of the domain answers, where that route is of the project.
pub list_routes-run {ℓ} :
    (R : Type ℓ) (rs : List (Route R ⊎ Text)) (project : Option Text) (d : Text)
    → find (λ r. r.domain == d) (list_routes (run rs new) project)
      ≡ filter_option (of_project project) (get_route (run rs new) d)
unfolding list_routes get_route
list_routes-run R rs project d =
    find-values Route.domain (of_project project) (run rs new).routes d
      (run-IsKeyed rs (new {R = R}) tt)
