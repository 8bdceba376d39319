-- ===== src/Proxy/NginxLaws.antt =====
-- What nginx's directory holds after routes were applied and one was removed.
use nexad.Prelude.{
  ◌≡◌, refl, sym, ◌∙◌, ap, Option, none, some, List, [], ◌∷◌, ◌++◌, arith, Text, text, ◌==◌,
  byte_eq, list_eq, if◌then◌else◌, Bool-cases, inl, inr, list_beq_iff, length, length-append, take,
  take-append, take-append_of_length,
}
use nexad.HashMap.{HashMap, get, insert, get-insert, get-remove}
use nexad.Result.{ok}
use nexad.Proxy.Config.{RouteConfig}
use nexad.Proxy.Nginx.{conf_path, render_config, apply_routes, remove_route}

append-beq : (a x y : Text) → (a ++ x == a ++ y) ≡ (x == y)
append-beq [] x y = refl
append-beq (c ∷ a) x y = ground (arith, append-beq a x y)

append-cancel : (x y s : Text) → x ++ s ≡ y ++ s → x ≡ y
append-cancel x y s h =
    let n : length x ≡ length y =
      omega (arith, length-append x s, length-append y s, ap (λ t. length t) h) in
    sym (take-append x s)
    ∙ (ap (λ t. take (length x) t) h ∙ take-append_of_length (length x) y s (sym n))

beq-append : (x y s : Text) → (x ++ s == y ++ s) ≡ (x == y)
beq-append x y s = elim (Bool-cases (x == y)) [
  | inl h ↦ rw h ((list_beq_iff (x ++ s) (y ++ s)).1 (ap (λ t. t ++ s) ((list_beq_iff x y).0 h)))
  | inr h ↦ elim (Bool-cases (x ++ s == y ++ s)) [
    | inl k ↦ ground (
      arith,
      h,
      (list_beq_iff x y).1 (append-cancel x y s ((list_beq_iff (x ++ s) (y ++ s)).0 k)),
    )
    | inr k ↦ rw (h, k) refl
  ]
]

-- Two domains have one path only where they are equal.
conf_path-beq : (conf_dir d c : Text) → (conf_path conf_dir d == conf_path conf_dir c) ≡ (d == c)
unfolding conf_path
conf_path-beq conf_dir d c =
    append-beq conf_dir (text "nexa-" ++ (d ++ text ".conf")) (text "nexa-" ++ (c ++ text ".conf"))
    ∙ beq-append d c (text ".conf")

abbrev pub no_write_fault : Text → Option (Text × Option Text)
no_write_fault path = none

abbrev pub no_fault : Text → Option Text
no_fault path = none

-- the last route of a domain
abbrev pub last_route : Text → List RouteConfig → Option RouteConfig → Option RouteConfig
last_route domain [] found = found
last_route domain (r ∷ routes) found =
    last_route domain routes (if r.domain == domain then some r else found)

-- the file of a route, or what was there before
abbrev pub content_or : Option Text → Option RouteConfig → Option Text
content_or before none = before
content_or before (some r) = some (render_config r)

apply_routes_ok :
    (conf_dir : Text) (routes : List RouteConfig) (files : HashMap Text Text)
    → (apply_routes conf_dir no_write_fault routes files).0 ≡ ok tt
unfolding apply_routes
apply_routes_ok conf_dir [] files = refl
apply_routes_ok conf_dir (r ∷ routes) files = apply_routes_ok conf_dir routes _

get-apply_routes :
    (conf_dir : Text) (routes : List RouteConfig) (files : HashMap Text Text) (domain : Text)
    (found : Option RouteConfig) (before : Option Text)
    → get files (conf_path conf_dir domain) ≡ content_or before found
    → get (apply_routes conf_dir no_write_fault routes files).1 (conf_path conf_dir domain)
      ≡ content_or before (last_route domain routes found)
unfolding apply_routes
get-apply_routes conf_dir [] files domain found before h = h
get-apply_routes conf_dir (r ∷ routes) files domain found before h =
    get-apply_routes conf_dir routes (insert files (conf_path conf_dir r.domain) (render_config r))
      domain (if r.domain == domain then some r else found) before
      (ground (
        arith,
        get-insert files (conf_path conf_dir r.domain) (conf_path conf_dir domain)
            (render_config r),
        conf_path-beq conf_dir r.domain domain,
        h,
      ))

-- Where no call fails, applying routes succeeds and the file of a domain is then that of the last
-- route with the domain, or as it was where there is none; and removing a domain succeeds, takes its
-- file away and leaves the file of every other domain.
pub apply_routes-then-remove_route :
    (conf_dir : Text) (routes : List RouteConfig) (files : HashMap Text Text) (domain other : Text)
    → let applied = apply_routes conf_dir no_write_fault routes files in
      let removed = remove_route conf_dir no_fault domain applied.1 in
      let path = conf_path conf_dir other in
      ((applied.0 ≡ ok tt) × (removed.0 ≡ ok tt))
      × ((get applied.1 path ≡ content_or (get files path) (last_route other routes none))
          × (get removed.1 path ≡ (if domain == other then none else get applied.1 path)))
unfolding remove_route
apply_routes-then-remove_route conf_dir routes files domain other =
    let applied = apply_routes conf_dir no_write_fault routes files in
    (
      (apply_routes_ok conf_dir routes files, refl),
      (
        get-apply_routes conf_dir routes files other none (get files (conf_path conf_dir other))
            refl,
        get-remove applied.1 (conf_path conf_dir domain) (conf_path conf_dir other)
            ∙ ap (λ b. if b then none else get applied.1 (conf_path conf_dir other))
                (conf_path-beq conf_dir domain other),
      ),
    )
