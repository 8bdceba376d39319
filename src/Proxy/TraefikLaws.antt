-- ===== src/Proxy/TraefikLaws.antt =====
-- What Traefik's file holds after routes were applied and one was removed.
use nexad.Prelude.{
  ◌≡◌, refl, true, false, not, Option, some, List, [], ◌∷◌, arith, Text, ◌==◌, byte_eq, list_eq, Eq,
  if◌then◌else◌, Bool-cases, inl, inr, retain,
}
use nexad.HashMap.{HashMap, insert, remove}
use nexad.Result.{ok}
use nexad.Proxy.Config.{RouteConfig, no_faults, Form, IsReadBack}
use nexad.Proxy.Traefik.{
  TraefikDynamicConfig, default_config, sanitized, router_name, service_name, router_of, service_of,
  add_route, render_onto, render_config, without, apply_routes, remove_route, health,
}

module _ {ℓ κ} {K : Type ℓ} {V : Type κ} ⦃e : Eq K⦄ where
  remove-insert_same :
      (m : HashMap K V) (k j : K) (v : V) → (k == j) ≡ true → remove (insert m k v) j ≡ remove m j
  unfolding insert remove
  remove-insert_same [] k j v h = ground (arith, h)
  remove-insert_same ((i, w) ∷ m) k j v h =
      ground
        (arith, h, e.test_iff k j, e.test_iff i k, e.test_iff i j, remove-insert_same m k j v h)

  remove-insert_other :
      (m : HashMap K V) (k j : K) (v : V)
      → (k == j) ≡ false
      → remove (insert m k v) j ≡ insert (remove m j) k v
  unfolding insert remove
  remove-insert_other [] k j v h = ground (arith, h)
  remove-insert_other ((i, w) ∷ m) k j v h =
      ground
        (arith, h, e.test_iff k j, e.test_iff i k, e.test_iff i j, remove-insert_other m k j v h)

router_name-beq : (d c : Text) → (router_name d == router_name c) ≡ (sanitized d == sanitized c)
router_name-beq d c = refl

service_name-beq : (d c : Text) → (service_name d == service_name c) ≡ (sanitized d == sanitized c)
service_name-beq d c = refl

-- the routes that do not have the domain's name in the file
abbrev pub others : Text → List RouteConfig → List RouteConfig
others domain routes = retain (λ r. not (sanitized r.domain == sanitized domain)) routes

without-add_route :
    (domain : Text) (config : TraefikDynamicConfig) (r : RouteConfig)
    → without domain (add_route config r) ≡ (
        if sanitized r.domain == sanitized domain
        then without domain config
        else add_route (without domain config) r)
without-add_route domain config r = elim (Bool-cases (sanitized r.domain == sanitized domain)) [
  | inl h ↦
      rw
        (
          h,
          remove-insert_same config.http.routers (router_name r.domain) (router_name domain)
              (router_of r) h,
          remove-insert_same config.http.services (service_name r.domain) (service_name domain)
              (service_of r) h,
        )
        refl
  | inr h ↦
      rw
        (
          h,
          remove-insert_other config.http.routers (router_name r.domain) (router_name domain)
              (router_of r) h,
          remove-insert_other config.http.services (service_name r.domain) (service_name domain)
              (service_of r) h,
        )
        refl
]

without-render_onto :
    (domain : Text) (config : TraefikDynamicConfig) (routes : List RouteConfig)
    → without domain (render_onto config routes)
      ≡ render_onto (without domain config) (others domain routes)
without-render_onto domain config [] = refl
without-render_onto domain config (r ∷ routes) =
    elim (Bool-cases (sanitized r.domain == sanitized domain)) [
      | inl h ↦
          rw
            (
              h,
              without-render_onto domain (add_route config r) routes,
              without-add_route domain config r,
              h,
            )
            refl
      | inr h ↦
          rw
            (
              h,
              without-render_onto domain (add_route config r) routes,
              without-add_route domain config r,
              h,
            )
            refl
    ]

without-render_config :
    (domain : Text) (routes : List RouteConfig)
    → without domain (render_config routes) ≡ render_config (others domain routes)
unfolding render_config remove
without-render_config domain routes = without-render_onto domain default_config routes

module _ (yaml : Form TraefikDynamicConfig) (config_path : Text) where
  apply_routes_lem :
      (routes : List RouteConfig) (file : Option Text) (w : IsReadBack yaml (render_config routes))
      → apply_routes yaml config_path no_faults routes file ≡ (ok tt, some w.0)
  unfolding apply_routes
  apply_routes_lem routes file w = ground (arith, w.1)

  remove_route_lem :
      (routes : List RouteConfig) (domain : Text) (a : IsReadBack yaml (render_config routes))
      (b : IsReadBack yaml (render_config (others domain routes)))
      → remove_route yaml config_path no_faults domain (some a.0) ≡ (ok tt, some b.0)
  unfolding remove_route
  remove_route_lem routes domain a b = ground (arith, a.2, without-render_config domain routes, b.1)

  health_lem :
      (routes : List RouteConfig) (w : IsReadBack yaml (render_config routes))
      → health yaml config_path no_faults (some w.0) ≡ true
  unfolding health
  health_lem routes w = ground (arith, w.2)

-- Where no call fails and the YAML forms of the two configurations are read back, removing a domain
-- from the file that routes were written to gives the file of the routes without those whose domain
-- has the same name once `.` is written `-`, and the backend is healthy then.
pub remove_route-apply_routes :
    (yaml : Form TraefikDynamicConfig) (config_path : Text) (routes : List RouteConfig)
    (domain : Text) (file : Option Text)
    → IsReadBack yaml (render_config routes)
    → IsReadBack yaml (render_config (others domain routes))
    → let applied = apply_routes yaml config_path no_faults routes file in
      let removed = remove_route yaml config_path no_faults domain applied.1 in
      (removed ≡ apply_routes yaml config_path no_faults (others domain routes) file)
      × ((removed.0 ≡ ok tt) × (health yaml config_path no_faults removed.1 ≡ true))
remove_route-apply_routes yaml config_path routes domain file a b =
    rw
      (
        apply_routes_lem yaml config_path routes file a,
        apply_routes_lem yaml config_path (others domain routes) file b,
        remove_route_lem yaml config_path routes domain a b,
      )
      (refl, (refl, health_lem yaml config_path (others domain routes) b))
