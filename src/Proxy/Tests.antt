-- ===== src/Proxy/Tests.antt =====
-- Two routes, one of which is removed.
use nexad.Prelude.{
  ◌≡◌, refl, true, none, some, List, [], ◌∷◌, ◌++◌, Text, text, ◌==◌, byte_eq, list_eq,
  if◌then◌else◌, length, All,
}
use nexad.HashMap.{get, insert}
use nexad.Str.Lines.{unlines, IsLine, are_lines-IsLine}
use nexad.Str.{replace, starts_with, ends_with}
use nexad.Result.{ok}
use nexad.Proxy.Config.{off, auto, RouteConfig, no_faults, Form, value, IsReadBack}
use nexad.Proxy.Traefik
use nexad.Proxy.TraefikLaws
use nexad.Proxy.Nginx
use nexad.Proxy.NginxLaws
use nexad.Proxy.Caddy
use nexad.Proxy.CaddyLaws

abbrev app : RouteConfig
app = record {
  domain = text "app.example.com";
  upstream =
      record { address = text "10.0.0.1:8080"; weight = 3 }
      ∷ record { address = text "10.0.0.2:8080"; weight = 1 }
      ∷ [];
  tls = auto (text "admin@example.com");
}

abbrev plain : RouteConfig
plain = record {
  domain = text "plain.example.com";
  upstream = record { address = text "10.0.0.5:3000"; weight = 1 } ∷ [];
  tls = off;
}

abbrev both : List RouteConfig
both = app ∷ plain ∷ []

-- a form that tells the two configurations apart by the number of their routers
abbrev yaml : Form Traefik.TraefikDynamicConfig
unfolding Traefik.render_config
yaml = record {
  to_string = λ c. value (length c.http.routers ∷ []);
  from_str = λ s.
      if s == 2 ∷ []
      then value (Traefik.render_config both)
      else value (Traefik.render_config (plain ∷ []));
}

both_read : IsReadBack yaml (Traefik.render_config both)
unfolding Traefik.render_config insert replace Traefik.sanitized
both_read = (2 ∷ [], refl, refl)

plain_read : IsReadBack yaml (Traefik.render_config (TraefikLaws.others app.domain both))
unfolding Traefik.render_config insert replace Traefik.sanitized
plain_read = (1 ∷ [], refl, refl)

remove_route-apply_routes_example :
    let applied = Traefik.apply_routes yaml (text "/etc/t.yml") no_faults both none in
    let removed =
      Traefik.remove_route yaml (text "/etc/t.yml") no_faults (text "app.example.com") applied.1 in
    (removed
      ≡ Traefik.apply_routes yaml
          (text "/etc/t.yml")
          no_faults
          (TraefikLaws.others (text "app.example.com") both)
          none)
    × ((removed.0 ≡ ok tt) × (Traefik.health yaml (text "/etc/t.yml") no_faults removed.1 ≡ true))
remove_route-apply_routes_example =
    TraefikLaws.remove_route-apply_routes yaml (text "/etc/t.yml") both (text "app.example.com")
      none both_read plain_read

-- the domains `a.b` and `a-b` have one name in Traefik's file
collision : (Traefik.router_name (text "a.b") == Traefik.router_name (text "a-b")) ≡ true
unfolding Traefik.sanitized replace
collision = refl

apply_routes-then-remove_route_example :
    let applied = Nginx.apply_routes (text "/etc/nginx/") NginxLaws.no_write_fault both [] in
    let removed = Nginx.remove_route (text "/etc/nginx/") NginxLaws.no_fault app.domain applied.1 in
    let path = Nginx.conf_path (text "/etc/nginx/") plain.domain in
    ((applied.0 ≡ ok tt) × (removed.0 ≡ ok tt))
    × ((get applied.1 path
          ≡ NginxLaws.content_or (get [] path) (NginxLaws.last_route plain.domain both none))
        × (get removed.1 path ≡ (if app.domain == plain.domain then none else get applied.1 path)))
apply_routes-then-remove_route_example =
    NginxLaws.apply_routes-then-remove_route (text "/etc/nginx/") both [] app.domain plain.domain

abbrev same : Text → Text
same t = t

-- a Caddyfile with the blocks of both routes
abbrev head : Text
head = text "app.example.com {"

abbrev body : List Text
body =
    text "    reverse_proxy 10.0.0.1:8080 10.0.0.2:8080 {"
    ∷ text "        health_uri /health"
    ∷ text "    }"
    ∷ text "}"
    ∷ []

abbrev after : List Text
after = text "http://plain.example.com {" ∷ text "    reverse_proxy 10.0.0.5:3000" ∷ text "}" ∷ []

opens : Caddy.is_domain_line same same app.domain head ≡ true
unfolding Caddy.is_domain_line starts_with ends_with
opens = refl

foreign : CaddyLaws.IsForeign same same app.domain after
unfolding Caddy.is_domain_line starts_with ends_with
foreign = (refl, (refl, (refl, tt)))

block_lines : All IsLine (head ∷ body)
block_lines = are_lines-IsLine (head ∷ body) refl

after_lines : All IsLine after
after_lines = are_lines-IsLine after refl

remove_route_lem_example :
    let rest = Caddy.final_content same same app.domain (unlines ([] ++ after)) in
    (Caddy.remove_route same same app.domain no_faults
        (some (unlines ([] ++ head ∷ (body ++ after))))
      ≡ (ok tt, some rest))
    × (Caddy.remove_route same same app.domain no_faults (some (unlines ([] ++ after)))
        ≡ (ok tt, some rest))
remove_route_lem_example =
    CaddyLaws.remove_route_lem same same app.domain [] body after head tt block_lines after_lines tt
      opens (refl, (refl, (refl, refl))) foreign

rendered :
    Caddy.render_caddyfile (plain ∷ [])
    ≡ some (
        Caddy.concat (
          Caddy.ln "http://plain.example.com {"
          ∷ Caddy.ln "    reverse_proxy 10.0.0.5:3000"
          ∷ Caddy.ln "}"
          ∷ []))
unfolding Caddy.render_caddyfile Caddy.reverse_proxy Caddy.header
rendered = refl
