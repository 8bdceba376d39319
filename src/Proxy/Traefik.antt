-- ===== src/Proxy/Traefik.antt =====
-- `TraefikBackend` of src/adapters/proxy/traefik.rs: the dynamic configuration of the routes.
use nexad.Prelude.{
  ℕ, Bool, true, false, Option, none, some, List, [], ◌∷◌, ◌++◌, map, Text, text, byte_eq, list_eq,
  if◌then◌else◌, ltb,
}
use nexad.HashMap.{HashMap, insert, remove}
use nexad.Str.{replace}
use nexad.Result.{NexaError, proxy, Result, ok, err}
use nexad.Proxy.Config.{
  TlsConfig, off, auto, manual, Upstream, RouteConfig, Faults, Outcome, failed, value, Form,
  write_file,
}

pub record TraefikTls : Type 0 where
  pub cert_resolver : Option Text

pub record TraefikRouter : Type 0 where
  pub rule : Text
  pub entry_points : List Text
  pub service : Text
  pub tls : Option TraefikTls

pub record TraefikServer : Type 0 where
  pub url : Text
  pub weight : Option ℕ

pub record TraefikHealthCheck : Type 0 where
  pub path : Text
  pub interval : Text

pub record TraefikLoadBalancer : Type 0 where
  pub servers : List TraefikServer
  pub health_check : TraefikHealthCheck

pub record TraefikService : Type 0 where
  pub load_balancer : TraefikLoadBalancer

-- The maps are sorted by their keys in the code, which only shows in the YAML form.
pub record TraefikHttp : Type 0 where
  pub routers : HashMap Text TraefikRouter
  pub services : HashMap Text TraefikService

pub record TraefikDynamicConfig : Type 0 where
  pub http : TraefikHttp

abbrev pub default_config : TraefikDynamicConfig
default_config = record { http = record { routers = []; services = [] } }

-- `.` as `-`
unfoldable pub sanitized : Text → Text
sanitized domain = replace 46 45 domain

abbrev pub router_name : Text → Text
router_name domain = text "nexa-" ++ sanitized domain

abbrev pub service_name : Text → Text
service_name domain = text "nexa-svc-" ++ sanitized domain

unfoldable pub entry_and_tls : TlsConfig → List Text × Option TraefikTls
entry_and_tls off = (text "web" ∷ [], none)
entry_and_tls (auto email) =
    (text "websecure" ∷ [], some (record { cert_resolver = some (text "letsencrypt") }))
entry_and_tls (manual cert key) = (text "websecure" ∷ [], some (record { cert_resolver = none }))

unfoldable pub server_of : Upstream → TraefikServer
server_of u = record {
  url = text "http://" ++ u.address;
  weight = if ltb 1 u.weight then some u.weight else none;
}

unfoldable pub router_of : RouteConfig → TraefikRouter
unfolding entry_and_tls
router_of route = record {
  rule = text "Host(`" ++ (route.domain ++ text "`)");
  entry_points = (entry_and_tls route.tls).0;
  service = service_name route.domain;
  tls = (entry_and_tls route.tls).1;
}

unfoldable pub service_of : RouteConfig → TraefikService
unfolding server_of
service_of route = record {
  load_balancer = record {
    servers = map server_of route.upstream;
    health_check = record { path = text "/health"; interval = text "10s" };
  };
}

-- one round of the loop of `render_config`
abbrev pub add_route : TraefikDynamicConfig → RouteConfig → TraefikDynamicConfig
add_route config route = record {
  http = record {
    routers = insert config.http.routers (router_name route.domain) (router_of route);
    services = insert config.http.services (service_name route.domain) (service_of route);
  };
}

abbrev pub render_onto : TraefikDynamicConfig → List RouteConfig → TraefikDynamicConfig
render_onto config [] = config
render_onto config (route ∷ routes) = render_onto (add_route config route) routes

unfoldable pub render_config : List RouteConfig → TraefikDynamicConfig
render_config routes = render_onto default_config routes

abbrev pub without : Text → TraefikDynamicConfig → TraefikDynamicConfig
without domain config = record {
  http = record {
    routers = remove config.http.routers (router_name domain);
    services = remove config.http.services (service_name domain);
  };
}

abbrev pub failure : Text → Text → NexaError
failure what e = proxy (what ++ e)

-- `yaml` is `serde_yaml`; the file is its content, where it is there.
module _ (yaml : Form TraefikDynamicConfig) (config_path : Text) where
  -- the text of a configuration, written
  abbrev pub save :
      (Text → NexaError)
      → Faults
      → TraefikDynamicConfig
      → Option Text
      → Result (Unit {0}) × Option Text
  save wrap fs config file = elim (yaml.to_string config) [
    | failed e ↦ (err (failure (text "failed to serialize traefik config: ") e), file)
    | value content ↦ write_file wrap fs.writing content file
  ]

  unfoldable pub apply_routes :
      Faults → List RouteConfig → Option Text → Result (Unit {0}) × Option Text
  apply_routes fs routes file =
      let wrap = failure (text "failed to write traefik config " ++ (config_path ++ text ": ")) in
      save wrap fs (render_config routes) file

  abbrev pub rewrite : Faults → Text → Text → Option Text → Result (Unit {0}) × Option Text
  rewrite fs domain content file = elim (yaml.from_str content) [
    | failed e ↦ (err (failure (text "failed to parse traefik config: ") e), file)
    | value config ↦
        save (failure (text "failed to rewrite traefik config: ")) fs (without domain config) file
  ]

  unfoldable pub remove_route : Faults → Text → Option Text → Result (Unit {0}) × Option Text
  remove_route fs domain none = elim fs.reading [
    | none ↦ (ok tt, none)
    | some e ↦ (err (failure (text "failed to read traefik config: ") e), none)
  ]
  remove_route fs domain (some content) = elim fs.reading [
    | none ↦ rewrite fs domain content (some content)
    | some e ↦ (err (failure (text "failed to read traefik config: ") e), some content)
  ]

  abbrev pub is_value : Outcome TraefikDynamicConfig → Bool
  is_value (failed e) = false
  is_value (value a) = true

  unfoldable pub health : Faults → Option Text → Bool
  health fs none = false
  health fs (some content) = elim fs.reading [
    | some e ↦ false
    | none ↦ is_value (yaml.from_str content)
  ]
