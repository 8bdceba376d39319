-- ===== src/Proxy/NexaProxy.antt =====
-- `NexaProxyBackend` of src/adapters/proxy/nexa_proxy.rs: its configuration file and its child.
use nexad.Prelude.{
  ℕ, Bool, false, Option, none, some, List, [], ◌∷◌, ◌++◌, map, Text, text, byte_eq, list_eq,
}
use nexad.HashMap.{HashMap, insert, remove, is_some}
use nexad.Result.{proxy, Result, ok, err}
use nexad.Proxy.Config.{
  TlsConfig, off, auto, manual, Upstream, RouteConfig, Faults, Outcome, failed, value, Form,
  write_file,
}

pub record NexaProxyUpstream : Type 0 where
  pub address : Text
  pub weight : ℕ

pub record NexaProxyTls : Type 0 where
  pub cert_path : Option Text
  pub key_path : Option Text
  pub acme_email : Option Text

pub record NexaProxyRoute : Type 0 where
  pub upstreams : List NexaProxyUpstream
  pub tls : Option NexaProxyTls

pub record NexaProxyConfig : Type 0 where
  pub http_listen : Text
  pub https_listen : Option Text
  pub routes : HashMap Text NexaProxyRoute

abbrev pub upstream_of : Upstream → NexaProxyUpstream
upstream_of u = record { address = u.address; weight = u.weight }

abbrev pub tls_of : TlsConfig → Option NexaProxyTls
tls_of off = none
tls_of (auto email) = some (record { cert_path = none; key_path = none; acme_email = some email })
tls_of (manual cert key) =
    some (record { cert_path = some cert; key_path = some key; acme_email = none })

unfoldable pub route_of : RouteConfig → NexaProxyRoute
route_of route = record { upstreams = map upstream_of route.upstream; tls = tls_of route.tls }

-- the loop of `build_config`
abbrev pub add_routes : HashMap Text NexaProxyRoute → List RouteConfig → HashMap Text NexaProxyRoute
add_routes m [] = m
add_routes m (route ∷ routes) = add_routes (insert m route.domain (route_of route)) routes

-- `json` is `serde_json` with the pretty form.
module _ (json : Form NexaProxyConfig) (config_path binary_path http_listen : Text)
    (https_listen : Option Text) where
  unfoldable pub build_config : List RouteConfig → NexaProxyConfig
  build_config routes = record {
    http_listen = http_listen;
    https_listen = https_listen;
    routes = add_routes [] routes;
  }

  unfoldable pub write_config_sync :
      Faults → NexaProxyConfig → Option Text → Result (Unit {0}) × Option Text
  write_config_sync fs config file = elim (json.to_string config) [
    | failed e ↦ (err (proxy (text "failed to serialize nexa-proxy config: " ++ e)), file)
    | value content ↦
        write_file
          (λ e.
            proxy (text "failed to write nexa-proxy config " ++ (config_path ++ (text ": " ++ e))))
          fs.writing content file
  ]

  unfoldable pub apply_routes :
      Faults → List RouteConfig → Option Text → Result (Unit {0}) × Option Text
  apply_routes fs routes file = write_config_sync fs (build_config routes) file

  abbrev pub without : Text → NexaProxyConfig → NexaProxyConfig
  without domain config = record config { routes = remove config.routes domain }

  abbrev pub rewrite : Faults → Text → Text → Option Text → Result (Unit {0}) × Option Text
  rewrite fs domain content file = elim (json.from_str content) [
    | failed e ↦ (err (proxy (text "failed to parse nexa-proxy config: " ++ e)), file)
    | value config ↦ write_config_sync fs (without domain config) file
  ]

  -- A file that cannot be read counts as one that is not there.
  unfoldable pub remove_route : Faults → Text → Option Text → Result (Unit {0}) × Option Text
  remove_route fs domain none = (ok tt, none)
  remove_route fs domain (some content) = elim fs.reading [
    | some e ↦ (ok tt, some content)
    | none ↦ rewrite fs domain content (some content)
  ]

  -- The child that is kept, as its process id while it has one. A running child is killed before the
  -- new one is spawned; where that fails, the killed one stays in its place.
  abbrev pub Child : Type 0
  Child = Option (Option ℕ)

  -- `spawned` is the new child's id or the error; the result says which child was told to end.
  unfoldable pub start_child : Outcome (Option ℕ) → Child → (Result (Unit {0}) × Child) × Child
  start_child (failed e) child = (
    (
      err (
          proxy (text "failed to spawn nexa-proxy binary '" ++ (binary_path ++ (text "': " ++ e)))),
      child,
    ),
    child,
  )
  start_child (value id) child = ((ok tt, some id), child)

  unfoldable pub reload : Outcome (Option ℕ) → Child → (Result (Unit {0}) × Child) × Child
  unfolding start_child
  reload spawned child = start_child spawned child

  unfoldable pub health : Child → Bool
  health none = false
  health (some id) = is_some id
