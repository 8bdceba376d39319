-- ===== src/Start/Choice.antt =====
-- What the arguments of the command line choose.
use nexad.Prelude.{
  Bool, Option, none, some, ◌++◌, Text, text, ◌==◌, byte_eq, list_eq, if◌then◌else◌,
}
use nexad.Result.{Outcome, failed, value}
use nexad.Runtime.Detect.{RuntimeKind, docker, from_str, resolve}

pub data Mode : Type 0 where
  single master worker : Mode

unfoldable pub mode_of : Text → Outcome Mode
mode_of mode =
    if mode == text "single"
    then value single
    else if mode == text "master"
    then value master
    else if mode == text "worker"
    then value worker
    else failed (text "unknown mode: " ++ (mode ++ text ". Use: single, master, or worker"))

-- A backend with the arguments that it is made with.
pub data ProxyBackend : Type 0 where
  nginx : (conf_dir nginx_bin : Text) → ProxyBackend
  caddy : (caddyfile admin_api : Text) → ProxyBackend
  traefik : (config_path : Text) → ProxyBackend
  nexa_proxy :
      (config_path binary_path http_listen : Text) (https_listen : Option Text) → ProxyBackend

-- `join` is that of paths
unfoldable pub proxy_of : (join : Text → Text → Text) (backend config_dir : Text) → ProxyBackend
proxy_of join backend config_dir =
    if backend == text "nginx"
    then nginx config_dir (text "nginx")
    else if backend == text "caddy"
    then caddy (join config_dir (text "Caddyfile")) (text "http://localhost:2019")
    else if backend == text "traefik"
    then traefik (join config_dir (text "nexa-dynamic.yml"))
    else nexa_proxy (join config_dir (text "proxy.json")) (text "nexa-proxy") (text "0.0.0.0:80")
        (some (text "0.0.0.0:443"))

abbrev pub unwrap_or {ℓ} : {A : Type ℓ} → A → Outcome A → A
unwrap_or d (failed e) = d
unwrap_or d (value a) = a

-- Where no runtime is found, Docker is taken.
unfoldable pub runtime_of :
    (to_lowercase : Text → Text) (probed : Bool × Bool) (runtime : Text) → Outcome RuntimeKind
runtime_of to_lowercase probed runtime = elim (from_str to_lowercase runtime) [
  | failed e ↦ failed e
  | value kind ↦ value (unwrap_or docker (resolve probed kind))
]

-- `none` for no provider; else the addresses to listen on and to forward to, and the master's IP
-- address. `parse` is that of a socket address; starting the provider is left out.
unfoldable pub dns_of {ℓ} :
    {Address : Type ℓ} (parse : Text → Outcome Address) (dns_mode dns_listen dns_upstream : Text)
    (master_ip : Option Text)
    → Outcome (Option (Address × (Address × Option Text)))
dns_of parse dns_mode dns_listen dns_upstream master_ip =
    if dns_mode == text "embedded"
    then elim (parse dns_listen) [
      | failed e ↦ failed (text "invalid --dns-listen address: " ++ e)
      | value listen ↦ elim (parse dns_upstream) [
        | failed e ↦ failed (text "invalid --dns-upstream address: " ++ e)
        | value upstream ↦ value (some (listen, (upstream, master_ip)))
      ]
    ]
    else value none

-- the master's address and the token of a worker
unfoldable pub worker_arguments : (join token : Option Text) → Outcome (Text × Text)
worker_arguments none token = failed (text "--join is required in worker mode")
worker_arguments (some join) none = failed (text "--token is required in worker mode")
worker_arguments (some join) (some token) = value (join, token)
