-- ===== src/Proxy/Nginx.antt =====
-- `NginxBackend` of src/adapters/proxy/nginx.rs: one file for a domain, in one directory.
use nexad.Prelude.{
  String, Bool, Option, none, some, List, [], ◌∷◌, ◌++◌, map, Text, text, byte_eq, list_eq,
  if◌then◌else◌, ltb,
}
use nexad.HashMap.{HashMap, insert, remove}
use nexad.Str.{replace}
use nexad.Str.Decimal.{show}
use nexad.Result.{proxy, Result, ok, err}
use nexad.Proxy.Config.{TlsConfig, off, auto, manual, Upstream, RouteConfig, Outcome, failed, value}

-- the text and a line feed
abbrev ln : String → Text
ln s = text s ++ (10 ∷ [])

abbrev pub concat : List Text → Text
concat [] = []
concat (t ∷ ts) = t ++ concat ts

-- `.` and `-` as `_`
unfoldable pub domain_underscored : Text → Text
domain_underscored domain = replace 45 95 (replace 46 95 domain)

abbrev upstream_line : Upstream → Text
upstream_line up =
    if ltb 1 up.weight
    then text "    server " ++ (up.address ++ (text " weight=" ++ (show up.weight ++ ln ";")))
    else text "    server " ++ (up.address ++ ln ";")

-- the headers' lines, each as far in as the code moves it
abbrev proxy_headers : Text
proxy_headers = concat (
    ln "    proxy_set_header Host $host;"
    ∷ ln "    proxy_set_header X-Real-IP $remote_addr;"
    ∷ ln "    proxy_set_header X-Forwarded-For $proxy_add_x_forwarded_for;"
    ∷ ln "    proxy_set_header X-Forwarded-Proto $scheme;"
    ∷ [])

abbrev server_name : Text → Text
server_name domain = text "    server_name " ++ (domain ++ (ln ";" ++ ln ""))

-- `location /` that passes to the upstream, with the ends of the blocks
abbrev location : Text → Text
location domain = concat (
    ln "    location / {"
    ∷ text "        proxy_pass http://"
    ∷ domain_underscored domain
    ∷ ln ";"
    ∷ proxy_headers
    ∷ ln "    }"
    ∷ ln "}"
    ∷ [])

-- the redirection to HTTPS, with the ends of the blocks
abbrev redirect : Text
redirect = concat (
    ln "    location / {"
    ∷ ln "        return 301 https://$host$request_uri;"
    ∷ ln "    }"
    ∷ ln "}"
    ∷ ln ""
    ∷ [])

unfoldable pub server_blocks : Text → TlsConfig → Text
server_blocks domain off =
    concat (ln "server {" ∷ ln "    listen 80;" ∷ server_name domain ∷ location domain ∷ [])
server_blocks domain (auto email) = concat (
    ln "server {"
    ∷ ln "    listen 80;"
    ∷ server_name domain
    ∷ ln "    location /.well-known/acme-challenge/ {"
    ∷ ln "        root /var/www/certbot;"
    ∷ ln "    }"
    ∷ ln ""
    ∷ redirect
    ∷ ln "server {"
    ∷ ln "    listen 443 ssl;"
    ∷ server_name domain
    ∷ text "    ssl_certificate /etc/letsencrypt/live/"
    ∷ domain
    ∷ ln "/fullchain.pem;"
    ∷ text "    ssl_certificate_key /etc/letsencrypt/live/"
    ∷ domain
    ∷ ln "/privkey.pem;"
    ∷ text "    # Managed by Certbot for "
    ∷ email
    ∷ ln ""
    ∷ ln ""
    ∷ location domain
    ∷ [])
server_blocks domain (manual cert key) = concat (
    ln "server {"
    ∷ ln "    listen 80;"
    ∷ server_name domain
    ∷ redirect
    ∷ ln "server {"
    ∷ ln "    listen 443 ssl;"
    ∷ server_name domain
    ∷ text "    ssl_certificate "
    ∷ cert
    ∷ ln ";"
    ∷ text "    ssl_certificate_key "
    ∷ key
    ∷ ln ";"
    ∷ ln ""
    ∷ location domain
    ∷ [])

unfoldable pub render_config : RouteConfig → Text
render_config route = concat (
    text "upstream "
    ∷ domain_underscored route.domain
    ∷ ln " {"
    ∷ concat (map upstream_line route.upstream)
    ∷ ln "}"
    ∷ ln ""
    ∷ server_blocks route.domain route.tls
    ∷ [])

-- `conf_dir` ends with the separator. The files are those of the directory, by their paths; `fault`
-- is what the file system reports for a path, and the file as a failed writing leaves it.
module _ (conf_dir : Text) where
  unfoldable pub conf_path : Text → Text
  conf_path domain = conf_dir ++ (text "nexa-" ++ (domain ++ text ".conf"))

  abbrev left : HashMap Text Text → Text → Option Text → HashMap Text Text
  left files path none = remove files path
  left files path (some part) = insert files path part

  unfoldable pub apply_routes :
      (Text → Option (Text × Option Text))
      → List RouteConfig
      → HashMap Text Text
      → Result (Unit {0}) × HashMap Text Text
  apply_routes fault [] files = (ok tt, files)
  apply_routes fault (route ∷ routes) files =
      let path = conf_path route.domain in
      elim (fault path) [
        | none ↦ apply_routes fault routes (insert files path (render_config route))
        | some (e, part) ↦ (
          err (proxy (text "failed to write nginx config " ++ (path ++ (text ": " ++ e)))),
          left files path part,
        )
      ]

  -- A file that is not there counts as removed: only another fault is one.
  unfoldable pub remove_route :
      (Text → Option Text) → Text → HashMap Text Text → Result (Unit {0}) × HashMap Text Text
  remove_route fault domain files =
      let path = conf_path domain in
      elim (fault path) [
        | none ↦ (ok tt, remove files path)
        | some e ↦ (
          err (proxy (text "failed to remove nginx config " ++ (path ++ (text ": " ++ e)))),
          files,
        )
      ]

-- What running the program gives: the text of the error, or whether it succeeded and its errors.
unfoldable pub reload : Outcome (Bool × Text) → Result (Unit {0})
reload (failed e) = err (proxy (text "failed to run nginx reload: " ++ e))
reload (value (success, stderr)) =
    if success then ok tt else err (proxy (text "nginx reload failed: " ++ stderr))

unfoldable pub health : Outcome (Bool × Text) → Result Bool
health (failed e) = err (proxy (text "failed to run nginx -t: " ++ e))
health (value (success, stderr)) = ok success
