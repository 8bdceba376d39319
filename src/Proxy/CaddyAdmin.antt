-- ===== src/Proxy/CaddyAdmin.antt =====
-- The requests of src/adapters/proxy/caddy.rs to the administration API of Caddy.
use nexad.Prelude.{ℕ, ◌&&◌, Bool, false, Text, text, ◌++◌, leb, if◌then◌else◌}
use nexad.Result.{proxy, Result, ok, err, Outcome, failed, value}

-- What a response has: its status code, the text of the status, and its body, empty where it cannot be
-- read.
pub record HttpResponse : Type 0 where
  pub status : ℕ
  pub status_text : Text
  pub body : Text

abbrev pub is_success : ℕ → Bool
is_success status = leb 200 status && leb status 299

abbrev pub loaded : Outcome HttpResponse → Result (Unit {0})
loaded (failed e) = err (proxy (text "caddy reload request failed: " ++ e))
loaded (value r) =
    if is_success r.status
    then ok tt
    else err (proxy (text "caddy reload returned " ++ (r.status_text ++ (text ": " ++ r.body))))

-- `post` sends the content of the Caddyfile to an address, `get` asks for one.
unfoldable pub reload :
    (post : Text → Text → Outcome HttpResponse) (admin_api : Text) (file : Outcome Text)
    → Result (Unit {0})
reload post admin_api file = elim file [
  | failed e ↦ err (proxy (text "failed to read Caddyfile for reload: " ++ e))
  | value content ↦ loaded (post (admin_api ++ text "/load") content)
]

unfoldable pub health : (get : Text → Outcome HttpResponse) (admin_api : Text) → Result Bool
health get admin_api = elim (get (admin_api ++ text "/config/")) [
  | failed e ↦ ok false
  | value r ↦ ok (is_success r.status)
]
