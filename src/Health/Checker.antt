-- ===== src/Health/Checker.antt =====
-- `HealthChecker` of src/adapters/health/mod.rs: what a tick reports to the orchestrator.
use nexad.Prelude.{ℕ, ◌&&◌, Bool, false, List, ◌++◌, map, Text, text, leb}
use nexad.Str.Decimal.{show}

pub record ProbeConfig : Type 0 where
  pub container_ip : Text
  pub port : ℕ
  pub path : Text
  pub timeout : ℕ

unfoldable pub url_of : ProbeConfig → Text
url_of config =
    text "http://" ++ (config.container_ip ++ (text ":" ++ (show config.port ++ config.path)))

-- how a request within a time ends: with the status of a response, an error, or the time
pub data Probed : Type 0 where
  responded : ℕ → Probed
  failed : Text → Probed
  timed_out : Probed

abbrev pub is_healthy : Probed → Bool
is_healthy (responded status) = leb 200 status && leb status 299
is_healthy (failed e) = false
is_healthy timed_out = false

-- `get` is a request to an address within a time.
unfoldable pub probe : (get : Text → ℕ → Probed) → ProbeConfig → Bool
unfolding url_of
probe get config = is_healthy (get (url_of config) config.timeout)

-- The reports of one tick, one for each target: the probes run at the same time, so that their order
-- is open.
unfoldable pub reports : (get : Text → ℕ → Probed) → List (ℕ × ProbeConfig) → List (ℕ × Bool)
unfolding probe
reports get targets = map (λ t. (t.0, probe get t.1)) targets
