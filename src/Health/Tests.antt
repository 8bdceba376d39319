-- ===== src/Health/Tests.antt =====
-- A pod that answers and one that does not.
use nexad.Prelude.{
  ℕ, ◌≡◌, refl, true, false, [], ◌∷◌, Text, text, ◌==◌, byte_eq, list_eq, if◌then◌else◌,
}
use nexad.Str.Decimal.{show}
use nexad.Health.Checker.{ProbeConfig, Probed, responded, timed_out, url_of, probe, reports}

abbrev config : Text → ProbeConfig
config ip = record { container_ip = ip; port = 80; path = text "/health"; timeout = 5 }

abbrev get : Text → ℕ → Probed
get url timeout = if url == text "http://10.0.0.2:80/health" then responded 204 else timed_out

two_pods :
    reports get ((1, config (text "10.0.0.2")) ∷ (2, config (text "10.0.0.3")) ∷ [])
    ≡ (1, true) ∷ (2, false) ∷ []
unfolding reports probe url_of show
two_pods = refl
