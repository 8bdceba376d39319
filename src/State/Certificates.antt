-- ===== src/State/Certificates.antt =====
-- Certificates: what is listed as expiring after any run of requests, and the renewal task.
use nexad.Prelude.{
  ℕ, ◌+◌, ◌≡◌, refl, ap, ◌∙◌, ◌⊎◌, inl, inr, Bool, Option, none, some, List, [], ◌∷◌, Text, ◌==◌,
  byte_eq, list_eq, if◌then◌else◌, find, leb,
}
use nexad.HashMap
use nexad.HashMap.{HashMap, is_some, get-insert, get-remove, HasDistinctKeys}
use nexad.Result.{Result, Result-cases}
use nexad.State.Routes.{
  Certificate, InMemoryRouteStore, days, new, upsert_certificate, get_certificate,
  list_expiring_certificates, delete_certificate, issue_certificate, renew_all, renewal_pass,
}
use nexad.State.Keyed.{filter_option, IsKeyed, find-values, insert-IsKeyed, remove-IsKeyed}

-- The same run seen from one domain: the last writing counts until a deletion.
unfoldable pub certificate_after :
    List (Certificate ⊎ Text) → Text → Option Certificate → Option Certificate
certificate_after [] d held = held
certificate_after (inl cert ∷ rs) d held =
    certificate_after rs d (if cert.domain == d then some cert else held)
certificate_after (inr domain ∷ rs) d held =
    certificate_after rs d (if domain == d then none else held)

module _ {ℓ} {R : Type ℓ} where
  -- the store after a run of writings (`inl`) and deletions (`inr`) of certificates
  unfoldable pub run_certificates :
      List (Certificate ⊎ Text) → InMemoryRouteStore R → InMemoryRouteStore R
  run_certificates [] s = s
  run_certificates (inl cert ∷ rs) s = run_certificates rs (upsert_certificate s cert)
  run_certificates (inr domain ∷ rs) s = run_certificates rs (delete_certificate s domain).1

  get_certificate-run :
      (rs : List (Certificate ⊎ Text)) (s : InMemoryRouteStore R) (d : Text)
      → get_certificate (run_certificates rs s) d ≡ certificate_after rs d (get_certificate s d)
  unfolding run_certificates certificate_after upsert_certificate delete_certificate get_certificate
  get_certificate-run [] s d = refl
  get_certificate-run (inl cert ∷ rs) s d =
      get_certificate-run rs (upsert_certificate s cert) d
      ∙ ap (certificate_after rs d) (get-insert s.certificates cert.domain d cert)
  get_certificate-run (inr domain ∷ rs) s d =
      get_certificate-run rs (delete_certificate s domain).1 d
      ∙ ap (certificate_after rs d) (get-remove s.certificates domain d)

  run_certificates-IsKeyed :
      (rs : List (Certificate ⊎ Text)) (s : InMemoryRouteStore R)
      → IsKeyed Certificate.domain s.certificates
      → IsKeyed Certificate.domain (run_certificates rs s).certificates
  unfolding run_certificates upsert_certificate delete_certificate
  run_certificates-IsKeyed [] s w = w
  run_certificates-IsKeyed (inl cert ∷ rs) s w =
      run_certificates-IsKeyed rs (upsert_certificate s cert)
        (insert-IsKeyed Certificate.domain s.certificates cert w)
  run_certificates-IsKeyed (inr domain ∷ rs) s w =
      run_certificates-IsKeyed rs (delete_certificate s domain).1
        (remove-IsKeyed Certificate.domain s.certificates domain w)

-- After any run of writings and deletions on an empty store, the certificates listed as expiring
-- are, domain by domain, the last ones written and not deleted, where they expire within the days.
pub list_expiring_certificates-run {ℓ} :
    (R : Type ℓ) (rs : List (Certificate ⊎ Text)) (now within_days : ℕ) (d : Text)
    → find
        (λ c. c.domain == d)
        (list_expiring_certificates (run_certificates rs (new {R = R})) now within_days)
      ≡ filter_option (λ c. leb c.expires_at (now + days within_days)) (certificate_after rs d none)
unfolding list_expiring_certificates get_certificate HashMap.get
list_expiring_certificates-run R rs now within_days d =
    let s = run_certificates rs (new {R = R}) in
    let q : Certificate → Bool = λ c. leb c.expires_at (now + days within_days) in
    find-values Certificate.domain q s.certificates d (run_certificates-IsKeyed rs (new {R = R}) tt)
    ∙ ap (filter_option q) (get_certificate-run rs (new {R = R}) d)

renew_none {ℓ} :
    {S : Type ℓ} (upsert : S → Certificate → Result (Unit {0}) × S) (certs : List Certificate)
    (s : S)
    → renew_all issue_certificate upsert certs s ≡ s
unfolding renew_all issue_certificate
renew_none upsert [] s = refl
renew_none upsert (c ∷ certs) s = renew_none upsert certs s

-- A pass of the renewal task leaves every store as it was, whatever certificates expire and however
-- the store behaves: the placeholder refuses each request.
pub renewal_pass-issue_certificate {ℓ} :
    {S : Type ℓ} (upsert : S → Certificate → Result (Unit {0}) × S)
    (list_expiring : S → Result (List Certificate)) (s : S)
    → renewal_pass issue_certificate upsert list_expiring s ≡ s
unfolding renewal_pass
renewal_pass-issue_certificate upsert list_expiring s = elim (Result-cases (list_expiring s)) [
  | inl (certs, h) ↦ rw (h, renewal_pass) (renew_none upsert certs s)
  | inr (e, h) ↦ rw (h, renewal_pass) refl
]
