-- ===== src/State/Routes.antt =====
-- `InMemoryRouteStore` of src/adapters/state/memory_route_store.rs, and `AcmeManager` of
-- src/adapters/tls/acme.rs on top of it. A method holds one lock throughout, so it is one step.
use nexad.Prelude.{
  ℕ, ◌+◌, ◌*◌, Bool, true, not, ◌&&◌, Option, none, some, List, [], ◌∷◌, ◌++◌, Text, text, ◌==◌,
  byte_eq, list_eq, if◌then◌else◌, leb, ltb, length, any, find, retain,
}
use nexad.HashMap
use nexad.HashMap.{HashMap, is_some}
use nexad.Result.{network, certificate, route_already_exists, Result, ok, err}

-- The fields that the store reads, of `Route` of the core library; `rest` stands for the others.
pub record Route {ℓ} (Rest : Type ℓ) : Type ℓ where
  pub domain : Text
  pub project : Text
  pub rest : Rest

-- Times are seconds since 1970.
pub record Certificate : Type 0 where
  pub domain : Text
  pub cert_pem : List ℕ
  pub key_pem_enc : List ℕ
  pub key_nonce : List ℕ
  pub issued_at : ℕ
  pub expires_at : ℕ
  pub acme_account : Option Text

pub record SubnetAllocation : Type 0 where
  pub node_id : Text
  pub project : Text
  pub subnet : Text

pub record InMemoryRouteStore {ℓ} (Rest : Type ℓ) : Type ℓ where
  pub routes : HashMap Text (Route Rest)
  pub certificates : HashMap Text Certificate
  pub subnets : List SubnetAllocation

-- `HashMap::values`
unfoldable pub values {ℓ} : {V : Type ℓ} → HashMap Text V → List V
values [] = []
values ((k, v) ∷ m) = v ∷ values m

abbrev pub of_project {ℓ} : {R : Type ℓ} → Option Text → Route R → Bool
of_project none r = true
of_project (some p) r = r.project == p

abbrev pub is_at : Text → Text → SubnetAllocation → Bool
is_at node_id project s = s.node_id == node_id && s.project == project

abbrev pub has_subnet : Text → SubnetAllocation → Bool
has_subnet subnet s = s.subnet == subnet

abbrev pub days : ℕ → ℕ
days n = 86400 * n

module _ {ℓ} {R : Type ℓ} where
  abbrev pub new : InMemoryRouteStore R
  new = record { routes = []; certificates = []; subnets = [] }

  unfoldable pub insert_route :
      InMemoryRouteStore R → Route R → Result (Unit {0}) × InMemoryRouteStore R
  insert_route s route =
      if HashMap.contains_key s.routes route.domain
      then (err (route_already_exists route.domain), s)
      else (ok tt, record s { routes = HashMap.insert s.routes route.domain route })

  unfoldable pub get_route : InMemoryRouteStore R → Text → Option (Route R)
  get_route s domain = HashMap.get s.routes domain

  unfoldable pub list_routes : InMemoryRouteStore R → Option Text → List (Route R)
  list_routes s project = retain (of_project project) (values s.routes)

  unfoldable pub delete_route : InMemoryRouteStore R → Text → Bool × InMemoryRouteStore R
  delete_route s domain =
      (is_some (HashMap.get s.routes domain), record s { routes = HashMap.remove s.routes domain })

  unfoldable pub upsert_certificate : InMemoryRouteStore R → Certificate → InMemoryRouteStore R
  upsert_certificate s cert = record s {
    certificates = HashMap.insert s.certificates cert.domain cert;
  }

  unfoldable pub get_certificate : InMemoryRouteStore R → Text → Option Certificate
  get_certificate s domain = HashMap.get s.certificates domain

  -- `now` is the time of the call
  unfoldable pub list_expiring_certificates : InMemoryRouteStore R → ℕ → ℕ → List Certificate
  list_expiring_certificates s now within_days =
      let threshold = now + days within_days in
      retain (λ c. leb c.expires_at threshold) (values s.certificates)

  unfoldable pub delete_certificate : InMemoryRouteStore R → Text → Bool × InMemoryRouteStore R
  delete_certificate s domain = (
    is_some (HashMap.get s.certificates domain),
    record s { certificates = HashMap.remove s.certificates domain },
  )

  unfoldable pub allocate_subnet :
      InMemoryRouteStore R → SubnetAllocation → Result (Unit {0}) × InMemoryRouteStore R
  allocate_subnet s alloc =
      if any (is_at alloc.node_id alloc.project) s.subnets
      then (
        err (
            network (
              text "subnet already allocated for node "
              ++ (alloc.node_id ++ (text " project " ++ alloc.project)))),
        s,
      )
      else if any (has_subnet alloc.subnet) s.subnets
      then (err (network (text "subnet " ++ (alloc.subnet ++ text " already in use"))), s)
      else (ok tt, record s { subnets = s.subnets ++ alloc ∷ [] })

  unfoldable pub get_node_subnet : InMemoryRouteStore R → Text → Text → Option SubnetAllocation
  get_node_subnet s node_id project = find (is_at node_id project) s.subnets

  unfoldable pub deallocate_subnet :
      InMemoryRouteStore R → Text → Text → Bool × InMemoryRouteStore R
  deallocate_subnet s node_id project =
      let len_before = length s.subnets in
      let left = retain (λ a. not (is_at node_id project a)) s.subnets in
      (ltb (length left) len_before, record s { subnets = left })

  -- `AcmeManager`: what a request does to the store, at the times `now` and `later` of its two
  -- readings of the clock.
  unfoldable pub import_certificate :
      InMemoryRouteStore R → ℕ → ℕ → Text → List ℕ → List ℕ → InMemoryRouteStore R
  import_certificate s now later domain cert_pem key_pem = upsert_certificate s (record {
    domain = domain;
    cert_pem = cert_pem;
    key_pem_enc = key_pem;
    key_nonce = 0 ∷ 0 ∷ 0 ∷ 0 ∷ 0 ∷ 0 ∷ 0 ∷ 0 ∷ 0 ∷ 0 ∷ 0 ∷ 0 ∷ [];
    issued_at = now;
    expires_at = later + days 90;
    acme_account = none;
  })

-- the placeholder: every request fails
unfoldable pub issue_certificate : Text → Result Certificate
issue_certificate domain = err (
    certificate (
      text "ACME issuance for '"
      ++ (domain ++ text "' requires network access and HTTP challenge validation")))

-- One pass of the renewal task's loop, for any `issue` and any store with these operations.
module _ {ℓ} {S : Type ℓ} (issue : Text → Result Certificate)
    (upsert : S → Certificate → Result (Unit {0}) × S) where
  unfoldable pub renew_all : List Certificate → S → S
  renew_all [] s = s
  renew_all (cert ∷ certs) s = elim (issue cert.domain) [
    | ok new_cert ↦ renew_all certs (upsert s new_cert).1
    | err e ↦ renew_all certs s
  ]

  unfoldable pub renewal_pass : (S → Result (List Certificate)) → S → S
  renewal_pass list_expiring s = elim (list_expiring s) [ ok certs ↦ renew_all certs s | err e ↦ s ]
