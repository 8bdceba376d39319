-- ===== src/State/Tests.antt =====
-- The route store on small runs.
use nexad.Prelude.{
  ◌≡◌, refl, none, some, List, [], ◌∷◌, Text, text, ◌==◌, byte_eq, list_eq, inl, inr, ◌⊎◌, find,
  ◌+◌, leb, not, any, ◌&&◌, if◌then◌else◌,
}
use nexad.Result.{Result, ok, is_ok}
use nexad.HashMap
use nexad.State.Routes.{
  delete_route, Route, Certificate, SubnetAllocation, InMemoryRouteStore, of_project, days, new,
  insert_route, get_route, list_routes, list_expiring_certificates, allocate_subnet,
  get_node_subnet, deallocate_subnet, has_subnet, issue_certificate, renewal_pass, values,
  upsert_certificate,
}
use nexad.State.Keyed.{filter_option}
use nexad.State.RouteLaws.{run, route_after, get_route-run, list_routes-run}
use nexad.State.Certificates.{
  run_certificates, certificate_after, list_expiring_certificates-run,
  renewal_pass-issue_certificate,
}
use nexad.State.Subnets
use nexad.HashMap.{is_some}
use nexad.State.Subnets.{Request, run_exclusive, allocate_subnet_lem, deallocate_subnet_lem}

abbrev route : Text → Text → Route (Unit {0})
route domain project = record { domain = domain; project = project; rest = tt }

abbrev requests : List (Route (Unit {0}) ⊎ Text)
requests =
    inl (route (text "a.org") (text "p"))
    ∷ inl (route (text "a.org") (text "q"))
    ∷ inl (route (text "b.org") (text "q"))
    ∷ inr (text "a.org")
    ∷ inl (route (text "a.org") (text "q"))
    ∷ []

listed :
    list_routes (run requests new) (some (text "q"))
    ≡ route (text "b.org") (text "q") ∷ route (text "a.org") (text "q") ∷ []
unfolding run insert_route list_routes values HashMap.get HashMap.insert HashMap.remove
    HashMap.contains_key delete_route
listed = refl

get_route-run_example :
    get_route (run requests new) (text "a.org")
    ≡ route_after requests (text "a.org") (get_route new (text "a.org"))
get_route-run_example = get_route-run requests new (text "a.org")

list_routes-run_example :
    find (λ r. r.domain == text "a.org") (list_routes (run requests new) (some (text "q")))
    ≡ filter_option (of_project (some (text "q"))) (get_route (run requests new) (text "a.org"))
list_routes-run_example = list_routes-run (Unit {0}) requests (some (text "q")) (text "a.org")

abbrev cert : Text → Certificate
cert domain = record {
  domain = domain;
  cert_pem = 1 ∷ [];
  key_pem_enc = 2 ∷ [];
  key_nonce = [];
  issued_at = 0;
  expires_at = days 90;
  acme_account = none;
}

abbrev writings : List (Certificate ⊎ Text)
writings = inl (cert (text "a.org")) ∷ inl (cert (text "b.org")) ∷ inr (text "a.org") ∷ []

list_expiring_certificates-run_example :
    find
      (λ c. c.domain == text "b.org")
      (list_expiring_certificates (run_certificates writings (new {R = Unit {0}})) (days 70) 30)
    ≡ filter_option
        (λ c. leb c.expires_at (days 70 + days 30))
        (certificate_after writings (text "b.org") none)
list_expiring_certificates-run_example =
    list_expiring_certificates-run (Unit {0}) writings (days 70) 30 (text "b.org")

abbrev upsert_ok :
    InMemoryRouteStore (Unit {0}) → Certificate → Result (Unit {0}) × InMemoryRouteStore (Unit {0})
upsert_ok s c = (ok tt, upsert_certificate s c)

abbrev held : InMemoryRouteStore (Unit {0})
held = record { routes = []; certificates = (text "a.org", cert (text "a.org")) ∷ []; subnets = [] }

placeholder_renewed :
    renewal_pass issue_certificate upsert_ok
      (λ s. ok (list_expiring_certificates s (days 70) 30))
      held
    ≡ held
placeholder_renewed =
    renewal_pass-issue_certificate upsert_ok (λ s. ok (list_expiring_certificates s (days 70) 30))
      held

abbrev alloc : Text → Text → SubnetAllocation
alloc node subnet = record { node_id = node; project = text "p"; subnet = subnet }

abbrev subnet_requests : List Request
subnet_requests =
    inl (alloc (text "n1") (text "172.20.1.0/24"))
    ∷ inl (alloc (text "n2") (text "172.20.1.0/24"))
    ∷ inl (alloc (text "n1") (text "172.20.2.0/24"))
    ∷ inr (text "n1", text "p")
    ∷ inl (alloc (text "n2") (text "172.20.1.0/24"))
    ∷ []

run_exclusive_example : (text "n2" ≡ text "n2") × (text "p" ≡ text "p")
unfolding Subnets.run allocate_subnet deallocate_subnet get_node_subnet
run_exclusive_example =
    run_exclusive (Unit {0}) subnet_requests (text "n2") (text "p") (text "n2") (text "p")
      (alloc (text "n2") (text "172.20.1.0/24")) (alloc (text "n2") (text "172.20.1.0/24")) refl
      refl refl

abbrev taken : InMemoryRouteStore (Unit {0})
taken = record new { subnets = alloc (text "n1") (text "172.20.1.0/24") ∷ [] }

abbrev second : SubnetAllocation
second = alloc (text "n2") (text "172.20.1.0/24")

subnet_given :
    let done = allocate_subnet taken second in
    (is_ok done.0 ≡ (
      not (is_some (get_node_subnet taken (text "n2") (text "p")))
      && not (any (has_subnet (text "172.20.1.0/24")) taken.subnets)))
    × ((n p : Text)
        → get_node_subnet done.1 n p ≡ (
            if is_ok done.0 && (text "n2" == n && text "p" == p)
            then some second
            else get_node_subnet taken n p))
subnet_given = allocate_subnet_lem taken second

held_subnet_freed :
    let done = deallocate_subnet taken (text "n1") (text "p") in
    (done.0 ≡ is_some (get_node_subnet taken (text "n1") (text "p")))
    × ((n' p' : Text)
        → get_node_subnet done.1 n' p'
          ≡ (if n' == text "n1" && p' == text "p" then none else get_node_subnet taken n' p'))
held_subnet_freed = deallocate_subnet_lem taken (text "n1") (text "p")
