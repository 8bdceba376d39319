-- ===== src/Dns/Tests.antt =====
-- The DNS component on concrete names and messages, after the tests of record_store.rs and hickory.rs.
use nexad.Prelude.{
  ℕ, ◌+◌, ◌≡◌, refl, Option, none, some, List, [], ◌∷◌, ◌++◌, arith, Text, text, byte_eq, list_eq,
  length, retain, is_empty, if◌then◌else◌, ◌≤◌, ◌<◌, ◌-◌,
}
use nexad.HashMap
use nexad.Str.{cut, splitn, rsplit_once, trim_end_matches, join, ends_with}
use nexad.Str.Decimal.{parse_uint, show}
use nexad.Str.Utf8.{valid_utf8}
use nexad.Dns.Address.{IpAddr, v4, v6}
use nexad.Dns.Records.{
  DnsRecordStore, new, register, deregister, lookup, or_default, resolve_replica, put_project,
  retain_other, resolve_host, resolve_parts, resolve, lookup_replica,
}
use nexad.Dns.History.{Op, add, remove, run, history, lookup-run}
use nexad.Dns.Clean.{run-eq-new}
use nexad.Dns.Resolve.{
  full_name, dots, IsAnswer, resolve_replica_name, resolve_deployment_name, resolve_sound,
}
use nexad.Result.{value}
use nexad.Dns.Server.{serve_udp, handle_tcp_dns_client}
use nexad.Dns.Framing.{framed, read_framed, handle_tcp_dns_client-serve_udp}
use nexad.Dns.Wire.{
  matches, answer_question, handle_dns_query, parse_labels, parse_question, build_dns_response,
}
use nexad.Dns.Wire.Question.{encode_name, parse_question_bounds}
use nexad.Dns.Wire.LabelLoop.{RunsTo, parse_labels_terminates}
use nexad.Dns.Wire.Answer.{Response, rcode, read_response, read_response-build_dns_response}
use nexad.Dns.Wire.Query.{query, internal_labels, question_len, handle_dns_query_internal}

abbrev shop : Text
shop = text "shop"

abbrev api : Text
api = text "api"

abbrev web : Text
web = text "web"

abbrev first : IpAddr
first = v4 10 0 0 1

abbrev second : IpAddr
second = v4 10 0 0 2

abbrev script : List Op
script =
    add shop api first
    ∷ add shop api second
    ∷ add shop api first
    ∷ add shop web second
    ∷ remove shop web second
    ∷ []

store : DnsRecordStore
unfolding run register deregister put_project retain_other HashMap.get HashMap.insert HashMap.remove
    lookup lookup_replica resolve resolve_parts resolve_host resolve_replica splitn cut rsplit_once
    trim_end_matches parse_uint
store = run script new

lookup_twice : lookup store shop api ≡ first ∷ second ∷ []
unfolding store
lookup_twice = refl

resolve-trailing_dot : resolve store (text "api.shop.internal.") ≡ some (first ∷ second ∷ [])
unfolding store
resolve-trailing_dot = refl

resolve-second : resolve store (text "api-1.shop.internal") ≡ some (second ∷ [])
unfolding store
resolve-second = refl

resolve-foreign : resolve store (text "api.shop.com") ≡ none
unfolding store
resolve-foreign = refl

lookup-run_example :
    lookup (run script new) shop api ≡ history script shop api (lookup new shop api)
lookup-run_example = lookup-run script new shop api

abbrev both : List Op
both = add shop api first ∷ remove shop api first ∷ []

history-both : (p d : Text) → history both p d [] ≡ []
unfolding history
history-both p d = ground arith

run-eq-new_example : run both new ≡ new
run-eq-new_example = run-eq-new both history-both

resolve_replica_name_example :
    resolve store (full_name (api ++ b'-' ∷ show 1) shop ++ dots 1) ≡ some (second ∷ [])
unfolding store
resolve_replica_name_example =
    resolve_replica_name store shop api 1 1 second (omega arith) (omega arith) (omega arith) refl

two_addresses :
    resolve store (full_name api shop ++ dots 0)
    ≡ (if is_empty (lookup store shop api) then none else some (lookup store shop api))
two_addresses = resolve_deployment_name store shop api 0 (omega arith) (omega arith) (omega arith)

resolve_sound_example : (p : Text) × IsAnswer store p (second ∷ [])
resolve_sound_example =
    resolve_sound store (text "api-1.shop.internal") (second ∷ []) resolve-second

abbrev message : List ℕ
message = query 7 256 (internal_labels api shop) 1 []

abbrev lower : Text → Text
lower s = s

abbrev no_upstream : List ℕ → Option (List ℕ)
no_upstream bytes = none

handle_dns_query_internal_example :
    (bytes : List ℕ) × (r : Response) × (handle_dns_query lower no_upstream message store
      ≡ some bytes)
    × (read_response (question_len (internal_labels api shop)) bytes ≡ some r)
    × (r.id ≡ 7)
    × (r.found ≡ retain (matches 1) (or_default (resolve_host store shop api)))
    × (rcode r ≡ (if is_empty (or_default (resolve_host store shop api)) then 3 else 0))
unfolding store valid_utf8 join encode_name
handle_dns_query_internal_example =
    handle_dns_query_internal lower no_upstream store 7 256 1 (internal_labels api shop) [] api shop
      refl ((ground arith, refl), ((ground arith, refl), ((ground arith, refl), tt))) refl
      (omega arith) (omega arith) (tt, (tt, tt)) (omega arith)

message_parsed : parse_question message 12 ≡ some (text "api.shop.internal", 1, 35)
unfolding parse_question parse_labels valid_utf8 encode_name join
message_parsed = refl

parse_question_bounds_example : (12 + 4 < 35) × (35 ≤ length message)
parse_question_bounds_example =
    parse_question_bounds message 12 (text "api.shop.internal") 1 35 message_parsed

parse_labels_terminates_example :
    RunsTo message 12 (parse_labels 30 message 12)
    × ((result : Option (List Text × ℕ))
        → RunsTo message 12 result
        → result ≡ parse_labels 30 message 12)
unfolding encode_name
parse_labels_terminates_example = parse_labels_terminates 30 message 12 (omega arith)

response_read_back :
    (r : Response) × (read_response
        (35 - 12)
        (build_dns_response 7 message 35 28 (some (v6 1 ∷ first ∷ [])))
      ≡ some r)
    × (r.id ≡ 7)
    × (r.questions ≡ 1)
    × (r.found ≡ retain (matches 28) (or_default (some (v6 1 ∷ first ∷ []))))
    × (rcode r ≡ (if is_empty (or_default (some (v6 1 ∷ first ∷ []))) then 3 else 0))
unfolding encode_name
response_read_back =
    read_response-build_dns_response 7 message 35 28 (some (v6 1 ∷ first ∷ [])) (omega arith)
      (omega arith) (omega arith) (omega arith)

abbrev reply : List ℕ
reply = build_dns_response 7 message 35 1 (resolve store (text "api.shop.internal"))

handle_dns_query-reply : handle_dns_query lower no_upstream message store ≡ some reply
unfolding handle_dns_query answer_question parse_question parse_labels valid_utf8 encode_name join
    ends_with
handle_dns_query-reply = refl

length-reply : length reply ≡ 67
unfolding build_dns_response encode_name join resolve resolve_parts resolve_host store lookup
length-reply = refl

handle_tcp_dns_client-serve_udp_example :
    let done =
      handle_tcp_dns_client lower no_upstream
        (text "eof")
        none
        none
        store
        (framed message ++ 0 ∷ []) in
    (done.0 ≡ value tt)
    × (read_framed done.1 ≡ some reply)
    × (serve_udp lower no_upstream ((store, value (message, text "a")) ∷ [])
        ≡ (text "a", reply) ∷ [])
unfolding encode_name
handle_tcp_dns_client-serve_udp_example =
    handle_tcp_dns_client-serve_udp lower no_upstream (text "eof") (text "a") store message (0 ∷ [])
      reply (omega arith) handle_dns_query-reply (omega (arith, length-reply))
