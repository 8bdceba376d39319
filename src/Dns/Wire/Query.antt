-- ===== src/Dns/Wire/Query.antt =====
-- `handle_dns_query` from the bytes of a query to the bytes of its answer.
use nexad.Prelude.{
  ℕ, ◌+◌, ◌-◌, ◌*◌, ◌/◌, ◌%◌, ◌^◌, ◌≤◌, ◌<◌, ◌≡◌, refl, true, Option, some, List, [], ◌∷◌, ◌++◌,
  arith, Text, text, length, retain, is_empty, length-append, All, byte_eq, if◌then◌else◌,
}
use mathlib.Core.List.{append_assoc}
use nexad.Str.{join, ends_with}
use nexad.Str.Laws.{IsFree, ends_with-append}
use nexad.Dns.Records.{DnsRecordStore, or_default, resolve_host}
use nexad.Dns.Resolve.{full_name, resolve-full_name_bare}
use nexad.Dns.Wire.{be16, matches, build_dns_response, answer_question, handle_dns_query}
use nexad.Dns.Wire.Question.{encode_name, IsLabel, parse_question-encode_name}
use nexad.Dns.Wire.Answer.{
  IsAddress, Response, rcode, read_response, read_response-build_dns_response,
}

-- a query's header: its id, its flags with opcode 0, one question, no records
abbrev pub query_header : ℕ → ℕ → List ℕ
query_header id flags = be16 id ++ (be16 flags ++ (be16 1 ++ (be16 0 ++ (be16 0 ++ be16 0))))

abbrev pub query : ℕ → ℕ → List Text → ℕ → List ℕ → List ℕ
query id flags labels qtype extra =
    query_header id flags ++ (encode_name labels ++ (be16 qtype ++ (be16 1 ++ extra)))

abbrev pub internal_labels : Text → Text → List Text
internal_labels host project = host ∷ project ∷ text "internal" ∷ []

-- the bytes of the question: name, type and class
abbrev pub question_len : List Text → ℕ
question_len labels = length (encode_name labels) + 4

is_internal : (host project : Text) → ends_with (full_name host project) (text ".internal") ≡ true
is_internal host project =
    rw append_assoc at (ends_with-append (host ++ b'.' ∷ project) (text ".internal"))

module _ (lower : Text → Text) (upstream : List ℕ → Option (List ℕ)) where
  handle_dns_query-query :
      (store : DnsRecordStore) (id flags qtype : ℕ) (labels : List Text) (extra : List ℕ)
      → flags / 2 ^ 11 % 16 ≡ 0
      → All IsLabel labels
      → handle_dns_query lower upstream (query id flags labels qtype extra) store
        ≡ answer_question lower upstream
            (query id flags labels qtype extra)
            store
            id
            (some (join (text ".") labels, qtype, 12 + length (encode_name labels) + 4))
  unfolding handle_dns_query
  handle_dns_query-query store id flags qtype labels extra f g =
      let message = query id flags labels qtype extra in
      let parsed = parse_question-encode_name (query_header id flags) extra labels qtype 1 g in
      let back : id / 256 * 256 + id % 256 ≡ id = omega arith in rw (parsed, back) (ground arith)

  -- A query for `<host>.<project>.internal`, in any case of letters, has a response that a resolver
  -- reads: it has the query's id, and the addresses of the query's type that the store has for the
  -- name in lower case. The code 3, "no such name", stands exactly where the store has no answer.
  pub handle_dns_query_internal :
      (store : DnsRecordStore) (id flags qtype : ℕ) (labels : List Text) (extra : List ℕ)
      (host project : Text)
      → flags / 2 ^ 11 % 16 ≡ 0
      → All IsLabel labels
      → lower (join (text ".") labels) ≡ full_name host project
      → IsFree b'.' host
      → IsFree b'.' project
      → All IsAddress (or_default (resolve_host store project host))
      → length (or_default (resolve_host store project host)) < 65536
      → (bytes : List ℕ) × (r : Response) × (handle_dns_query lower upstream
            (query id flags labels qtype extra)
            store
          ≡ some bytes)
        × (read_response (question_len labels) bytes ≡ some r)
        × (r.id ≡ id)
        × (r.found ≡ retain (matches qtype) (or_default (resolve_host store project host)))
        × (rcode r ≡ (if is_empty (or_default (resolve_host store project host)) then 3 else 0))
  unfolding answer_question
  handle_dns_query_internal store id flags qtype labels extra host project f g low hf pf a l =
      let message = query id flags labels qtype extra in
      let end = 12 + length (encode_name labels) + 4 in
      let found = resolve_host store project host in
      let size : end ≤ length message =
        omega (arith, length-append (encode_name labels) (be16 qtype ++ (be16 1 ++ extra))) in
      let (r, reads, same_id, one, addresses, code) =
        read_response-build_dns_response id message end qtype found (omega arith) size a l in
      let len : end - 12 ≡ question_len labels = omega arith in
      (
        build_dns_response id message end qtype found,
        r,
        rw (handle_dns_query-query store id flags qtype labels extra f g, answer_question, low)
            (rw (is_internal host project, resolve-full_name_bare store host project hf pf) refl),
        rw len at reads,
        same_id,
        addresses,
        code,
      )
