-- ===== src/Api/TokenLaws.antt =====
-- What a rotation of the join token leaves in the store.
use nexad.Prelude.{
  ℕ, ◌≡◌, refl, true, ◌&&◌, Option, some, List, arith, Text, text, ◌==◌, byte_eq, list_eq, beq_refl,
  if◌then◌else◌, inl, inr,
}
use nexad.Result.{NexaError, Result, ok, is_ok, Result-cases}
use nexad.Cluster.Nodes.{NodeStatus, Node}
use nexad.Cluster.Token.{generate_token, hash_token, verify_token}
use nexad.Api.Response.{Response, status_ok, internal_server_error, answer}
use nexad.Api.Store.{AdminStore}
use nexad.Api.Admin.{
  token_set, cluster_init, cluster_token_rotate, cluster_token_show, token_response,
}

-- Reading a setting does not fail; setting one writes it, or fails and changes none; and writing a
-- node leaves the settings.
pub record IsConfigured {ℓ} {S : Type ℓ} (store : AdminStore S) : Type ℓ where
  pub config : S → Text → Option Text
  pub get_lem : (s : S) (key : Text) → store.get_cluster_config s key ≡ ok (config s key)
  pub set_lem :
      (s : S) (key value j : Text)
      → config (store.set_cluster_config s key value).1 j ≡ (
          if is_ok (store.set_cluster_config s key value).0 && key == j
          then some value
          else config s j)
  pub insert_keeps :
      (s : S) (n : Node) (key : Text) → config (store.nodes.insert_node s n).1 key ≡ config s key

module _ {ℓ} {S : Type ℓ} (store : AdminStore S) (w : IsConfigured store)
    (display : NexaError → Text) (show_status : NodeStatus → Text) (encode : List ℕ → Text)
    (digest : Text → List ℕ) where
  abbrev token_of : List ℕ → Text
  token_of bytes = generate_token encode (λ t. true) digest bytes

  abbrev hash_of : Text → Text
  hash_of token = hash_token encode (λ t. true) digest token

  -- the outcome of the first setting, and of the second behind it
  abbrev pub first_set : List ℕ → S → Result (Unit {0}) × S
  first_set bytes s = store.set_cluster_config s (text "join_token_hash") (hash_of (token_of bytes))

  abbrev pub second_set : List ℕ → S → Result (Unit {0}) × S
  second_set bytes s =
      store.set_cluster_config (first_set bytes s).1 (text "join_token") (token_of bytes)

  abbrev hash_key : Text
  hash_key = text "join_token_hash"

  abbrev token_key : Text
  token_key = text "join_token"

  abbrev outcome : List ℕ → S → Response Text × S
  outcome bytes s =
      token_set store display show_status encode digest (token_of bytes) (first_set bytes s)

  outcome-status :
      (bytes : List ℕ) (s : S)
      → (outcome bytes s).0.status
        ≡ (if is_ok (first_set bytes s).0 then status_ok else internal_server_error)
  outcome-status bytes s = elim (Result-cases (first_set bytes s).0) [
    | inl (u, h) ↦ ground (arith, h)
    | inr (e, h) ↦ ground (arith, h)
  ]

  outcome-hash :
      (bytes : List ℕ) (s : S)
      → w.config (outcome bytes s).1 hash_key ≡ (
          if is_ok (first_set bytes s).0
          then some (hash_of (token_of bytes))
          else w.config s hash_key)
  outcome-hash bytes s =
      let hash = hash_of (token_of bytes) in
      let first = w.set_lem s hash_key hash hash_key in
      let second = w.set_lem (first_set bytes s).1 token_key (token_of bytes) hash_key in
      elim (Result-cases (first_set bytes s).0) [
        | inl (u, h) ↦ ground (arith, h, first, second)
        | inr (e, h) ↦ ground (arith, h, first)
      ]

  outcome-token :
      (bytes : List ℕ) (s : S)
      → w.config (outcome bytes s).1 token_key ≡ (
          if is_ok (first_set bytes s).0 && is_ok (second_set bytes s).0
          then some (token_of bytes)
          else w.config s token_key)
  outcome-token bytes s =
      let hash = hash_of (token_of bytes) in
      let first = w.set_lem s hash_key hash token_key in
      let second = w.set_lem (first_set bytes s).1 token_key (token_of bytes) token_key in
      elim (Result-cases (first_set bytes s).0) [
        | inl (u, h) ↦ ground (arith, h, first, second)
        | inr (e, h) ↦ ground (arith, h, first)
      ]

  pub show_lem :
      (s : S)
      → cluster_token_show store display show_status s
        ≡ token_response store display show_status (ok (w.config s token_key))
  unfolding cluster_token_show
  show_lem s = ground (arith, w.get_lem s token_key)

  -- A rotation, like the start of a cluster, answers 200 exactly where the hash could be set, and the
  -- hash that is stored then is that of the new token, which passes the check against it. The token
  -- that is shown is the new one only if it could be set as well: else it is the one from before.
  pub cluster_token_rotate-cluster_token_show :
      (bytes : List ℕ) (s : S)
      → let done = cluster_token_rotate store display show_status encode digest bytes s in
        let hashed = is_ok (first_set bytes s).0 in
        let both = hashed && is_ok (second_set bytes s).0 in
        ((done ≡ cluster_init store display show_status encode digest bytes s)
          × (done.0.status ≡ (if hashed then status_ok else internal_server_error)))
        × (((w.config done.1 (text "join_token_hash") ≡ (
                if hashed
                then some (hash_of (token_of bytes))
                else w.config s (text "join_token_hash")))
              × (verify_token encode (λ t. true) digest (token_of bytes) (hash_of (token_of bytes))
                  ≡ true))
            × (cluster_token_show store display show_status done.1 ≡ (
                if both
                then answer (token_of bytes)
                else cluster_token_show store display show_status s)))
  unfolding cluster_token_rotate cluster_init verify_token
  cluster_token_rotate-cluster_token_show bytes s = (
    (refl, outcome-status bytes s),
    (
      (outcome-hash bytes s, beq_refl (hash_of (token_of bytes))),
      ground (arith, show_lem (outcome bytes s).1, show_lem s, outcome-token bytes s),
    ),
  )
