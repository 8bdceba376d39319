-- ===== src/Start/MasterLaws.antt =====
-- What a start does for the join token, and which tokens the started server takes.
use nexad.Prelude.{
  ℕ, ◌≡◌, refl, ap, ◌∙◌, sym, true, Option, none, some, List, arith, Text, text, byte_eq, list_eq,
  beq_refl, inl, inr,
}
use nexad.Result.{NexaError, ok, is_ok, Result-cases}
use nexad.Cluster.Nodes.{NodeRole, NodeStatus, NodeResources, Node}
use nexad.Cluster.Token.{generate_token, hash_token}
use nexad.Cluster.Server
use nexad.Api.Store.{AdminStore}
use nexad.Api.Admin.{cluster_token_rotate, cluster_token_show, token_response}
use nexad.Api.TokenLaws.{IsConfigured, first_set, cluster_token_rotate-cluster_token_show, show_lem}
use nexad.Start.Master.{loaded, token_hash, register_master, start_master}

module _ {ℓ} {S : Type ℓ} (store : AdminStore S) (w : IsConfigured store)
    (display : NexaError → Text) (show_status : NodeStatus → Text) (encode : List ℕ → Text)
    (digest : Text → List ℕ) where
  loaded-config :
      (bytes : List ℕ) (s : S) (o : Option Text)
      → w.config (loaded store encode digest bytes s (ok o)).1 (text "join_token")
        ≡ w.config s (text "join_token")
  loaded-config bytes s (some hash) = refl
  loaded-config bytes s none =
      let hash : Text =
        hash_token encode (λ t. true) digest (generate_token encode (λ t. true) digest bytes) in
      let set = w.set_lem s (text "join_token_hash") hash (text "join_token") in
      elim (Result-cases (first_set store w display show_status encode digest bytes s).0) [
        | inl (u, h) ↦ ground (arith, h, set)
        | inr (e, h) ↦ ground (arith, h, set)
      ]

  token_hash-config :
      (bytes : List ℕ) (s : S)
      → w.config (token_hash store encode digest bytes s).1 (text "join_token")
        ≡ w.config s (text "join_token")
  unfolding token_hash
  token_hash-config bytes s =
      rw (token_hash, w.get_lem s (text "join_token_hash"))
        (loaded-config bytes s (w.config s (text "join_token_hash")))

  token_hash_kept :
      (bytes : List ℕ) (s : S) (hash : Text)
      → w.config s (text "join_token_hash") ≡ some hash
      → token_hash store encode digest bytes s ≡ (ok hash, s)
  unfolding token_hash
  token_hash_kept bytes s hash h = ground (arith, w.get_lem s (text "join_token_hash"), h)

  -- Writing its node leaves the settings as they were.
  register_master-config :
      (node : Node) (s : S) (key : Text)
      → w.config (register_master store encode digest node s) key ≡ w.config s key
  unfolding register_master
  register_master-config node s key = w.insert_keeps s node key

  -- A start of a master never changes which token is shown. After a rotation that could store its hash,
  -- a master that is started has that hash, stores nothing but the node that it tries to insert, and
  -- its server takes the new token.
  pub start_master-cluster_token_rotate :
      (node : Node) (bytes later : List ℕ) (s : S) (show_uuid : ℕ → Text)
      (parse_uuid : Text → Option ℕ) (new_node : Text → Text → NodeRole → NodeResources → Node)
      (zero_resources : NodeResources)
      → is_ok (first_set store w display show_status encode digest bytes s).0 ≡ true
      → let token = generate_token encode (λ t. true) digest bytes in
        let hash = hash_token encode (λ t. true) digest token in
        let rotated = (cluster_token_rotate store display show_status encode digest bytes s).1 in
        ((cluster_token_show store display show_status
              (start_master store encode digest node later s).1
            ≡ cluster_token_show store display show_status s)
          × (start_master store encode digest node later rotated
              ≡ (ok hash, (store.nodes.insert_node rotated node).1)))
        × (Server.verify_token store.nodes hash
              (λ t. encode (digest t))
              show_uuid
              parse_uuid
              new_node
              zero_resources
              token
            ≡ true)
  unfolding start_master register_master Server.verify_token hash_token
  start_master-cluster_token_rotate node bytes later s show_uuid parse_uuid new_node zero_resources
        h =
      let show = show_lem store w display show_status encode digest in
      let ((same, status), ((kept, verified), shown)) =
        cluster_token_rotate-cluster_token_show store w display show_status encode digest bytes s in
      (
        (
          show _
              ∙ (ap (λ o. token_response store display show_status (ok o))
                    (token_hash-config later (register_master store encode digest node s)
                      ∙ register_master-config node s (text "join_token"))
                  ∙ sym (show s)),
          token_hash_kept later _ _
              (register_master-config node _ (text "join_token_hash") ∙ (kept ∙ ground (arith, h))),
        ),
        beq_refl
            (hash_token encode (λ t. true) digest (generate_token encode (λ t. true) digest bytes)),
      )
