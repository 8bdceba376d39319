-- ===== src/Start/Master.antt =====
-- What the start of a master writes to the store, and the hash that its server gets.
use nexad.Prelude.{ℕ, true, Option, none, some, List, Text, text}
use nexad.Result.{Result, ok, err}
use nexad.Cluster.Nodes.{Node}
use nexad.Cluster.Token.{generate_token, hash_token}
use nexad.Api.Store.{AdminStore}

module _ {ℓ} {S : Type ℓ} (store : AdminStore S) (encode : List ℕ → Text)
    (digest : Text → List ℕ) where
  -- Whether the master could be written is not looked at.
  unfoldable pub register_master : Node → S → S
  register_master node s = (store.nodes.insert_node s node).1

  abbrev pub stored : Text → Result (Unit {0}) × S → Result Text × S
  stored hash (err e, s) = (err e, s)
  stored hash (ok u, s) = (ok hash, s)

  -- The hash that is stored, or that of a new token, which itself is only logged.
  abbrev pub loaded : List ℕ → S → Result (Option Text) → Result Text × S
  loaded bytes s (err e) = (err e, s)
  loaded bytes s (ok (some hash)) = (ok hash, s)
  loaded bytes s (ok none) =
      let hash =
        hash_token encode (λ t. true) digest (generate_token encode (λ t. true) digest bytes) in
      stored hash (store.set_cluster_config s (text "join_token_hash") hash)

  unfoldable pub token_hash : List ℕ → S → Result Text × S
  token_hash bytes s = loaded bytes s (store.get_cluster_config s (text "join_token_hash"))

  unfoldable pub start_master : Node → List ℕ → S → Result Text × S
  unfolding register_master
  start_master node bytes s = token_hash bytes (register_master node s)
