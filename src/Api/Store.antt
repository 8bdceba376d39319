-- ===== src/Api/Store.antt =====
-- What the handlers ask of a state store beside the cluster's calls, and what is relied on.
use nexad.Prelude.{ℕ, ◌≡◌, Option, none, some, Text, ◌==◌, byte_eq, list_eq, if◌then◌else◌}
use nexad.Result.{Result, ok}
use nexad.Cluster.Nodes.{IsRegular, Node, StateStore}
use nexad.Cluster.Lawful.{find_node, find_named, IsLawful}

pub record AdminStore {ℓ} (S : Type ℓ) : Type ℓ where
  pub nodes : StateStore S
  pub delete_node : S → ℕ → Result (Unit {0}) × S
  pub get_cluster_config : S → Text → Result (Option Text)
  pub set_cluster_config : S → Text → Text → Result (Unit {0}) × S

-- The cluster's laws; a node that is found is updated, so that its name finds it as written; a
-- deletion takes the node of the id away; and a setting is read as it was set.
pub record IsAdmin {ℓ} {S : Type ℓ} (store : AdminStore S) : Type ℓ where
  pub lawful : IsLawful store.nodes
  pub update_ok :
      (s : S) (n m : Node)
      → find_node n.id (lawful.nodes s) ≡ some m
      → m.name ≡ n.name
      → (IsRegular m.resources → IsRegular n.resources)
      → (store.nodes.update_node s n).0 ≡ ok tt
  pub update_named :
      (s : S) (n m : Node) (name : Text)
      → find_named n.name (lawful.nodes s) ≡ some m
      → m.id ≡ n.id
      → m.joined_at ≡ n.joined_at
      → (IsRegular m.resources → IsRegular n.resources)
      → find_named name (lawful.nodes (store.nodes.update_node s n).1)
        ≡ (if n.name == name then some n else find_named name (lawful.nodes s))
  pub delete_ok : (s : S) (id : ℕ) → (store.delete_node s id).0 ≡ ok tt
  pub delete_node_lem :
      (s : S) (id j : ℕ)
      → find_node j (lawful.nodes (store.delete_node s id).1)
        ≡ (if id == j then none else find_node j (lawful.nodes s))
