-- ===== src/Cluster/Lawful.antt =====
-- What the cluster relies on of a state store: that nodes and pods are found as they were written.
use nexad.Prelude.{
  ℕ, ◌≡◌, false, Option, none, some, ◌&&◌, List, [], ◌∷◌, Text, ◌==◌, byte_eq, list_eq, not,
  if◌then◌else◌, find,
}
use nexad.HashMap.{is_some}
use nexad.Result.{ok, is_ok}
use nexad.Cluster.Nodes.{IsRegular, Node, Pod, StateStore}

-- the node of an id in a list
abbrev pub find_node : ℕ → List Node → Option Node
find_node id nodes = find (λ n. n.id == id) nodes

abbrev pub find_named : Text → List Node → Option Node
find_named name nodes = find (λ n. n.name == name) nodes

-- No id stands twice.
abbrev pub IsDistinct : List Node → Type 0
IsDistinct [] = Unit
IsDistinct (n ∷ nodes) = (find_node n.id nodes ≡ none) × IsDistinct nodes

-- No reading fails, and each listing holds what the lookups find. An update writes the one node, if it
-- keeps the name and the time of joining, and its resources are words and numbers where those before
-- were; whether it succeeds or not, it leaves every other node. An insertion of such a node is refused
-- exactly where the name or the id is taken.
pub record IsLawful {ℓ} {S : Type ℓ} (store : StateStore S) : Type ℓ where
  pub nodes : S → List Node
  pub pods : S → List Pod
  pub list_nodes_lem : (s : S) → store.list_nodes s ≡ ok (nodes s)
  pub list_pods_lem : (s : S) → store.list_pods s none ≡ ok (pods s)
  pub get_node_lem : (s : S) (id : ℕ) → store.get_node s id ≡ ok (find_node id (nodes s))
  pub get_node_by_name_lem :
      (s : S) (name : Text) → store.get_node_by_name s name ≡ ok (find_named name (nodes s))
  pub nodes_distinct : (s : S) → IsDistinct (nodes s)
  pub update_node_lem :
      (s : S) (n m : Node) (id : ℕ)
      → find_node n.id (nodes s) ≡ some m
      → m.name ≡ n.name
      → m.joined_at ≡ n.joined_at
      → (IsRegular m.resources → IsRegular n.resources)
      → find_node id (nodes (store.update_node s n).1)
        ≡ (if n.id == id then some n else find_node id (nodes s))
  pub update_other :
      (s : S) (n : Node) (id : ℕ)
      → (n.id == id) ≡ false
      → find_node id (nodes (store.update_node s n).1) ≡ find_node id (nodes s)
  pub update_pods : (s : S) (n : Node) → pods (store.update_node s n).1 ≡ pods s
  pub insert_ok :
      (s : S) (n : Node)
      → IsRegular n.resources
      → is_ok (store.insert_node s n).0
        ≡ (not (is_some (find_named n.name (nodes s))) && not (is_some (find_node n.id (nodes s))))
  pub insert_named :
      (s : S) (n : Node) (name : Text)
      → IsRegular n.resources
      → find_named name (nodes (store.insert_node s n).1) ≡ (
          if is_ok (store.insert_node s n).0 && n.name == name
          then some n
          else find_named name (nodes s))
