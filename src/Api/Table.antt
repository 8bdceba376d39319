-- ===== src/Api/Table.antt =====
-- A store in lists that has every law of the handlers: the table of the cluster, and settings.
use nexad.Prelude.{
  ℕ, ◌≡◌, refl, ap, sym, ◌∙◌, not, none, some, List, [], ◌∷◌, arith, Text, ◌==◌, byte_eq, list_eq,
  list_beq_iff, nat_beq_iff, if◌then◌else◌, Bool-cases, inl, inr, retain,
}
use nexad.HashMap.{HashMap, get, insert, get-insert}
use nexad.Result.{ok}
use nexad.Cluster.Nodes.{Node, StateStore}
use nexad.Cluster.Lawful.{find_node, find_named, IsDistinct, IsLawful}
use nexad.Cluster.Table.{Table, table_store, table_laws, put}
use nexad.Api.Store.{AdminStore, IsAdmin}
use nexad.Api.TokenLaws.{IsConfigured}
use nexad.Api.NodeLaws.{find_named-find_node}

pub put_absent : (n : Node) (rows : List Node) → find_node n.id rows ≡ none → put n rows ≡ rows
unfolding put
put_absent n [] h = refl
put_absent n (m ∷ rows) h = ground (arith, h, put_absent n rows)

pub find_named-put :
    (n m : Node) (rows : List Node) (name : Text)
    → IsDistinct rows
    → find_named n.name rows ≡ some m
    → m.id ≡ n.id
    → find_named name (put n rows) ≡ (if n.name == name then some n else find_named name rows)
unfolding put
find_named-put n m [] name d h e = ground (arith, h)
find_named-put n m (x ∷ rows) name (a, d) h e = elim (Bool-cases (x.name == n.name)) [
  | inl k ↦
      let same : x.id ≡ n.id = ground (arith, h, k, e) in
      let gone : find_node n.id rows ≡ none = ap (λ i. find_node i rows) (sym same) ∙ a in
      ground (arith, same, k, (list_beq_iff x.name n.name).0 k, put_absent n rows gone)
  | inr k ↦
      let later : find_named n.name rows ≡ some m = ground (arith, h, k) in
      let held = find_named-find_node n.name rows m d later in
      elim (Bool-cases (x.id == n.id)) [
        | inl i ↦
            ground
              (arith, held, a, ap (λ j. find_node j rows) ((nat_beq_iff x.id n.id).0 i ∙ sym e))
        | inr i ↦ ground (
          arith,
          i,
          find_named-put n m rows name d later e,
          list_beq_iff n.name name,
          list_beq_iff x.name name,
          list_beq_iff x.name n.name,
          k,
        )
      ]
]

abbrev pub without : ℕ → List Node → List Node
without id rows = retain (λ n. not (n.id == id)) rows

pub find_node-without :
    (id j : ℕ) (rows : List Node)
    → find_node j (without id rows) ≡ (if id == j then none else find_node j rows)
find_node-without id j [] = ground arith
find_node-without id j (x ∷ rows) = ground (arith, find_node-without id j rows)

pub without-IsDistinct :
    (id : ℕ) (rows : List Node) → IsDistinct rows → IsDistinct (without id rows)
without-IsDistinct id [] d = tt
without-IsDistinct id (x ∷ rows) (a, d) = elim (Bool-cases (x.id == id)) [
  | inl h ↦ rw h (without-IsDistinct id rows d)
  | inr h ↦ rw h (ground (arith, find_node-without id x.id rows, a), without-IsDistinct id rows d)
]

-- the table and the settings
abbrev pub Tables : Type 0
Tables = Table × HashMap Text Text

abbrev pub tables_nodes : StateStore Tables
tables_nodes = record {
  list_nodes = λ s. table_store.list_nodes s.0;
  get_node = λ s id. table_store.get_node s.0 id;
  get_node_by_name = λ s name. table_store.get_node_by_name s.0 name;
  insert_node =
      λ s n. ((table_store.insert_node s.0 n).0, ((table_store.insert_node s.0 n).1, s.1));
  update_node =
      λ s n. ((table_store.update_node s.0 n).0, ((table_store.update_node s.0 n).1, s.1));
  list_pods = λ s project. table_store.list_pods s.0 project;
}

abbrev pub tables_lawful : IsLawful tables_nodes
tables_lawful = record {
  nodes = λ s. table_laws.nodes s.0;
  pods = λ s. table_laws.pods s.0;
  list_nodes_lem = λ s. table_laws.list_nodes_lem s.0;
  list_pods_lem = λ s. table_laws.list_pods_lem s.0;
  get_node_lem = λ s. table_laws.get_node_lem s.0;
  get_node_by_name_lem = λ s. table_laws.get_node_by_name_lem s.0;
  nodes_distinct = λ s. table_laws.nodes_distinct s.0;
  update_node_lem = λ s. table_laws.update_node_lem s.0;
  update_other = λ s. table_laws.update_other s.0;
  update_pods = λ s. table_laws.update_pods s.0;
  insert_ok = λ s. table_laws.insert_ok s.0;
  insert_named = λ s. table_laws.insert_named s.0;
}

abbrev pub tables_store : AdminStore Tables
tables_store = record {
  nodes = tables_nodes;
  delete_node = λ s id. (
    ok tt,
    (
      record {
        rows = without id s.0.rows;
        distinct = without-IsDistinct id s.0.rows s.0.distinct;
        pod_rows = s.0.pod_rows;
      },
      s.1,
    ),
  );
  get_cluster_config = λ s key. ok (get s.1 key);
  set_cluster_config = λ s key value. (ok tt, (s.0, insert s.1 key value));
}

abbrev pub tables_admin : IsAdmin tables_store
tables_admin = record {
  lawful = tables_lawful;
  update_ok = λ s n m h e w. refl;
  update_named = λ s n m name h e j w. find_named-put n m s.0.rows name s.0.distinct h e;
  delete_ok = λ s id. refl;
  delete_node_lem = λ s id j. find_node-without id j s.0.rows;
}

abbrev pub tables_configured : IsConfigured tables_store
tables_configured = record {
  config = λ s key. get s.1 key;
  get_lem = λ s key. refl;
  set_lem = λ s key value j. get-insert s.1 key j value;
  insert_keeps = λ s n key. refl;
}
