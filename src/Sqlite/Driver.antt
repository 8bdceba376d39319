-- ===== src/Sqlite/Driver.antt =====
-- What src/adapters/state/sqlite.rs takes from its libraries: the text forms of values, and the
-- messages of the database.
use nexad.Prelude.{ℕ, ◌≡◌, Option, none, some, ◌++◌, Text}
use nexad.Result.{runtime, Result, ok, err, ◌>>=◌}
use nexad.Cluster.Nodes.{NodeRole, NodeStatus}

-- `to_string` and `parse` of a type, with the message for a text that does not parse.
pub record Codec (A : Type 0) : Type 0 where
  pub show : A → Text
  pub parse : Text → Option A
  pub error : Text → Text

-- What is shown parses to what it was.
abbrev pub IsFaithful : {A : Type 0} → Codec A → Type 0
IsFaithful {A} c = (a : A) → c.parse (c.show a) ≡ some a

-- `PodStatus`, `DeploymentStatus` and `ProjectStatus` are enumerations of the core library: a value
-- is the number of the variant. Times are nanoseconds since 1970, ids numbers of 128 bits.
pub record Driver (Spec : Type 0) : Type 0 where
  pub uuid : Codec ℕ
  pub time : Codec ℕ
  pub role : Codec NodeRole
  pub node_status : Codec NodeStatus
  pub pod_status : Codec ℕ
  pub deployment_status : Codec ℕ
  pub project_status : Codec ℕ
  -- the JSON of a specification, which may fail to be written
  pub spec_to_json : Spec → Option Text
  pub spec_from_json : Text → Option Spec
  pub spec_project : Spec → Text
  pub spec_name : Spec → Text
  -- the message for a row that breaks the constraint named, and for a missing parent row
  pub unique_failed : Text → Text
  pub not_null_failed : Text → Text
  pub foreign_key_failed : Text

abbrev pub parsed : {A : Type 0} → Codec A → Text → Text → Result A
parsed c context t = elim (c.parse t) [
  | none ↦ err (runtime (context ++ c.error t))
  | some a ↦ ok a
]

-- A statement of the database fails with a message, or is carried out.
abbrev pub execute {ℓ κ} : {A : Type ℓ} {S : Type κ} → Option Text → S → Result A × S → Result A × S
execute none before done = done
execute (some e) before done = (err (runtime e), before)

abbrev pub query {ℓ} : {A : Type ℓ} → Option Text → Result A → Result A
query none answer = answer
query (some e) answer = err (runtime e)

-- `None` stays, and a row is read.
abbrev pub read_row {ℓ κ} :
    {A : Type ℓ} {B : Type κ} → (A → Result B) → Option A → Result (Option B)
read_row f none = ok none
read_row f (some r) = f r >>= λ b. ok (some b)
