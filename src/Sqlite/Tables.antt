-- ===== src/Sqlite/Tables.antt =====
-- The rows of the tables, and the values that src/adapters/state/sqlite.rs writes to and reads from
-- them.
use nexad.Prelude.{
  ℕ, ℤ, pos, u64_as_i64, u32_as_i32, as_u64, as_u32, Option, none, some, List, [], Text, text,
  byte_eq, list_eq,
}
use nexad.HashMap.{HashMap}
use nexad.Result.{serialization, Result, ok, err, ◌>>=◌}
use nexad.Cluster.Nodes.{Node, Pod}
use nexad.Sqlite.Driver.{Driver, parsed}

pub record Project : Type 0 where
  pub name : Text
  pub status : ℕ
  pub created_at : ℕ

pub record Deployment (Spec : Type 0) : Type 0 where
  pub id : ℕ
  pub spec : Spec
  pub status : ℕ
  pub created_at : ℕ
  pub updated_at : ℕ

pub record ProjectRow : Type 0 where
  pub name : Text
  pub status : Text
  pub created_at : Text

pub record DeploymentRow : Type 0 where
  pub id : Text
  pub project : Text
  pub name : Text
  pub spec_json : Text
  pub status : Text
  pub created_at : Text
  pub updated_at : Text

pub record PodRow : Type 0 where
  pub id : Text
  pub deployment_id : Text
  pub project : Text
  pub deployment_name : Text
  pub replica_index : ℤ
  pub node_id : Option Text
  pub container_id : Option Text
  pub container_ip : Option Text
  pub status : Text
  pub image : Text
  pub restart_count : ℤ
  pub created_at : Text

-- A column of floating-point numbers holds the 64 bits that were bound: a NaN is bound as NULL, which
-- the columns refuse, so none is held.
pub record NodeRow : Type 0 where
  pub id : Text
  pub name : Text
  pub address : Text
  pub role : Text
  pub status : Text
  pub cpu_cores : ℕ
  pub memory_bytes : ℤ
  pub cpu_available : ℕ
  pub memory_available : ℤ
  pub running_pods : ℤ
  pub last_heartbeat : Text
  pub joined_at : Text

pub record Database : Type 0 where
  pub projects : List ProjectRow
  pub deployments : List DeploymentRow
  pub pods : List PodRow
  pub nodes : List NodeRow
  pub cluster_config : HashMap Text Text

abbrev pub empty_database : Database
empty_database = record {
  projects = [];
  deployments = [];
  pods = [];
  nodes = [];
  cluster_config = [];
}

module _ {Spec : Type 0} (d : Driver Spec) where
  unfoldable pub project_row : Project → ProjectRow
  project_row p = record {
    name = p.name;
    status = d.project_status.show p.status;
    created_at = d.time.show p.created_at;
  }

  unfoldable pub row_to_project : ProjectRow → Result Project
  row_to_project r = do
    status ← parsed d.project_status (text "invalid project status: ") r.status
    created_at ← parsed d.time (text "invalid created_at: ") r.created_at
    ok (record { name = r.name; status = status; created_at = created_at })

  unfoldable pub deployment_row : Deployment Spec → Text → DeploymentRow
  deployment_row dep json = record {
    id = d.uuid.show dep.id;
    project = d.spec_project dep.spec;
    name = d.spec_name dep.spec;
    spec_json = json;
    status = d.deployment_status.show dep.status;
    created_at = d.time.show dep.created_at;
    updated_at = d.time.show dep.updated_at;
  }

  abbrev pub parsed_spec : Text → Result Spec
  parsed_spec json = elim (d.spec_from_json json) [ none ↦ err serialization | some s ↦ ok s ]

  unfoldable pub row_to_deployment : DeploymentRow → Result (Deployment Spec)
  row_to_deployment r = do
    id ← parsed d.uuid (text "invalid deployment id: ") r.id
    spec ← parsed_spec r.spec_json
    status ← parsed d.deployment_status (text "invalid deployment status: ") r.status
    created_at ← parsed d.time (text "invalid created_at: ") r.created_at
    updated_at ← parsed d.time (text "invalid updated_at: ") r.updated_at
    ok (record {
      id = id;
      spec = spec;
      status = status;
      created_at = created_at;
      updated_at = updated_at;
    })

  abbrev pub shown_id : Option ℕ → Option Text
  shown_id none = none
  shown_id (some id) = some (d.uuid.show id)

  unfoldable pub pod_row : Pod → PodRow
  pod_row p = record {
    id = d.uuid.show p.id;
    deployment_id = d.uuid.show p.deployment_id;
    project = p.project;
    deployment_name = p.deployment_name;
    replica_index = pos p.replica_index;
    node_id = shown_id p.node_id;
    container_id = p.container_id;
    container_ip = p.container_ip;
    status = d.pod_status.show p.status;
    image = p.image;
    restart_count = pos p.restart_count;
    created_at = d.time.show p.created_at;
  }

  -- `map`, `transpose`
  abbrev pub parsed_id : Option Text → Result (Option ℕ)
  parsed_id none = ok none
  parsed_id (some t) = parsed d.uuid (text "invalid node_id: ") t >>= λ id. ok (some id)

  unfoldable pub row_to_pod : PodRow → Result Pod
  row_to_pod r = do
    id ← parsed d.uuid (text "invalid pod id: ") r.id
    deployment_id ← parsed d.uuid (text "invalid deployment_id: ") r.deployment_id
    status ← parsed d.pod_status (text "invalid pod status: ") r.status
    created_at ← parsed d.time (text "invalid created_at: ") r.created_at
    node_id ← parsed_id r.node_id
    ok (record {
      id = id;
      deployment_id = deployment_id;
      project = r.project;
      deployment_name = r.deployment_name;
      replica_index = as_u32 r.replica_index;
      node_id = node_id;
      container_id = r.container_id;
      container_ip = r.container_ip;
      status = status;
      image = r.image;
      restart_count = as_u32 r.restart_count;
      created_at = created_at;
    })

  unfoldable pub node_row : Node → NodeRow
  node_row n = record {
    id = d.uuid.show n.id;
    name = n.name;
    address = n.address;
    role = d.role.show n.role;
    status = d.node_status.show n.status;
    cpu_cores = n.resources.cpu_cores;
    memory_bytes = u64_as_i64 n.resources.memory_bytes;
    cpu_available = n.resources.cpu_available;
    memory_available = u64_as_i64 n.resources.memory_available;
    running_pods = u32_as_i32 n.resources.running_pods;
    last_heartbeat = d.time.show n.last_heartbeat;
    joined_at = d.time.show n.joined_at;
  }

  unfoldable pub row_to_node : NodeRow → Result Node
  row_to_node r = do
    id ← parsed d.uuid (text "invalid node id: ") r.id
    role ← parsed d.role (text "invalid node role: ") r.role
    status ← parsed d.node_status (text "invalid node status: ") r.status
    last_heartbeat ← parsed d.time (text "invalid last_heartbeat: ") r.last_heartbeat
    joined_at ← parsed d.time (text "invalid joined_at: ") r.joined_at
    ok (record {
      id = id;
      name = r.name;
      address = r.address;
      role = role;
      status = status;
      resources = record {
        cpu_cores = r.cpu_cores;
        memory_bytes = as_u64 r.memory_bytes;
        cpu_available = r.cpu_available;
        memory_available = as_u64 r.memory_available;
        running_pods = as_u32 r.running_pods;
      };
      last_heartbeat = last_heartbeat;
      joined_at = joined_at;
    })
