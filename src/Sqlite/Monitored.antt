-- ===== src/Sqlite/Monitored.antt =====
-- The heartbeat monitor over the SQLite store.
use nexad.Prelude.{ℕ, ◌≡◌, ◌∙◌, ap, Option, none, sym}
use nexad.Result.{Result, ok, err}
use nexad.Cluster.Heartbeat.{check_nodes}
use nexad.Cluster.Ageing.{aged, map_option, check_nodes_lem}
use nexad.Sqlite.Driver.{Driver}
use nexad.Sqlite.Nodes.{get_node}
use nexad.Sqlite.NodeLaws.{IsReadable}
use nexad.Sqlite.Store.{Stored}
use nexad.Sqlite.Backing.{sqlite_nodes}
use nexad.Sqlite.StoreLaws.{sqlite_nodes-IsLawful}

abbrev pub map_ok {ℓ} : {A : Type ℓ} → (A → A) → Result (Option A) → Result (Option A)
map_ok f r = elim r [ err e ↦ err e | ok o ↦ ok (map_option f o) ]

-- A pass of the monitor over the SQLite store, where no statement fails, succeeds: what is read of an
-- id after it is what was read before, marked as not ready where it is a worker whose last heartbeat
-- is half a minute old.
pub check_nodes-get_node :
    {Spec : Type 0} (d : Driver Spec) (r : IsReadable d) (now : ℕ) (s : Stored d) (id : ℕ)
    → let done = check_nodes (sqlite_nodes d r) now s in
      (done.0 ≡ ok tt)
      × (get_node d none done.2.db id ≡ map_ok (aged now) (get_node d none s.db id))
check_nodes-get_node d r now s id =
    let w = sqlite_nodes-IsLawful d r in
    let pass = check_nodes_lem (sqlite_nodes d r) w now s in
    (
      pass.0,
      w.get_node_lem (check_nodes (sqlite_nodes d r) now s).2 id
          ∙ ap ok (pass.2 id)
          ∙ sym (ap (map_ok (aged now)) (w.get_node_lem s id)),
    )
