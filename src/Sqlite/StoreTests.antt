-- ===== src/Sqlite/StoreTests.antt =====
-- A stored cluster of a ready worker and one that is silent.
use nexad.Prelude.{◌≡◌, refl, none, text, List, [], ◌∷◌, map}
use nexad.Result.{ok}
use nexad.Cluster.Nodes.{ready, Node}
use nexad.Cluster.Heartbeat.{secs, check_nodes}
use nexad.Cluster.Ageing.{aged}
use nexad.Api.Store.{IsAdmin}
use nexad.Sqlite.Tables.{Database, empty_database, node_row}
use nexad.Sqlite.Pods.{list_pods}
use nexad.Sqlite.Nodes.{get_node}
use nexad.Sqlite.Store.{Stored}
use nexad.Sqlite.Backing.{sqlite_nodes, sqlite_store}
use nexad.Sqlite.StoreLaws.{sqlite_store-IsAdmin}
use nexad.Sqlite.Monitored.{check_nodes-get_node, map_ok}
use nexad.Sqlite.Tests.{driver, driver-IsReadable, node, node-IsRegular}

abbrev rows : List Node
rows = node 1 (text "a") ready 3 ∷ node 2 (text "b") ready 4 ∷ []

abbrev database : Database
database = record empty_database { nodes = map (node_row driver) rows }

no_pods : list_pods driver none database none ≡ ok []
unfolding list_pods
no_pods = refl

abbrev stored : Stored driver
stored = record {
  db = database;
  rows = rows;
  held = refl;
  words = (node-IsRegular 1 (text "a") ready 3, (node-IsRegular 2 (text "b") ready 4, tt));
  distinct = (refl, (refl, tt));
  named = (refl, (refl, tt));
  pods = [];
  pods_read = no_pods;
}

sqlite_store-IsAdmin_example : IsAdmin (sqlite_store driver driver-IsReadable)
sqlite_store-IsAdmin_example = sqlite_store-IsAdmin driver driver-IsReadable

check_nodes-get_node_example :
    let done = check_nodes (sqlite_nodes driver driver-IsReadable) (secs 31) stored in
    (done.0 ≡ ok tt)
    × (get_node driver none done.2.db 1 ≡ map_ok (aged (secs 31)) (get_node driver none database 1))
check_nodes-get_node_example = check_nodes-get_node driver driver-IsReadable (secs 31) stored 1
