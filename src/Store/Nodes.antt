-- ===== src/Store/Nodes.antt =====
-- Nodes of the cluster and the list of those that were removed: internal/store/store.go.
use distribute_storage_log_a.Prelude.{
  ℕ, Bool, true, false, ◌&&◌, Option, none, some, List, [], ◌∷◌, map, String, if◌then◌else◌, ◌==◌,
}
use distribute_storage_log_a.Prelude.Text.{str_eq}
use distribute_storage_log_a.Store.Bucket.{get, put, delete, values}
use distribute_storage_log_a.Store.Db.{Db, StoredNode}
use distribute_storage_log_a.Store.Archives.{calculate_node_storage_usage}

unfoldable pub save_node : StoredNode → Db → Db
save_node n db = record db { nodes = put n.id n db.nodes }

abbrev pub get_node : String → Db → Option StoredNode
get_node id db = get id db.nodes

abbrev pub is_worker_at : String → ℕ → StoredNode → Bool
is_worker_at ip port n = str_eq n.role "worker" && (str_eq n.ip ip && n.port == port)

-- The first match ends the walk.
unfoldable pub first_at : String → ℕ → List StoredNode → Option StoredNode
first_at ip port [] = none
first_at ip port (n ∷ rest) =
    let behind = first_at ip port rest in if is_worker_at ip port n then some n else behind

abbrev pub with_usage : Db → StoredNode → StoredNode
with_usage db n = record n { storage_used_bytes = calculate_node_storage_usage n.id db }

abbrev pub map_usage : Db → Option StoredNode → Option StoredNode
map_usage db none = none
map_usage db (some n) = some (with_usage db n)

unfoldable pub get_node_by_addr : String → ℕ → Db → Option StoredNode
get_node_by_addr ip port db = map_usage db (first_at ip port (values db.nodes))

unfoldable pub list_nodes : Db → List StoredNode
list_nodes db = map (with_usage db) (values db.nodes)

unfoldable pub delete_node : String → Db → Db
delete_node id db = record db { nodes = delete id db.nodes }

unfoldable pub decommission_node : ℕ → String → Db → Db
decommission_node now id db = record db {
  nodes = delete id db.nodes;
  decommissioned = put id now db.decommissioned;
}

abbrev pub is_there : Option ℕ → Bool
is_there none = false
is_there (some t) = true

unfoldable pub is_node_decommissioned : String → Db → Bool
is_node_decommissioned id db = is_there (get id db.decommissioned)

unfoldable pub clear_decommissioned_node : String → Db → Db
clear_decommissioned_node id db = record db { decommissioned = delete id db.decommissioned }
