-- ===== src/Nodes.antt =====
-- How nodes join, are watched and leave: handlers and a loop of internal/manager/api.go. Times are in
-- nanoseconds; requests that the manager sends to nodes are not modelled, but for their results.
pub mod Removal
pub mod Unique
pub mod Away
pub mod Removed
use distribute_storage_log_a.Prelude.{
  ℕ, ◌+◌, ◌≡◌, Bool, true, false, not, ◌&&◌, ◌||◌, Option, none, some, List, [], ◌∷◌, String,
  if◌then◌else◌, ltb, ◌==◌,
}
use distribute_storage_log_a.Prelude.Int.{ℤ, pos}
use distribute_storage_log_a.Prelude.Text.{str_eq}
use distribute_storage_log_a.Prelude.Strings.{trim_space}
use distribute_storage_log_a.Model.{LogArchive}
use distribute_storage_log_a.Store.Db.{Db, StoredNode, Alarm}
use distribute_storage_log_a.Store.Archives.{
  DeleteResult, save_archive, delete_archive, list_archives_by_node,
}
use distribute_storage_log_a.Store.Nodes.{
  save_node, get_node, get_node_by_addr, list_nodes, decommission_node, is_node_decommissioned,
}
use distribute_storage_log_a.Store.Alarms.{or_text, create_or_aggregate_alarm, resolve_alarm}

abbrev pub node_offline : String
node_offline = "NODE_OFFLINE"

pub data HeartbeatReply : Type 0 where
  method_not_allowed : HeartbeatReply
  unauthorized : HeartbeatReply
  bad_request : HeartbeatReply
  gone : HeartbeatReply
  accepted : HeartbeatReply

-- The known record's id, and what the heartbeat leaves out.
unfoldable pub adopted : StoredNode → StoredNode → StoredNode
adopted existing node = record node {
  id = existing.id;
  name = or_text node.name existing.name;
  disk_device = or_text node.disk_device existing.disk_device;
  joined_at = if node.joined_at == 0 then existing.joined_at else node.joined_at;
}

-- `node_key` prints an address as an id.
unfoldable pub joined : (String → ℕ → String) → ℕ → StoredNode → StoredNode
joined node_key now node = record node {
  id = if str_eq node.id "" then node_key node.ip node.port else node.id;
  joined_at = now;
}

unfoldable pub accept : ℕ → String → StoredNode → Db → Db
accept now status node db =
    (resolve_alarm now node.id node_offline
      (save_node (record node { last_heartbeat = now; status = status }) db)).1

abbrev pub kept_status : StoredNode → String
kept_status existing = if str_eq existing.status "maintenance" then "maintenance" else "online"

abbrev pub heard :
    Option StoredNode → (String → ℕ → String) → ℕ → StoredNode → Db → HeartbeatReply × Db
heard (some existing) node_key now node db =
    if is_node_decommissioned existing.id db || is_node_decommissioned node.id db
    then (gone, db)
    else (accepted, accept now (kept_status existing) (adopted existing node) db)
heard none node_key now node db =
    if is_node_decommissioned node.id db
    then (gone, db)
    else (accepted, accept now "online" (joined node_key now node) db)

abbrev pub trimmed : StoredNode → StoredNode
trimmed node = record node { ip = trim_space node.ip }

abbrev pub heartbeat_of : Option StoredNode → (String → ℕ → String) → ℕ → Db → HeartbeatReply × Db
heartbeat_of none node_key now db = (bad_request, db)
heartbeat_of (some node) node_key now db =
    heard (get_node_by_addr (trim_space node.ip) node.port db) node_key now (trimmed node) db

-- `body` is the node that the request's text holds, if it can be read.
unfoldable pub handle_cluster_heartbeat :
    (String → ℕ → String) → ℕ → Bool → Bool → Option StoredNode → Db → HeartbeatReply × Db
handle_cluster_heartbeat node_key now is_post token_matches body db =
    if is_post
    then (if token_matches then heartbeat_of body node_key now db else (unauthorized, db))
    else (method_not_allowed, db)

-- The watch: a worker that was not heard of for 12 seconds.
abbrev pub is_lost : ℕ → StoredNode → Bool
is_lost now node =
    str_eq node.role "worker"
    && (str_eq node.status "online" && ltb (node.last_heartbeat + 12000000000) now)

-- `texts` prints the title and the message.
abbrev pub offline_alarm : (StoredNode → String × String) → StoredNode → Alarm
offline_alarm texts node = record {
  id = "";
  node_id = node.id;
  alarm_type = node_offline;
  severity = "CRITICAL";
  title = (texts node).0;
  message = (texts node).1;
  status = "";
  count = pos 0;
  first_occur_at = 0;
  last_occur_at = 0;
  resolved_at = 0;
}

unfoldable pub watch_node :
    (ℕ → String → String) → (StoredNode → String × String) → ℕ → StoredNode → Db → Db
watch_node alarm_id texts now node db =
    if is_lost now node
    then (create_or_aggregate_alarm alarm_id now (offline_alarm texts node)
        (save_node (record node { status = "offline" }) db)).1
    else db

unfoldable pub watch_nodes :
    (ℕ → String → String) → (StoredNode → String × String) → ℕ → List StoredNode → Db → Db
watch_nodes alarm_id texts now [] db = db
watch_nodes alarm_id texts now (node ∷ rest) db =
    watch_nodes alarm_id texts now rest (watch_node alarm_id texts now node db)

-- One turn of startNodeHealthAndAlarmMonitor; only the active manager watches.
unfoldable pub monitor : (ℕ → String → String) → (StoredNode → String × String) → ℕ → Bool → Db → Db
monitor alarm_id texts now is_active db =
    if is_active then watch_nodes alarm_id texts now (list_nodes db) db else db
