-- ===== src/Nodes/Removal.antt =====
-- How a node is removed: handleRemoveNode of internal/manager/api.go. The transfer of an archive's file
-- and its analysis on the other node are a parameter.
use distribute_storage_log_a.Prelude.{
  ℕ, ◌+◌, Bool, true, false, not, ◌&&◌, Option, none, some, List, [], ◌∷◌, String, if◌then◌else◌,
  ltb, length,
}
use distribute_storage_log_a.Prelude.Text.{str_eq}
use distribute_storage_log_a.Model.{LogArchive}
use distribute_storage_log_a.Store.Db.{Db, StoredNode}
use distribute_storage_log_a.Store.Archives.{save_archive, delete_archive, list_archives_by_node}
use distribute_storage_log_a.Store.Nodes.{get_node, decommission_node}
use distribute_storage_log_a.Store.Alarms.{resolve_alarm}
use distribute_storage_log_a.Nodes.{node_offline}

-- The answer of the node that took an archive.
pub record Uploaded : Type 0 where
  pub extract_path : String
  pub file_count : ℕ
  pub total_lines : ℕ

abbrev pub if_positive : ℕ → ℕ → ℕ
if_positive new old = if ltb 0 new then new else old

unfoldable pub moved : String → Uploaded → LogArchive → LogArchive
moved target up a = record a {
  storage_node_id = target;
  extract_path = up.extract_path;
  file_count = if_positive up.file_count a.file_count;
  total_lines = if_positive up.total_lines a.total_lines;
}

abbrev pub save_moved : Option Uploaded → ℕ → String → LogArchive → Db → ℕ × Db
save_moved none now target a db = (0, db)
save_moved (some up) now target a db = (1, save_archive now (moved target up a) db)

-- `transfer` is `none` where the file could not be read or sent: the archive is passed over then.
unfoldable pub migrate : (LogArchive → Option Uploaded) → ℕ → String → List LogArchive → Db → ℕ × Db
migrate transfer now target [] db = (0, db)
migrate transfer now target (a ∷ rest) db =
    let (one, after) = save_moved (transfer a) now target a db in
    let (others, done) = migrate transfer now target rest after in (one + others, done)

unfoldable pub delete_listed : ℕ → List LogArchive → Db → Db
delete_listed now [] db = db
delete_listed now (a ∷ rest) db =
    delete_listed now rest (delete_archive now a.id a.username true db).1

pub data RemoveReply : Type 0 where
  no_such_node : RemoveReply
  bad_target : RemoveReply
  migrated : ℕ → RemoveReply
  cleaned : ℕ → RemoveReply
  retained : ℕ → RemoveReply

unfoldable pub sign_off : ℕ → String → Db → Db
sign_off now node_id db =
    (resolve_alarm now node_id node_offline (decommission_node now node_id db)).1

abbrev pub is_worker_online : Option StoredNode → Bool
is_worker_online none = false
is_worker_online (some n) = str_eq n.role "worker" && str_eq n.status "online"

abbrev pub valid_target : String → String → Db → Bool
valid_target node_id target db =
    not (str_eq target "")
    && (not (str_eq target node_id)
        && (not (str_eq target "manager_primary")
            && (not (str_eq target "local") && is_worker_online (get_node target db))))

unfoldable pub move_away :
    (LogArchive → Option Uploaded) → ℕ → String → String → Db → RemoveReply × Db
move_away transfer now node_id target db =
    let (count, after) = migrate transfer now target (list_archives_by_node node_id db) db in
    if valid_target node_id target db
    then (migrated count, sign_off now node_id after)
    else (bad_target, db)

-- What is asked for; an empty action is to retain the archives, as is any other.
abbrev pub remove_known :
    (LogArchive → Option Uploaded) → ℕ → String → String → String → Db → RemoveReply × Db
remove_known transfer now action target node_id db =
    let archives = list_archives_by_node node_id db in
    if str_eq action "migrate"
    then move_away transfer now node_id target db
    else (if str_eq action "delete"
        then (cleaned (length archives), sign_off now node_id (delete_listed now archives db))
        else (retained (length archives), sign_off now node_id db))

abbrev pub remove_of :
    Option StoredNode
    → (LogArchive → Option Uploaded)
    → ℕ
    → String
    → String
    → String
    → Db
    → RemoveReply × Db
remove_of none transfer now action target node_id db = (no_such_node, db)
remove_of (some n) transfer now action target node_id db =
    remove_known transfer now action target node_id db

unfoldable pub handle_remove_node :
    (LogArchive → Option Uploaded) → ℕ → String → String → String → Db → RemoveReply × Db
handle_remove_node transfer now action target node_id db =
    remove_of (get_node node_id db) transfer now action target node_id db
