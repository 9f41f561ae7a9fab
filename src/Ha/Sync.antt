-- ===== src/Ha/Sync.antt =====
-- The copy of the active's database at the standby: `syncOnce` of internal/manager/ha_sync.go and
-- `handleHASnapshot` of internal/manager/api.go. A database is known by its transaction number and
-- its contents; the conditional headers carry the number that the standby last saw.
pub mod Current
pub mod Diverged
use distribute_storage_log_a.Prelude.{
  ℕ, ◌≡◌, ◌<◌, refl, Bool, true, false, not, ◌||◌, Option, none, some, String, if◌then◌else◌, ltb,
  ◌==◌, arith, ap,
}
use distribute_storage_log_a.Prelude.Text.{str_eq, eq_refl}
use distribute_storage_log_a.Ha.{HaManager, standby, is_active, is_empty}

pub data SyncStatus : Type 0 where
  not_yet : SyncStatus
  synced : SyncStatus
  error : SyncStatus

-- Answers to a request for a snapshot. `snapshot` has the number in the header, where there is one,
-- and the bytes.
pub data Reply (Db : Type 0) : Type 0 where
  no_reply : Reply Db
  refused : Reply Db
  not_modified : Reply Db
  snapshot : Option ℕ → Db → Reply Db

pub record SyncEngine (Db : Type 0) : Type 0 where
  pub last_tx_id : ℕ
  pub last_sync_time : ℕ
  pub last_sync_bytes : ℕ
  pub sync_status : SyncStatus
  pub db : Db

-- The package bbolt under `Store`: the number of a database's last transaction, the bytes that
-- are written to reload it, and whether a snapshot can be reloaded.
pub record Bolt (Db : Type 0) : Type 0 where
  pub current_tx_id : Db → Option ℕ
  pub size : Db → ℕ
  pub reloads : Db → Bool

module _ {Db : Type 0} (bolt : Bolt Db) where
  -- Whether the number that the request carries is the current one.
  abbrev is_known : Option ℕ → Option ℕ → Bool
  is_known (some known) (some tx) = known == tx
  is_known none tx = false
  is_known (some known) none = false

  -- `exported` is the database when `ExportSnapshot` reads it, after `current` has given the number.
  unfoldable pub handle_snapshot :
      (method token cluster_token : String) → Option ℕ → (current exported : Db) → Reply Db
  handle_snapshot method token cluster_token known current exported =
      let tx = bolt.current_tx_id current in
      if not (str_eq method "GET") || not (str_eq token cluster_token)
      then refused
      else if is_known known tx
      then not_modified
      else snapshot tx exported

  -- The conditional header is set where a number is known.
  abbrev pub known_tx : SyncEngine Db → Option ℕ
  known_tx e = if ltb 0 e.last_tx_id then some e.last_tx_id else none

  abbrev pub tx_or_kept : Option ℕ → ℕ → ℕ
  tx_or_kept (some tx) old = tx
  tx_or_kept none old = old

  -- The number in the header, or that of the reloaded database.
  abbrev pub new_tx_id : Option ℕ → Db → ℕ → ℕ
  new_tx_id (some tx) db old = tx
  new_tx_id none db old = tx_or_kept (bolt.current_tx_id db) old

  unfoldable pub take_reply : Reply Db → ℕ → SyncEngine Db → SyncEngine Db
  take_reply no_reply now e = record e { sync_status = error }
  take_reply refused now e = record e { sync_status = error }
  take_reply not_modified now e = record e { sync_status = synced; last_sync_time = now }
  take_reply (snapshot tx db) now e =
      if bolt.reloads db
      then record e {
        last_tx_id = new_tx_id tx db e.last_tx_id;
        sync_status = synced;
        last_sync_time = now;
        last_sync_bytes = bolt.size db;
        db = db;
      }
      else record e { sync_status = error }

  -- `ask` is the request, with the conditional header; an active, or one without a peer, asks nothing.
  unfoldable pub sync_once : (Option ℕ → Reply Db) → ℕ → HaManager → SyncEngine Db → SyncEngine Db
  sync_once ask now h e =
      if is_active h.role || is_empty h.peer_url then e else take_reply (ask (known_tx e)) now e

  pub sync_once-standby :
      (ask : Option ℕ → Reply Db) (now : ℕ) (h : HaManager) (e : SyncEngine Db)
      → h.role ≡ standby
      → is_empty h.peer_url ≡ false
      → sync_once ask now h e ≡ take_reply (ask (known_tx e)) now e
  unfolding sync_once
  sync_once-standby ask now h e r p = rw (ap is_active r, p) refl
