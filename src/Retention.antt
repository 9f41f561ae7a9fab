-- ===== src/Retention.antt =====
-- The cycle that deletes old archives and frees full disks: internal/manager/retention.go. Times are in
-- nanoseconds; a node's reported percentage is in hundredths. Files on disks and the requests to the nodes that hold them are not modelled.

pub mod Deletion
pub mod Exempt
pub mod Watermark
use distribute_storage_log_a.Prelude.{
  ℕ, ◌+◌, ◌-◌, ◌*◌, ◌/◌, Bool, true, false, not, ◌&&◌, ◌||◌, List, [], ◌∷◌, any, filter, String,
  if◌then◌else◌, ltb, leb, ◌==◌,
}
use distribute_storage_log_a.Prelude.Int.{ℤ, pos, pos_part, leb_ℤ, ltb_ℤ}
use distribute_storage_log_a.Prelude.Text.{str_eq}
use distribute_storage_log_a.Model.{LogArchive, RetentionConfig}
use distribute_storage_log_a.Store.Db.{Db, StoredNode}
use distribute_storage_log_a.Store.Archives.{
  DeleteResult, deleted, not_found, permission_denied, delete_archive, list_archives,
  list_archives_by_node,
}
use distribute_storage_log_a.Store.Settings.{get_retention_config}
use distribute_storage_log_a.Store.Nodes.{list_nodes}
use distribute_storage_log_a.Prelude.Strings.{trim_space}

-- What Go and its libraries answer: strings.EqualFold; the time `days` days before `now`, by
-- Time.AddDate, which follows the clock's changes; and whether
-- `float64(used)/float64(total)*100 <= float64(target)`.
pub record Runtime : Type 0 where
  pub equal_fold : String → String → Bool
  pub days_before : (now days : ℕ) → ℤ
  pub at_most : (used total target : ℕ) → Bool

unfoldable pub delete_archive_storage_and_meta : ℕ → LogArchive → Db → DeleteResult × Db
delete_archive_storage_and_meta now a db = delete_archive now a.id a.username true db

-- sort.Slice, the oldest first.
unfoldable pub insert_oldest : LogArchive → List LogArchive → List LogArchive
insert_oldest a [] = a ∷ []
insert_oldest a (b ∷ rest) =
    let behind = insert_oldest a rest in
    if ltb b.upload_time a.upload_time then b ∷ behind else a ∷ b ∷ rest

unfoldable pub sort_oldest : List LogArchive → List LogArchive
sort_oldest [] = []
sort_oldest (a ∷ rest) = insert_oldest a (sort_oldest rest)

abbrev pub is_deleted : DeleteResult → Bool
is_deleted deleted = true
is_deleted not_found = false
is_deleted permission_denied = false

abbrev pub used_after : DeleteResult → LogArchive → ℕ → ℕ
used_after result a used_mb = if is_deleted result then used_mb - a.size / 1048576 else used_mb

-- A threshold that is not positive is the default one.
abbrev pub threshold : ℤ → ℕ → ℕ
threshold percent default = if leb_ℤ percent (pos 0) then default else pos_part percent

abbrev pub is_full : RetentionConfig → StoredNode → Bool
is_full cfg node =
    str_eq node.status "online"
    && (ltb 0 node.disk_used_percent
        && leb (threshold cfg.emergency_watermark_percent 92 * 100) node.disk_used_percent)

module _ (go : Runtime) where
  abbrev tag_matches : String → List String → Bool
  tag_matches tag exempt_tags =
      any
        (λ exempt.
          not (str_eq (trim_space exempt) "") && go.equal_fold (trim_space tag) (trim_space exempt))
        exempt_tags

  unfoldable pub is_archive_exempt_from_auto_clean : LogArchive → RetentionConfig → Bool
  is_archive_exempt_from_auto_clean a cfg =
      a.pinned
      || any (λ tag. not (str_eq (trim_space tag) "") && tag_matches tag cfg.exempt_tags) a.tags

  unfoldable pub is_expired : ℕ → RetentionConfig → LogArchive → Bool
  is_expired now cfg a =
      ltb_ℤ (pos a.upload_time) (go.days_before now (pos_part cfg.retention_days))

  -- An error of a deletion is logged only.
  unfoldable pub clean_if_expired : ℕ → RetentionConfig → LogArchive → Db → Db
  clean_if_expired now cfg a db =
      if not (is_archive_exempt_from_auto_clean a cfg) && is_expired now cfg a
      then (delete_archive_storage_and_meta now a db).1
      else db

  unfoldable pub clean_expired : ℕ → RetentionConfig → List LogArchive → Db → Db
  clean_expired now cfg [] db = db
  clean_expired now cfg (a ∷ rest) db = clean_expired now cfg rest (clean_if_expired now cfg a db)

  -- The use that the loop stops with, and the database.
  unfoldable pub clean_until : ℕ → ℕ → ℕ → ℕ → List LogArchive → Db → ℕ × Db
  clean_until now target total_mb used_mb [] db = (used_mb, db)
  clean_until now target total_mb used_mb (a ∷ rest) db =
      let (result, after) = delete_archive_storage_and_meta now a db in
      let behind = clean_until now target total_mb (used_after result a used_mb) rest after in
      if go.at_most used_mb total_mb target then (used_mb, db) else behind

  unfoldable pub candidates : RetentionConfig → String → Db → List LogArchive
  candidates cfg node_id db = sort_oldest (
      filter (λ a. not (is_archive_exempt_from_auto_clean a cfg))
        (list_archives_by_node node_id db))

  unfoldable pub heal_node : ℕ → RetentionConfig → StoredNode → Db → Db
  heal_node now cfg node db =
      if is_full cfg node && ltb 0 node.disk_total_mb
      then (clean_until now (threshold cfg.target_watermark_percent 75) node.disk_total_mb
          node.disk_used_mb (candidates cfg node.id db) db).1
      else db

  unfoldable pub heal_nodes : ℕ → RetentionConfig → List StoredNode → Db → Db
  heal_nodes now cfg [] db = db
  heal_nodes now cfg (node ∷ rest) db = heal_nodes now cfg rest (heal_node now cfg node db)

  unfoldable pub clean_by_age : ℕ → RetentionConfig → Db → Db
  clean_by_age now cfg db =
      if ltb_ℤ (pos 0) cfg.retention_days
      then clean_expired now cfg (list_archives "" true db) db
      else db

  unfoldable pub run_retention_cycle : ℕ → Db → Db
  run_retention_cycle now db =
      let cfg = get_retention_config db in
      if cfg.auto_clean_enabled
      then (let aged = clean_by_age now cfg db in heal_nodes now cfg (list_nodes aged) aged)
      else db
