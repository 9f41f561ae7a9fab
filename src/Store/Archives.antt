-- ===== src/Store/Archives.antt =====
-- Users, archives and reports in the database: internal/store/store.go. `now` is the time of an
-- operation.
use distribute_storage_log_a.Prelude.{
  ℕ, ◌+◌, Bool, true, false, not, ◌&&◌, ◌||◌, Option, none, some, List, [], String, if◌then◌else◌,
  ltb, ◌==◌, filter,
}
use distribute_storage_log_a.Prelude.Int.{ℤ, pos, ◌+ℤ◌, ◌-ℤ◌, pos_part, ltb_ℤ, leb_ℤ}
use distribute_storage_log_a.Prelude.Text.{str_eq}
use distribute_storage_log_a.Model.{LogArchive, DiagnosisReport}
use distribute_storage_log_a.Store.Bucket.{get, put, delete, values, sum}
use distribute_storage_log_a.Store.Db.{Db, User}

unfoldable pub save_user : ℕ → User → Db → Db
save_user now u db = record db { users = put u.username (record u { updated_at = now }) db.users }

abbrev pub get_user_by_username : String → Db → Option User
get_user_by_username username db = get username db.users

-- `DeleteUser`; the files of the user go, too. `none` is its error.
unfoldable pub delete_user : String → Db → Option Db
delete_user username db =
    if str_eq username "admin" then none else some (record db { users = delete username db.users })

-- Never below 0.
abbrev pub adjusted : ℤ → User → User
adjusted delta u = record u { used_storage_bytes = pos_part (pos u.used_storage_bytes +ℤ delta) }

abbrev adjust_user : Option User → ℕ → ℤ → Db → Db
adjust_user none now delta db = db
adjust_user (some u) now delta db = save_user now (adjusted delta u) db

-- `AdjustUserStorageUsage`; its error, of a user that is not there, is ignored by every caller.
unfoldable pub adjust_user_storage_usage : ℕ → String → ℤ → Db → Db
adjust_user_storage_usage now username delta db =
    adjust_user (get_user_by_username username db) now delta db

pub data QuotaResult : Type 0 where
  quota_ok : QuotaResult
  no_user : QuotaResult
  quota_exceeded : QuotaResult

-- The cached usage, or, where that is 0, what the files on disk use; `none` is an error of the walk.
abbrev pub usage_of : Option ℕ → User → ℕ
usage_of none u = u.used_storage_bytes
usage_of (some disk) u = if u.used_storage_bytes == 0 then disk else u.used_storage_bytes

abbrev pub fits : ℕ → ℤ → ℕ → QuotaResult
fits usage quota incoming =
    if ltb_ℤ quota (pos (usage + incoming)) then quota_exceeded else quota_ok

abbrev pub check_quota : Option User → Option ℕ → ℕ → ℕ → Db → QuotaResult × Db
check_quota none disk now incoming db = (no_user, db)
check_quota (some u) disk now incoming db =
    if leb_ℤ u.space_quota_bytes (pos 0) then (quota_ok, db) else (
      fits (usage_of disk u) u.space_quota_bytes incoming,
      if u.used_storage_bytes == 0 && ltb 0 (usage_of disk u)
          then save_user now (record u { used_storage_bytes = usage_of disk u }) db
          else db,
    )

-- `disk` is the answer of `CalculateUserStorageUsage`.
unfoldable pub check_user_quota : Option ℕ → ℕ → String → ℕ → Db → QuotaResult × Db
check_user_quota disk now username incoming db =
    check_quota (get_user_by_username username db) disk now incoming db

abbrev pub get_archive : String → Db → Option LogArchive
get_archive id db = get id db.archives

abbrev pub is_none : Option LogArchive → Bool
is_none none = true
is_none (some a) = false

-- Only an archive that was not there counts for its user.
unfoldable pub save_archive : ℕ → LogArchive → Db → Db
save_archive now a db =
    let stored = record db { archives = put a.id a db.archives } in
    if is_none (get_archive a.id db) && ltb 0 a.size && not (str_eq a.username "")
    then adjust_user_storage_usage now a.username (pos a.size) stored
    else stored

unfoldable pub list_archives : String → Bool → Db → List LogArchive
list_archives username is_admin db =
    filter (λ a. is_admin || str_eq a.username username) (values db.archives)

unfoldable pub list_archives_by_node : String → Db → List LogArchive
list_archives_by_node node_id db =
    filter (λ a. str_eq a.storage_node_id node_id) (values db.archives)

unfoldable pub calculate_node_storage_usage : String → Db → ℕ
calculate_node_storage_usage node_id db =
    sum (λ a. if str_eq a.storage_node_id node_id then a.size else 0) db.archives

-- The report goes to its file first, where `file_written`, and its summary to the bucket then. Both are
-- JSON: `through_json` is what json.Unmarshal reads from what json.Marshal wrote, which is another
-- report where a text is not valid UTF-8.
unfoldable pub save_report :
    (DiagnosisReport → DiagnosisReport) → Bool → DiagnosisReport → Db → Option Db
save_report through_json file_written rep db =
    if file_written
    then some (record db {
      report_files = put rep.archive_id (through_json rep) db.report_files;
      reports = put rep.archive_id (through_json (record rep { events = [] })) db.reports;
    })
    else none

abbrev pub or_summary : Option DiagnosisReport → Option DiagnosisReport → Option DiagnosisReport
or_summary (some rep) summary = some rep
or_summary none summary = summary

-- The files and the bucket hold reports as json.Unmarshal reads them.
unfoldable pub get_report : String → Db → Option DiagnosisReport
get_report archive_id db = or_summary (get archive_id db.report_files) (get archive_id db.reports)

unfoldable pub delete_report : String → Db → Db
delete_report archive_id db = record db {
  report_files = delete archive_id db.report_files;
  reports = delete archive_id db.reports;
}

pub data DeleteResult : Type 0 where
  deleted : DeleteResult
  not_found : DeleteResult
  permission_denied : DeleteResult

unfoldable pub remove_archive : ℕ → LogArchive → String → Db → Db
remove_archive now a id db =
    let without_report = delete_report id db in
    let credited =
      if ltb 0 a.size && not (str_eq a.username "")
      then adjust_user_storage_usage now a.username (pos 0 -ℤ pos a.size) without_report
      else without_report in
    record credited { archives = delete id credited.archives }

abbrev pub delete_found : Option LogArchive → ℕ → String → String → Bool → Db → DeleteResult × Db
delete_found none now id username is_admin db = (not_found, db)
delete_found (some a) now id username is_admin db =
    if not is_admin && not (str_eq a.username username)
    then (permission_denied, db)
    else (deleted, remove_archive now a id db)

-- The files of the archive are removed, too; errors of that are ignored.
unfoldable pub delete_archive : ℕ → String → String → Bool → Db → DeleteResult × Db
delete_archive now id username is_admin db =
    delete_found (get_archive id db) now id username is_admin db
