-- ===== src/Examples/Storage.antt =====
-- A database with a user, two archives and two nodes: internal/store/store.go,
-- internal/manager/retention.go and internal/manager/api.go.
use distribute_storage_log_a.Prelude.Text.{str_eq}
use distribute_storage_log_a.Prelude.{
  ◌*◌, leb, List, ℕ, ◌≡◌, ◌⊎◌, refl, true, false, Bool, none, some, [], ◌∷◌, String,
}
use distribute_storage_log_a.Prelude.Int.{pos, ◌-ℤ◌, ◌≤ℤ◌}
use distribute_storage_log_a.Model.{LogArchive, ready, no_error}
use distribute_storage_log_a.Store.Bucket.{get, sum, Distinct}
use distribute_storage_log_a.Store.Keys.{KeyedBy}
use distribute_storage_log_a.Store.Db.{Db, User, StoredNode}
use distribute_storage_log_a.Store.Archives.{
  save_archive, delete_archive, check_user_quota, get_report, get_archive, deleted,
  permission_denied,
}
use distribute_storage_log_a.Store.Accounts.{
  owned, Balanced, Keyed, save_archive-Balanced, delete_archive-Balanced, quota_kept,
}
use distribute_storage_log_a.Store.Reports.{may_delete, delete_archive_lem}
use distribute_storage_log_a.Store.Settings.{get_retention_config}
use distribute_storage_log_a.Retention.{
  Runtime, is_archive_exempt_from_auto_clean, is_expired, run_retention_cycle,
}
use distribute_storage_log_a.Retention.Deletion.{ArchivesKept}
use distribute_storage_log_a.Retention.Exempt.{
  run_retention_cycle_exempt, run_retention_cycle_expired,
}

abbrev archive_of : String → ℕ → Bool → ℕ → LogArchive
archive_of id size pinned time = record {
  id = id;
  username = "alice";
  filename = "logs.zip";
  size = size;
  status = ready;
  error_msg = no_error;
  file_count = 1;
  total_lines = 10;
  extract_path = "";
  storage_node_id = "w1";
  assigned_worker = "w1";
  tags = [];
  pinned = pinned;
  upload_time = time;
  finish_time = time;
}

abbrev alice : User
alice = record {
  username = "alice";
  password_hash = "";
  role = "user";
  space_quota_bytes = pos 1000;
  used_storage_bytes = 700;
  status = "active";
  updated_at = 0;
}

abbrev node_of : String → ℕ → StoredNode
node_of id port = record {
  id = id;
  name = id;
  ip = "10.0.0.1";
  port = port;
  role = "worker";
  status = "online";
  disk_total_mb = 100;
  disk_used_mb = 95;
  disk_used_percent = 9500;
  storage_used_bytes = 0;
  disk_device = "";
  last_heartbeat = 5;
  joined_at = 1;
}

abbrev site : Db
site = record {
  users = ("alice", alice) ∷ [];
  archives = ("a", archive_of "a" 300 false 1) ∷ ("b", archive_of "b" 400 true 2) ∷ [];
  nodes = ("w1", node_of "w1" 8081) ∷ ("w2", node_of "w2" 8082) ∷ [];
  decommissioned = [];
  alarms = [];
  report_files = [];
  reports = [];
  retention_config = none;
}

site-Keyed : Keyed site.users
unfolding KeyedBy
site-Keyed = (refl, tt)

site-Balanced : Balanced "alice" site
unfolding Balanced owned sum get
site-Balanced = refl

save_archive-Balanced_example : Balanced "alice" (save_archive 9 (archive_of "c" 200 false 3) site)
unfolding get
save_archive-Balanced_example =
    save_archive-Balanced 9 "alice" (archive_of "c" 200 false 3) site refl site-Keyed tt
      site-Balanced

delete_archive-Balanced_example : Balanced "alice" (delete_archive 9 "a" "alice" false site).1
delete_archive-Balanced_example =
    delete_archive-Balanced 9 "a" "alice" false "alice" site refl site-Keyed site-Balanced

quota_kept_example :
    pos (
      owned "alice"
        (save_archive 8 (archive_of "c" 300 false 3) (check_user_quota none 8 "alice" 300 site).1))
    ≤ℤ pos 1000
unfolding get check_user_quota
quota_kept_example =
    quota_kept none 8 (archive_of "c" 300 false 3) alice site refl refl site-Balanced refl refl

site_archives : Distinct site.archives
unfolding Distinct get
site_archives = (refl, (refl, tt))

no_reports : Distinct site.reports
unfolding Distinct
no_reports = tt

delete_archive_lem_example :
    let (result, after) = delete_archive 9 "a" "alice" false site in
    ((may_delete (archive_of "a" 300 false 1) "alice" false ≡ true)
      × ((result ≡ deleted)
          × ((get_archive "a" after ≡ none)
              × ((get_report "a" after ≡ none) × (get_archive "b" after ≡ get_archive "b" site)))))
    ⊎ ((may_delete (archive_of "a" 300 false 1) "alice" false ≡ false)
        × ((result ≡ permission_denied) × (after ≡ site)))
unfolding get
delete_archive_lem_example =
    delete_archive_lem 9 "a" "alice" false "b" (archive_of "a" 300 false 1) site site_archives
      no_reports no_reports refl refl

site-ArchivesKept : ArchivesKept site
unfolding ArchivesKept Distinct KeyedBy get
site-ArchivesKept = ((refl, (refl, tt)), (refl, (refl, tt)))

-- Texts that only equal themselves, days of 24 hours and exact percentages.
abbrev exact : Runtime
exact = record {
  equal_fold = str_eq;
  days_before = λ now days. pos now -ℤ pos (days * 86400000000000);
  at_most = λ used total target. leb (used * 100) (target * total);
}

-- A year later.
run_retention_cycle_exempt_example :
    get_archive "b" (run_retention_cycle exact 31536000000000000 site)
    ≡ some (archive_of "b" 400 true 2)
unfolding get is_archive_exempt_from_auto_clean
run_retention_cycle_exempt_example =
    run_retention_cycle_exempt exact 31536000000000000 "b" (archive_of "b" 400 true 2) site
      site-ArchivesKept refl refl

run_retention_cycle_expired_example :
    get_archive "a" (run_retention_cycle exact 31536000000000000 site) ≡ none
unfolding get is_archive_exempt_from_auto_clean get_retention_config is_expired ◌-ℤ◌
run_retention_cycle_expired_example =
    run_retention_cycle_expired exact 31536000000000000 "a" (archive_of "a" 300 false 1) site
      site-ArchivesKept refl refl refl refl refl
