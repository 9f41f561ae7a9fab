-- ===== src/Store/Db.antt =====
-- The buckets of the database and the files beside it: `Store` of internal/store/store.go. A failure
-- of bbolt itself is not modelled.
use distribute_storage_log_a.Prelude.{ℕ, Option, String}
use distribute_storage_log_a.Prelude.Int.{ℤ}
use distribute_storage_log_a.Model.{LogArchive, DiagnosisReport, RetentionConfig}
use distribute_storage_log_a.Store.Bucket.{Bucket}

-- A quota that is not positive is none.
pub record User : Type 0 where
  pub username : String
  pub password_hash : String
  pub role : String
  pub space_quota_bytes : ℤ
  pub used_storage_bytes : ℕ
  pub status : String
  pub updated_at : ℕ

-- `model.Node` as the store keeps it; a percentage is in hundredths, a time that is not set is 0.
pub record StoredNode : Type 0 where
  pub id : String
  pub name : String
  pub ip : String
  pub port : ℕ
  pub role : String
  pub status : String
  pub disk_total_mb : ℕ
  pub disk_used_mb : ℕ
  pub disk_used_percent : ℕ
  pub storage_used_bytes : ℕ
  pub disk_device : String
  pub last_heartbeat : ℕ
  pub joined_at : ℕ

-- The status is active, acknowledged or resolved, or empty in a request; a time that is not set is 0.
pub record Alarm : Type 0 where
  pub id : String
  pub node_id : String
  pub alarm_type : String
  pub severity : String
  pub title : String
  pub message : String
  pub status : String
  pub count : ℤ
  pub first_occur_at : ℕ
  pub last_occur_at : ℕ
  pub resolved_at : ℕ

-- `report_files` are the files reports/<archive>.json, `reports` the bucket of their summaries.
pub record Db : Type 0 where
  pub users : Bucket User
  pub archives : Bucket LogArchive
  pub nodes : Bucket StoredNode
  pub decommissioned : Bucket ℕ
  pub alarms : Bucket Alarm
  pub report_files : Bucket DiagnosisReport
  pub reports : Bucket DiagnosisReport
  pub retention_config : Option RetentionConfig
