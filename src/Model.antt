-- ===== src/Model.antt =====
-- Data that several parts share: `LogArchive` of internal/model/model.go, with the fields that the
-- models read or write.
use distribute_storage_log_a.Prelude.{ℕ, Bool, List, String}
use distribute_storage_log_a.Prelude.Int.{ℤ}

pub data ArchiveStatus : Type 0 where
  uploading : ArchiveStatus
  extracting : ArchiveStatus
  analyzing : ArchiveStatus
  ready : ArchiveStatus
  failed : ArchiveStatus

-- The texts of ErrorMsg.
pub data ArchiveError : Type 0 where
  no_error : ArchiveError
  extract_error : ArchiveError
  no_space_error : ArchiveError
  rules_error : ArchiveError

pub record LogArchive : Type 0 where
  pub id : String
  pub username : String
  pub filename : String
  pub size : ℕ
  pub status : ArchiveStatus
  pub error_msg : ArchiveError
  pub file_count : ℕ
  pub total_lines : ℕ
  pub extract_path : String
  pub storage_node_id : String
  pub assigned_worker : String
  pub tags : List String
  pub pinned : Bool
  pub upload_time : ℕ
  pub finish_time : ℕ

-- `DiagnosisEvent` and `DiagnosisReport`; texts of log lines are bytes.
pub record DiagnosisEvent : Type 0 where
  pub rule_id : String
  pub severity : String
  pub storage_type : String
  pub file_path : String
  pub line_number : ℕ
  pub matched_content : List ℕ
  pub timestamp : List ℕ

pub data ReportStatus : Type 0 where
  running : ReportStatus
  completed : ReportStatus
  report_failed : ReportStatus

pub record DiagnosisReport : Type 0 where
  pub archive_id : String
  pub status : ReportStatus
  pub total_events : ℕ
  pub events : List DiagnosisEvent
  pub health_score : ℕ

pub record RetentionConfig : Type 0 where
  pub retention_days : ℤ
  pub high_watermark_percent : ℤ
  pub emergency_watermark_percent : ℤ
  pub target_watermark_percent : ℤ
  pub auto_clean_enabled : Bool
  pub exempt_tags : List String
