-- ===== src/Rules.antt =====
-- The report on an archive: DiagnoseDirectory of internal/rules/engine.go. The events of each file, as
-- DiagnoseFile finds them, come in the order in which the workers take the lock; a worker that sees the
-- limit reached hands over no more.
pub mod Report
use distribute_storage_log_a.Prelude.{
  ℕ, ◌+◌, ◌-◌, ◌≡◌, Bool, Option, none, some, List, [], ◌∷◌, ◌++◌, String, length, take,
  if◌then◌else◌, ltb, ◌==◌,
}
use distribute_storage_log_a.Prelude.Int.{ℤ, pos, ◌-ℤ◌, ltb_ℤ, pos_part}
use distribute_storage_log_a.Prelude.Text.{str_eq}
use distribute_storage_log_a.Model.{DiagnosisEvent, ReportStatus, running, completed, report_failed}

abbrev pub max_events : ℕ
max_events = 500

-- What a worker does under the lock with the events of a file.
unfoldable pub merge_events : List DiagnosisEvent → List DiagnosisEvent → List DiagnosisEvent
merge_events all events =
    if ltb (length all) max_events then all ++ take (max_events - length all) events else all

unfoldable pub collect_events :
    List (List DiagnosisEvent) → List DiagnosisEvent → List DiagnosisEvent
collect_events [] all = all
collect_events (events ∷ rest) all = collect_events rest (merge_events all events)

-- A map of counters, `m[key]++`.
unfoldable pub counter : String → List (String × ℕ) → ℕ
counter key [] = 0
counter key ((k, n) ∷ rest) = let behind = counter key rest in if str_eq key k then n else behind

unfoldable pub increment : String → List (String × ℕ) → List (String × ℕ)
increment key [] = (key, 1) ∷ []
increment key ((k, n) ∷ rest) =
    let behind = increment key rest in if str_eq key k then (k, n + 1) ∷ rest else (k, n) ∷ behind

abbrev pub severity_fatal : String
severity_fatal = "FATAL"

abbrev pub severity_critical : String
severity_critical = "CRITICAL"

abbrev pub severity_warning : String
severity_warning = "WARNING"

abbrev pub penalty : String → ℕ
penalty severity =
    if str_eq severity severity_fatal
    then 25
    else (if str_eq severity severity_critical
        then 10
        else (if str_eq severity severity_warning then 3 else 0))

pub record Totals : Type 0 where
  pub severity_summary : List (String × ℕ)
  pub storage_summary : List (String × ℕ)
  pub score : ℤ

unfoldable pub count_event : DiagnosisEvent → Totals → Totals
count_event ev t = record {
  severity_summary = increment ev.severity t.severity_summary;
  storage_summary = increment ev.storage_type t.storage_summary;
  score = t.score -ℤ pos (penalty ev.severity);
}

unfoldable pub count_events : List DiagnosisEvent → Totals → Totals
count_events [] t = t
count_events (ev ∷ rest) t = count_events rest (count_event ev t)

abbrev pub no_totals : Totals
no_totals = record { severity_summary = []; storage_summary = []; score = pos 100 }

pub record Summary : Type 0 where
  pub status : ReportStatus
  pub events : List DiagnosisEvent
  pub total_events : ℕ
  pub severities : List (String × ℕ)
  pub storages : List (String × ℕ)
  pub health_score : ℤ

unfoldable pub summary_of : List DiagnosisEvent → Summary
summary_of events =
    let totals = count_events events no_totals in
    record {
      status = completed;
      events = events;
      total_events = length events;
      severities = totals.severity_summary;
      storages = totals.storage_summary;
      health_score = if ltb_ℤ totals.score (pos 0) then pos 0 else totals.score;
    }

-- `walk_fails` and `files` are what the walk over the directory says; a directory without log files is healthy.
unfoldable pub diagnose_directory : Bool → ℕ → List (List DiagnosisEvent) → Summary
diagnose_directory walk_fails files results =
    if walk_fails
    then record {
      status = report_failed;
      events = [];
      total_events = 0;
      severities = [];
      storages = [];
      health_score = pos 0;
    }
    else (if files == 0
        then record {
          status = completed;
          events = [];
          total_events = 0;
          severities = [];
          storages = [];
          health_score = pos 100;
        }
        else summary_of (collect_events results []))
