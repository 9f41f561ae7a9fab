-- ===== src/Examples/Templates.antt =====
-- Three lines under a template and a report on two files: internal/indexer/drain.go and
-- internal/rules/engine.go.
use distribute_storage_log_a.Prelude.Int.{pos}
use distribute_storage_log_a.Model.{DiagnosisEvent}
use distribute_storage_log_a.Rules.{
  counter, diagnose_directory, severity_fatal, severity_critical, severity_warning,
}
use distribute_storage_log_a.Rules.Report.{count_of, diagnose_directory_lem}
use distribute_storage_log_a.Prelude.{◌+◌, ◌-◌, ◌*◌, refl, false, ◌≡◌, ◌≤◌, [], ◌∷◌, String, length}
use distribute_storage_log_a.Drain.{Line, new_drain_miner, add_lines}
use distribute_storage_log_a.Drain.Counts.{AllFit, log_of, total_count, templates_fit}

abbrev line_of : String → String → Line
line_of first last = record {
  raw = first;
  file = "a.log";
  line_no = 1;
  tokens = first ∷ "of" ∷ "osd" ∷ last ∷ [];
  level = "INFO";
  ts = "";
}

templates_fit_example :
    let start = new_drain_miner (55, 100) 4 in
    let lines = line_of "start" "alpha" ∷ line_of "start" "beta" ∷ line_of "stop" "beta" ∷ [] in
    let clusters = (add_lines (λ n. "L4") (λ tokens. "tpl") lines start).clusters in
    let log = log_of (λ n. "L4") (λ tokens. "tpl") lines start [] in
    AllFit clusters log × ((total_count clusters ≡ length log) × (length clusters ≤ 1000))
templates_fit_example =
    templates_fit (λ n. "L4") (λ tokens. "tpl") (55, 100) 4
      (line_of "start" "alpha" ∷ line_of "start" "beta" ∷ line_of "stop" "beta" ∷ [])

abbrev event_of : String → DiagnosisEvent
event_of severity = record {
  rule_id = "r";
  severity = severity;
  storage_type = "Ceph";
  file_path = "a.log";
  line_number = 1;
  matched_content = [];
  timestamp = [];
}

diagnose_directory_lem_example :
    let report =
      diagnose_directory false 2
        ((event_of "FATAL" ∷ event_of "WARNING" ∷ []) ∷ (event_of "FATAL" ∷ []) ∷ []) in
    (length report.events ≤ 500)
    × ((counter "FATAL" report.severities ≡ count_of "FATAL" report.events)
        × (report.health_score
            ≡ pos (
                100
                - (25 * count_of severity_fatal report.events
                    + 10 * count_of severity_critical report.events
                    + 3 * count_of severity_warning report.events))))
diagnose_directory_lem_example =
    diagnose_directory_lem 2
      ((event_of "FATAL" ∷ event_of "WARNING" ∷ []) ∷ (event_of "FATAL" ∷ []) ∷ []) "FATAL" refl
