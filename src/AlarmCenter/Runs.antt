-- ===== src/AlarmCenter/Runs.antt =====
-- What the requests of AlarmCenter.antt do to the alarms: the operations of the store, or nothing.
use distribute_storage_log_a.Prelude.{
  ℕ, ◌≤◌, Bool, true, false, Option, none, some, List, [], ◌∷◌, String, Bool-cases, Option-cases,
  inl, inr,
}
use distribute_storage_log_a.Prelude.Text.{str_eq}
use distribute_storage_log_a.Store.Db.{Db}
use distribute_storage_log_a.Store.Alarms.{
  create_or_aggregate_alarm, resolve_alarm, acknowledge_alarm, manual_resolve_alarm, delete_alarm,
  clear_resolved_alarms,
}
use distribute_storage_log_a.Store.Aggregation.{Kept, open_count}
use distribute_storage_log_a.Store.AlarmSteps.{
  AlarmStep, AlarmRun, still, next, raise, resolve, acknowledge, resolve_by_hand, remove, clear,
  run_single,
}
use distribute_storage_log_a.Sessions.{
  Server, Credentials, AuthResult, no_token, no_session, no_account, authenticated, authenticate,
}
use distribute_storage_log_a.AlarmCenter.{
  Method, post, delete_method, other_method, AlarmReply, report_of, alarm_of_report,
  handle_alarm_report, admin_only, if_saved, delete_or_refuse, act, item_of, item_at,
  handle_alarm_item, handle_clear_resolved_alarms, AlarmRequest, report_request, item_request,
  clear_request, serve, serve_all, AlarmReport,
}

one : (before after : Db) → AlarmStep before after → AlarmRun before after
one before after step = next before after after step (still after)

run_then : (a b c : Db) → AlarmRun a b → AlarmRun b c → AlarmRun a c
run_then a _ c (still _) more = more
run_then a b c (next _ between _ step rest) more =
    next a between c step (run_then between b c rest more)

-- A reply whose server's database is behind a run.
abbrev Runs : Server → AlarmReply × Server → Type 0
Runs s result = AlarmRun s.db result.1.db

report_of-Runs :
    (body : Option AlarmReport) (alarm_id : ℕ → String → String) (now : ℕ) (s : Server)
    → Runs s (report_of body alarm_id now s)
report_of-Runs none alarm_id now s = still s.db
report_of-Runs (some req) alarm_id now s = elim (Bool-cases (str_eq req.action "resolve")) [
  | inl e ↦ rw e (
      one s.db (resolve_alarm now req.node_id req.alarm_type s.db).1
        (resolve now req.node_id req.alarm_type s.db))
  | inr e ↦ rw e (
      one s.db (create_or_aggregate_alarm alarm_id now (alarm_of_report req) s.db).1
        (raise alarm_id now (alarm_of_report req) s.db))
]

report-Runs :
    (alarm_id : ℕ → String → String) (now : ℕ) (method : Method) (token_matches : Bool)
    (body : Option AlarmReport) (s : Server)
    → Runs s (handle_alarm_report alarm_id now method token_matches body s)
unfolding handle_alarm_report
report-Runs alarm_id now post true body s = report_of-Runs body alarm_id now s
report-Runs alarm_id now post false body s = still s.db
report-Runs alarm_id now delete_method token_matches body s = still s.db
report-Runs alarm_id now other_method token_matches body s = still s.db

admin-Runs :
    (auth : AuthResult) (result : AlarmReply × Server) (s : Server)
    → Runs s result
    → Runs s (admin_only auth result s)
admin-Runs no_token result s h = still s.db
admin-Runs no_session result s h = still s.db
admin-Runs no_account result s h = still s.db
admin-Runs (authenticated u) result s h = elim (Bool-cases (str_eq u.role "admin")) [
  | inl e ↦ rw e h
  | inr e ↦ rw e (still s.db)
]

delete-Runs : (method : Method) (id : String) (s : Server) → Runs s (delete_or_refuse method id s)
delete-Runs post id s = still s.db
delete-Runs delete_method id s = one s.db (delete_alarm id s.db) (remove id s.db)
delete-Runs other_method id s = still s.db

acknowledge-Runs : (id : String) (s : Server) → Runs s (if_saved (acknowledge_alarm id s.db) s)
acknowledge-Runs id s = elim (Option-cases (acknowledge_alarm id s.db)) [
  | inl e ↦ rw e (still s.db)
  | inr (after, e) ↦ rw e (one s.db after (acknowledge id s.db after e))
]

manual-Runs :
    (now : ℕ) (id : String) (s : Server) → Runs s (if_saved (manual_resolve_alarm now id s.db) s)
manual-Runs now id s = elim (Option-cases (manual_resolve_alarm now id s.db)) [
  | inl e ↦ rw e (still s.db)
  | inr (after, e) ↦ rw e (one s.db after (resolve_by_hand now id s.db after e))
]

act-Runs :
    (now : ℕ) (method : Method) (id action : String) (s : Server)
    → Runs s (act now method id action s)
act-Runs now post id action s = elim (Bool-cases (str_eq action "ack")) [
  | inl a ↦ rw a (acknowledge-Runs id s)
  | inr n ↦ elim (Bool-cases (str_eq action "resolve")) [
    | inl r ↦ rw (n, r) (manual-Runs now id s)
    | inr o ↦ rw (n, o) (still s.db)
  ]
]
act-Runs now delete_method id action s = delete-Runs delete_method id s
act-Runs now other_method id action s = still s.db

item_of-Runs :
    (now : ℕ) (method : Method) (id : String) (rest : List String) (s : Server)
    → Runs s (item_of now method id rest s)
item_of-Runs now method id [] s = delete-Runs method id s
item_of-Runs now method id (action ∷ []) s = act-Runs now method id action s
item_of-Runs now method id (first ∷ second ∷ rest) s = delete-Runs method id s

item_at-Runs :
    (now : ℕ) (method : Method) (parts : List String) (s : Server)
    → Runs s (item_at now method parts s)
item_at-Runs now method [] s = still s.db
item_at-Runs now method (id ∷ rest) s = elim (Bool-cases (str_eq id "")) [
  | inl e ↦ rw e (still s.db)
  | inr e ↦ rw e (item_of-Runs now method id rest s)
]

clear-Runs :
    (method : Method) (c : Credentials) (s : Server)
    → Runs s (handle_clear_resolved_alarms method c s)
unfolding handle_clear_resolved_alarms
clear-Runs post c s =
    admin-Runs (authenticate c s) _ s (one s.db (clear_resolved_alarms s.db).1 (clear s.db))
clear-Runs delete_method c s = still s.db
clear-Runs other_method c s = still s.db

serve-Runs :
    (alarm_id : ℕ → String → String) (now : ℕ) (r : AlarmRequest) (s : Server)
    → Runs s (serve alarm_id now r s)
unfolding serve handle_alarm_item
serve-Runs alarm_id now (report_request method token_matches body) s =
    report-Runs alarm_id now method token_matches body s
serve-Runs alarm_id now (item_request method c parts) s =
    admin-Runs (authenticate c s) (item_at now method parts s) s (item_at-Runs now method parts s)
serve-Runs alarm_id now (clear_request method c) s = clear-Runs method c s

serve_all-Runs :
    (alarm_id : ℕ → String → String) (requests : List (ℕ × AlarmRequest)) (s : Server)
    → AlarmRun s.db (serve_all alarm_id requests s).db
unfolding serve_all
serve_all-Runs alarm_id [] s = still s.db
serve_all-Runs alarm_id ((now, r) ∷ rest) s =
    let after = (serve alarm_id now r s).1 in
    run_then s.db after.db (serve_all alarm_id rest after).db (serve-Runs alarm_id now r s)
      (serve_all-Runs alarm_id rest after)

-- Whatever requests on alarms the manager gets, allowed or not, in whatever order, a node and a type
-- have at most one open alarm behind them, if they had at most one before; alarms stand under their
-- ids and each id once.
pub serve_all_single :
    (alarm_id : ℕ → String → String) (requests : List (ℕ × AlarmRequest)) (n t : String)
    (s : Server)
    → Kept s.db
    → open_count n t s.db ≤ 1
    → open_count n t (serve_all alarm_id requests s).db ≤ 1
serve_all_single alarm_id requests n t s kept single =
    run_single n t s.db (serve_all alarm_id requests s).db (serve_all-Runs alarm_id requests s) kept
      single
