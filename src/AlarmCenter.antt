-- ===== src/AlarmCenter.antt =====
-- The requests that change alarms: handleAlarmReport, handleAlarmItem and handleClearResolvedAlarms of
-- internal/manager/api.go. The name and the address that a report adds to an alarm are not modelled.
pub mod Runs
use distribute_storage_log_a.Prelude.{
  ℕ, ◌≡◌, Bool, Option, none, some, List, [], ◌∷◌, String, if◌then◌else◌,
}
use distribute_storage_log_a.Prelude.Int.{pos}
use distribute_storage_log_a.Prelude.Text.{str_eq}
use distribute_storage_log_a.Store.Db.{Db, Alarm}
use distribute_storage_log_a.Store.Alarms.{
  create_or_aggregate_alarm, resolve_alarm, acknowledge_alarm, manual_resolve_alarm, delete_alarm,
  clear_resolved_alarms,
}
use distribute_storage_log_a.Sessions.{
  Server, Credentials, AuthResult, no_token, no_session, no_account, authenticated, authenticate,
}

pub data Method : Type 0 where
  post : Method
  delete_method : Method
  other_method : Method

pub data AlarmReply : Type 0 where
  method_not_allowed : AlarmReply
  unauthorized : AlarmReply
  bad_request : AlarmReply
  forbidden : AlarmReply
  failed : AlarmReply
  done : AlarmReply

-- A worker's report of a trouble, or of its end.
pub record AlarmReport : Type 0 where
  pub node_id : String
  pub alarm_type : String
  pub severity : String
  pub title : String
  pub message : String
  pub action : String

abbrev pub alarm_of_report : AlarmReport → Alarm
alarm_of_report req = record {
  id = "";
  node_id = req.node_id;
  alarm_type = req.alarm_type;
  severity = req.severity;
  title = req.title;
  message = req.message;
  status = "";
  count = pos 0;
  first_occur_at = 0;
  last_occur_at = 0;
  resolved_at = 0;
}

abbrev pub with_db : Server → Db → Server
with_db s db = record s { db = db }

abbrev pub report_of : Option AlarmReport → (ℕ → String → String) → ℕ → Server → AlarmReply × Server
report_of none alarm_id now s = (bad_request, s)
report_of (some req) alarm_id now s =
    if str_eq req.action "resolve"
    then (done, with_db s (resolve_alarm now req.node_id req.alarm_type s.db).1)
    else (done, with_db s (create_or_aggregate_alarm alarm_id now (alarm_of_report req) s.db).1)

-- `body` is the report that the request's text holds, if it can be read.
unfoldable pub handle_alarm_report :
    (ℕ → String → String) → ℕ → Method → Bool → Option AlarmReport → Server → AlarmReply × Server
handle_alarm_report alarm_id now post token_matches body s =
    if token_matches then report_of body alarm_id now s else (unauthorized, s)
handle_alarm_report alarm_id now delete_method token_matches body s = (method_not_allowed, s)
handle_alarm_report alarm_id now other_method token_matches body s = (method_not_allowed, s)

abbrev pub admin_only : AuthResult → AlarmReply × Server → Server → AlarmReply × Server
admin_only no_token next s = (forbidden, s)
admin_only no_session next s = (forbidden, s)
admin_only no_account next s = (forbidden, s)
admin_only (authenticated u) next s = if str_eq u.role "admin" then next else (forbidden, s)

abbrev pub if_saved : Option Db → Server → AlarmReply × Server
if_saved none s = (failed, s)
if_saved (some db) s = (done, with_db s db)

-- What remains after the actions of the path: a deletion.
abbrev pub delete_or_refuse : Method → String → Server → AlarmReply × Server
delete_or_refuse post alarm_id s = (method_not_allowed, s)
delete_or_refuse delete_method alarm_id s = (done, with_db s (delete_alarm alarm_id s.db))
delete_or_refuse other_method alarm_id s = (method_not_allowed, s)

abbrev pub act : ℕ → Method → String → String → Server → AlarmReply × Server
act now post alarm_id action s =
    if str_eq action "ack"
    then if_saved (acknowledge_alarm alarm_id s.db) s
    else (if str_eq action "resolve"
        then if_saved (manual_resolve_alarm now alarm_id s.db) s
        else (method_not_allowed, s))
act now delete_method alarm_id action s = delete_or_refuse delete_method alarm_id s
act now other_method alarm_id action s = (method_not_allowed, s)

abbrev pub item_of : ℕ → Method → String → List String → Server → AlarmReply × Server
item_of now method alarm_id [] s = delete_or_refuse method alarm_id s
item_of now method alarm_id (action ∷ []) s = act now method alarm_id action s
item_of now method alarm_id (first ∷ second ∷ rest) s = delete_or_refuse method alarm_id s

abbrev pub item_at : ℕ → Method → List String → Server → AlarmReply × Server
item_at now method [] s = (bad_request, s)
item_at now method (alarm_id ∷ rest) s =
    if str_eq alarm_id "" then (bad_request, s) else item_of now method alarm_id rest s

-- `parts` are what stands between the slashes of the path, behind /api/alarms/.
unfoldable pub handle_alarm_item :
    ℕ → Method → Credentials → List String → Server → AlarmReply × Server
handle_alarm_item now method c parts s =
    admin_only (authenticate c s) (item_at now method parts s) s

unfoldable pub handle_clear_resolved_alarms : Method → Credentials → Server → AlarmReply × Server
handle_clear_resolved_alarms post c s =
    admin_only (authenticate c s) (done, with_db s (clear_resolved_alarms s.db).1) s
handle_clear_resolved_alarms delete_method c s = (method_not_allowed, s)
handle_clear_resolved_alarms other_method c s = (method_not_allowed, s)

pub data AlarmRequest : Type 0 where
  report_request : Method → Bool → Option AlarmReport → AlarmRequest
  item_request : Method → Credentials → List String → AlarmRequest
  clear_request : Method → Credentials → AlarmRequest

unfoldable pub serve : (ℕ → String → String) → ℕ → AlarmRequest → Server → AlarmReply × Server
serve alarm_id now (report_request method token_matches body) s =
    handle_alarm_report alarm_id now method token_matches body s
serve alarm_id now (item_request method c parts) s = handle_alarm_item now method c parts s
serve alarm_id now (clear_request method c) s = handle_clear_resolved_alarms method c s

-- Requests, each at its time.
unfoldable pub serve_all : (ℕ → String → String) → List (ℕ × AlarmRequest) → Server → Server
serve_all alarm_id [] s = s
serve_all alarm_id ((now, r) ∷ rest) s = serve_all alarm_id rest (serve alarm_id now r s).1
