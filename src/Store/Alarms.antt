-- ===== src/Store/Alarms.antt =====
-- Alarms of the nodes, one for each trouble that lasts: internal/store/store.go. Times are in
-- nanoseconds.
use distribute_storage_log_a.Prelude.{
  ℕ, ◌+◌, ◌/◌, Bool, not, ◌&&◌, ◌||◌, Option, none, some, List, [], ◌∷◌, String, if◌then◌else◌, ltb,
  ◌==◌, filter, length,
}
use distribute_storage_log_a.Prelude.Int.{pos, ◌+ℤ◌, leb_ℤ}
use distribute_storage_log_a.Prelude.Text.{str_eq}
use distribute_storage_log_a.Store.Bucket.{Bucket, get, put, delete, values}
use distribute_storage_log_a.Store.Db.{Db, Alarm}

abbrev pub status_active : String
status_active = "active"

abbrev pub status_acknowledged : String
status_acknowledged = "acknowledged"

abbrev pub status_resolved : String
status_resolved = "resolved"

unfoldable pub is_open : Alarm → Bool
is_open a = not (str_eq a.status status_resolved)

unfoldable pub is_active_of : String → String → Alarm → Bool
is_active_of node_id alarm_type a =
    str_eq a.node_id node_id && str_eq a.alarm_type alarm_type && is_open a

unfoldable pub save_alarm : Alarm → Db → Db
save_alarm a db = record db { alarms = put a.id a db.alarms }

abbrev pub get_alarm : String → Db → Option Alarm
get_alarm id db = get id db.alarms

-- The walk does not stop at a match, so the last one stands.
unfoldable pub last_active : String → String → Bucket Alarm → Option Alarm → Option Alarm
last_active node_id alarm_type [] target = target
last_active node_id alarm_type ((k, a) ∷ rest) target =
    last_active node_id alarm_type rest
      (if is_active_of node_id alarm_type a then some a else target)

unfoldable pub find_active_alarm : String → String → Db → Option Alarm
find_active_alarm node_id alarm_type db = last_active node_id alarm_type db.alarms none

abbrev pub or_text : String → String → String
or_text new old = if str_eq new "" then old else new

unfoldable pub aggregated : ℕ → Alarm → Alarm → Alarm
aggregated now incoming existing = record existing {
  count = existing.count +ℤ pos 1;
  last_occur_at = now;
  message = incoming.message;
  severity = or_text incoming.severity existing.severity;
  title = or_text incoming.title existing.title;
}

-- `alarm_id` prints the milliseconds and the type of an alarm as its key.
unfoldable pub first_alarm : (ℕ → String → String) → ℕ → Alarm → Alarm
first_alarm alarm_id now incoming = record incoming {
  id = if str_eq incoming.id "" then alarm_id (now / 1000000) incoming.alarm_type else incoming.id;
  status = or_text incoming.status status_active;
  count = if leb_ℤ incoming.count (pos 0) then pos 1 else incoming.count;
  first_occur_at = if incoming.first_occur_at == 0 then now else incoming.first_occur_at;
  last_occur_at = now;
}

abbrev pub raised : Option Alarm → (ℕ → String → String) → ℕ → Alarm → Alarm
raised (some existing) alarm_id now incoming = aggregated now incoming existing
raised none alarm_id now incoming = first_alarm alarm_id now incoming

unfoldable pub create_or_aggregate_alarm : (ℕ → String → String) → ℕ → Alarm → Db → Alarm × Db
create_or_aggregate_alarm alarm_id now incoming db =
    let saved =
      raised (find_active_alarm incoming.node_id incoming.alarm_type db) alarm_id now incoming in
    (saved, save_alarm saved db)

abbrev pub resolved : ℕ → Alarm → Alarm
resolved now a = record a { status = status_resolved; resolved_at = now }

abbrev pub resolve_found : Option Alarm → ℕ → Db → Option Alarm × Db
resolve_found none now db = (none, db)
resolve_found (some existing) now db =
    (some (resolved now existing), save_alarm (resolved now existing) db)

unfoldable pub resolve_alarm : ℕ → String → String → Db → Option Alarm × Db
resolve_alarm now node_id alarm_type db =
    resolve_found (find_active_alarm node_id alarm_type db) now db

-- The latest first.
abbrev pub insert_latest : Alarm → List Alarm → List Alarm
insert_latest a [] = a ∷ []
insert_latest a (b ∷ rest) =
    let behind = insert_latest a rest in
    if ltb a.last_occur_at b.last_occur_at then b ∷ behind else a ∷ b ∷ rest

abbrev pub sort_latest : List Alarm → List Alarm
sort_latest [] = []
sort_latest (a ∷ rest) = insert_latest a (sort_latest rest)

abbrev pub listed : String → Alarm → Bool
listed status_filter a =
    str_eq status_filter ""
    || str_eq status_filter "all"
    || str_eq a.status status_filter
    || str_eq status_filter status_active && is_open a

unfoldable pub list_alarms : String → Db → List Alarm
list_alarms status_filter db = sort_latest (filter (listed status_filter) (values db.alarms))

abbrev pub acknowledge_found : Option Alarm → Db → Option Db
acknowledge_found none db = none
acknowledge_found (some a) db =
    if str_eq a.status status_resolved
    then none
    else some (save_alarm (record a { status = status_acknowledged }) db)

-- `none` where the code returns an error.
unfoldable pub acknowledge_alarm : String → Db → Option Db
acknowledge_alarm id db = acknowledge_found (get_alarm id db) db

abbrev pub manual_found : Option Alarm → ℕ → Db → Option Db
manual_found none now db = none
manual_found (some a) now db = some (save_alarm (resolved now a) db)

unfoldable pub manual_resolve_alarm : ℕ → String → Db → Option Db
manual_resolve_alarm now id db = manual_found (get_alarm id db) now db

unfoldable pub delete_alarm : String → Db → Db
delete_alarm id db = record db { alarms = delete id db.alarms }

abbrev pub keys_resolved : Bucket Alarm → List String
keys_resolved [] = []
keys_resolved ((k, a) ∷ rest) =
    let behind = keys_resolved rest in if is_open a then behind else k ∷ behind

abbrev pub delete_all : List String → Bucket Alarm → Bucket Alarm
delete_all [] b = b
delete_all (k ∷ rest) b = delete_all rest (delete k b)

unfoldable pub clear_resolved_alarms : Db → ℕ × Db
clear_resolved_alarms db =
    let to_delete = keys_resolved db.alarms in
    (length to_delete, record db { alarms = delete_all to_delete db.alarms })

pub record AlarmSummary : Type 0 where
  pub total_active : ℕ
  pub critical_count : ℕ
  pub warning_count : ℕ
  pub info_count : ℕ

abbrev pub counted : Alarm → AlarmSummary → AlarmSummary
counted a s =
    if str_eq a.severity "CRITICAL"
    then record s { total_active = s.total_active + 1; critical_count = s.critical_count + 1 }
    else (if str_eq a.severity "WARNING"
        then record s { total_active = s.total_active + 1; warning_count = s.warning_count + 1 }
        else record s { total_active = s.total_active + 1; info_count = s.info_count + 1 })

abbrev pub summed : List Alarm → AlarmSummary → AlarmSummary
summed [] s = s
summed (a ∷ rest) s = summed rest (if is_open a then counted a s else s)

unfoldable pub get_alarm_summary : Db → AlarmSummary
get_alarm_summary db =
    summed (values db.alarms)
      (record { total_active = 0; critical_count = 0; warning_count = 0; info_count = 0 })
