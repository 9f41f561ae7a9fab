-- ===== src/Store/AlarmView.antt =====
-- What the alarms promise, as a function from a node and a type to how often the trouble occurred.
use mathlib.Core.Path.{fun_ext}
use distribute_storage_log_a.Prelude.{
  ℕ, ◌≡◌, ◌≤◌, refl, ap, ◌∙◌, true, false, ◌&&◌, Option, none, some, String, if◌then◌else◌, arith,
  Bool-cases, Option-cases, inl, inr,
}
use distribute_storage_log_a.Prelude.Int.{ℤ, pos, ◌+ℤ◌, leb_ℤ}
use distribute_storage_log_a.Prelude.Text.{str_eq, eq_refl}
use distribute_storage_log_a.Store.Bucket.{same_key, get, put}
use distribute_storage_log_a.Store.Keys.{sum-put_old}
use distribute_storage_log_a.Store.Db.{Db, Alarm}
use distribute_storage_log_a.Store.Alarms.{
  status_resolved, is_open, is_active_of, save_alarm, find_active_alarm, aggregated, first_alarm,
  create_or_aggregate_alarm, resolved, resolve_alarm,
}
use distribute_storage_log_a.Store.Aggregation.{
  one_active, open_count, Kept, found_in_db, same_place, create_single, resolved_closed,
  aggregated_active,
}
use distribute_storage_log_a.Store.AlarmWalk.{
  last_active_none, OldOff, find-save_other, find-save_self, elsewhere,
}

abbrev pub occurrences : Option Alarm → Option ℤ
occurrences none = none
occurrences (some a) = some a.count

unfoldable pub view : Db → String → String → Option ℤ
view db n t = occurrences (find_active_alarm n t db)

abbrev pub bumped : Option ℤ → ℤ → ℤ
bumped none c = if leb_ℤ c (pos 0) then pos 1 else c
bumped (some k) c = k +ℤ pos 1

abbrev pub at :
    (String → String → Option ℤ) → String → String → Option ℤ → String → String → Option ℤ
at v n t new m s = if str_eq m n && str_eq s t then new else v m s

abbrev pub raise_view :
    String → String → ℤ → (String → String → Option ℤ) → String → String → Option ℤ
raise_view n t c v = at v n t (some (bumped (v n t) c))

abbrev pub lower_view : String → String → (String → String → Option ℤ) → String → String → Option ℤ
lower_view n t v = at v n t none

-- The alarm of a request is open unless the request says otherwise.
first_open :
    (alarm_id : ℕ → String → String) (now : ℕ) (incoming : Alarm)
    → str_eq incoming.status status_resolved ≡ false
    → is_active_of incoming.node_id incoming.alarm_type (first_alarm alarm_id now incoming) ≡ true
unfolding is_active_of first_alarm is_open
first_open alarm_id now incoming h =
    rw (eq_refl incoming.node_id, eq_refl incoming.alarm_type)
      (elim (Bool-cases (str_eq incoming.status "")) [
        | inl e ↦ rw e refl
        | inr e ↦ rw e (rw h refl)
      ])

-- The alarm that is saved for a request.
abbrev saved_for : (ℕ → String → String) → ℕ → Alarm → Db → Alarm
saved_for alarm_id now incoming db = (create_or_aggregate_alarm alarm_id now incoming db).0

saved_place :
    (alarm_id : ℕ → String → String) (now : ℕ) (incoming : Alarm) (db : Db)
    → Kept db
    → str_eq incoming.status status_resolved ≡ false
    → is_active_of incoming.node_id incoming.alarm_type (saved_for alarm_id now incoming db) ≡ true
unfolding create_or_aggregate_alarm first_alarm aggregated
saved_place alarm_id now incoming db kept fresh =
    elim (Option-cases (find_active_alarm incoming.node_id incoming.alarm_type db)) [
      | inl e ↦ rw e (first_open alarm_id now incoming fresh)
      | inr (old, e) ↦
          let (_, active) = found_in_db incoming.node_id incoming.alarm_type db old kept e in
          rw e (aggregated_active _ _ now incoming old ∙ active)
    ]

saved_count :
    (alarm_id : ℕ → String → String) (now : ℕ) (incoming : Alarm) (db : Db)
    → (saved_for alarm_id now incoming db).count
      ≡ bumped (view db incoming.node_id incoming.alarm_type) incoming.count
unfolding create_or_aggregate_alarm first_alarm aggregated view
saved_count alarm_id now incoming db =
    elim (Option-cases (find_active_alarm incoming.node_id incoming.alarm_type db)) [
      | inl e ↦ rw e refl
      | inr (old, e) ↦ rw e refl
    ]

OldOff-stored :
    (n t m s : String) (a old : Alarm) (db : Db)
    → get a.id db.alarms ≡ some old
    → is_active_of n t old ≡ true
    → (str_eq m n && str_eq s t) ≡ false
    → OldOff m s (get a.id db.alarms)
OldOff-stored n t m s a old db there active h =
    let (node, kind) = same_place n t old active in rw there (elsewhere n t m s old node kind h)

-- An alarm under a new id, or one that is of its place already, changes no other place.
saved_off :
    (alarm_id : ℕ → String → String) (now : ℕ) (incoming : Alarm) (m s : String) (db : Db)
    → Kept db
    → get (first_alarm alarm_id now incoming).id db.alarms ≡ none
    → (str_eq m incoming.node_id && str_eq s incoming.alarm_type) ≡ false
    → find_active_alarm m s (create_or_aggregate_alarm alarm_id now incoming db).1
      ≡ find_active_alarm m s db
unfolding create_or_aggregate_alarm first_alarm aggregated
saved_off alarm_id now incoming m s db kept fresh h =
    elim (Option-cases (find_active_alarm incoming.node_id incoming.alarm_type db)) [
      | inl e ↦ rw e (
          find-save_other m s (first_alarm alarm_id now incoming) db
            (elsewhere incoming.node_id incoming.alarm_type m s (first_alarm alarm_id now incoming)
              refl refl h)
            (rw fresh tt))
      | inr (old, e) ↦
          let (there, active) = found_in_db incoming.node_id incoming.alarm_type db old kept e in
          let (node, kind) = same_place incoming.node_id incoming.alarm_type old active in
          let off = elsewhere incoming.node_id incoming.alarm_type m s old node kind h in
          rw e (
            find-save_other m s (aggregated now incoming old) db
              (aggregated_active m s now incoming old ∙ off)
              (OldOff-stored incoming.node_id incoming.alarm_type m s (aggregated now incoming old)
                old db there active h))
    ]

both_same : (m n s t : String) → (str_eq m n && str_eq s t) ≡ true → (m ≡ n) × (s ≡ t)
both_same m n s t h = elim (Bool-cases (str_eq m n)) [
  | inl p ↦ (same_key m n p, same_key s t (rw p at h))
  | inr p ↦ cc (rw p at h)
]

create_own :
    (alarm_id : ℕ → String → String) (now : ℕ) (incoming : Alarm) (db : Db)
    → Kept db
    → open_count incoming.node_id incoming.alarm_type db ≤ 1
    → str_eq incoming.status status_resolved ≡ false
    → view
        (create_or_aggregate_alarm alarm_id now incoming db).1
        incoming.node_id
        incoming.alarm_type
      ≡ some (bumped (view db incoming.node_id incoming.alarm_type) incoming.count)
unfolding view create_or_aggregate_alarm
create_own alarm_id now incoming db kept single fresh =
    let saved : Alarm = saved_for alarm_id now incoming db in
    let place = saved_place alarm_id now incoming db kept fresh in
    let alone =
      create_single alarm_id now incoming incoming.node_id incoming.alarm_type db kept single in
    ap occurrences (find-save_self incoming.node_id incoming.alarm_type saved db place alone)
    ∙ ap some (saved_count alarm_id now incoming db)

-- The only open alarm is closed in its place.
closed_gone :
    (n t : String) (a old : Alarm) (db : Db)
    → get a.id db.alarms ≡ some old
    → is_active_of n t old ≡ true
    → is_active_of n t a ≡ false
    → open_count n t db ≤ 1
    → find_active_alarm n t (save_alarm a db) ≡ none
unfolding find_active_alarm save_alarm open_count
closed_gone n t a old db there active closed single =
    let total = sum-put_old (one_active n t) a.id a old db.alarms there in
    let mine : one_active n t old ≡ 1 = rw active refl in
    let nothing : one_active n t a ≡ 0 = rw closed refl in
    last_active_none n t (put a.id a db.alarms) none (omega (arith, total, mine, nothing, single))

pub resolve_own :
    (now : ℕ) (n t : String) (db : Db)
    → Kept db
    → open_count n t db ≤ 1
    → find_active_alarm n t (resolve_alarm now n t db).1 ≡ none
unfolding resolve_alarm
resolve_own now n t db kept single = elim (Option-cases (find_active_alarm n t db)) [
  | inl e ↦ rw e e
  | inr (old, e) ↦
      let (there, active) = found_in_db n t db old kept e in
      rw e (
        closed_gone n t (resolved now old) old db there active (resolved_closed n t now old) single)
]

-- Where alarms stand under their ids and the place of the report has at most one open alarm, a report
-- that is not marked as resolved and whose new id is free counts the trouble at its own place once more
-- (or from the report's count, at least 1, if there was none) and changes no other place.
pub create-refines :
    (alarm_id : ℕ → String → String) (now : ℕ) (incoming : Alarm) (db : Db)
    → Kept db
    → open_count incoming.node_id incoming.alarm_type db ≤ 1
    → str_eq incoming.status status_resolved ≡ false
    → get (first_alarm alarm_id now incoming).id db.alarms ≡ none
    → view (create_or_aggregate_alarm alarm_id now incoming db).1
      ≡ raise_view incoming.node_id incoming.alarm_type incoming.count (view db)
unfolding view
create-refines alarm_id now incoming db kept single fresh_status fresh_id = fun_ext (λ m.
    fun_ext (λ s. elim (Bool-cases (str_eq m incoming.node_id && str_eq s incoming.alarm_type)) [
      | inr h ↦ rw h (ap occurrences (saved_off alarm_id now incoming m s db kept fresh_id h))
      | inl h ↦
          let (here, same) = both_same m incoming.node_id s incoming.alarm_type h in
          rw h (rw (here, same) (create_own alarm_id now incoming db kept single fresh_status))
    ]))

resolved_off :
    (now : ℕ) (n t m s : String) (db : Db)
    → Kept db
    → (str_eq m n && str_eq s t) ≡ false
    → find_active_alarm m s (resolve_alarm now n t db).1 ≡ find_active_alarm m s db
unfolding resolve_alarm
resolved_off now n t m s db kept h = elim (Option-cases (find_active_alarm n t db)) [
  | inl e ↦ rw e refl
  | inr (old, e) ↦
      let (there, active) = found_in_db n t db old kept e in
      rw e (
        find-save_other m s (resolved now old) db (resolved_closed m s now old)
          (OldOff-stored n t m s (resolved now old) old db there active h))
]

-- Where alarms stand under their ids and the place has at most one open alarm, a recovery leaves no
-- trouble at its own place and changes no other place.
pub resolve-refines :
    (now : ℕ) (n t : String) (db : Db)
    → Kept db
    → open_count n t db ≤ 1
    → view (resolve_alarm now n t db).1 ≡ lower_view n t (view db)
unfolding view
resolve-refines now n t db kept single = fun_ext (λ m. fun_ext (λ s.
    elim (Bool-cases (str_eq m n && str_eq s t)) [
      | inr h ↦ rw h (ap occurrences (resolved_off now n t m s db kept h))
      | inl h ↦
          let (here, same) = both_same m n s t h in
          rw h (rw (here, same) (ap occurrences (resolve_own now n t db kept single)))
    ]))
