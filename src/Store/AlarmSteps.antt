-- ===== src/Store/AlarmSteps.antt =====
-- Every operation on alarms of Alarms.antt as a step, and sequences of them.
use mathlib.Core.Path.{subst}
use distribute_storage_log_a.Prelude.{
  ℕ, ◌≡◌, ◌≤◌, refl, ap, ◌∙◌, false, none, some, List, [], ◌∷◌, String, if◌then◌else◌, arith,
  Bool-cases, Option-cases, inl, inr,
}
use distribute_storage_log_a.Prelude.Text.{str_eq}
use distribute_storage_log_a.Store.Bucket.{Bucket, get, delete, sum, Distinct}
use distribute_storage_log_a.Store.Keys.{
  KeyedBy, KeyedBy-get, delete-Distinct, delete-KeyedBy, sum-delete_most,
}
use distribute_storage_log_a.Store.Aggregation.{
  one_active, open_count, Kept, create_single, resolve_single, save-Kept, save_closed, save_same,
  resolved_closed,
}
use distribute_storage_log_a.Store.Db.{Db, Alarm}
use distribute_storage_log_a.Store.Alarms.{
  status_resolved, status_acknowledged, is_open, is_active_of, save_alarm, find_active_alarm,
  create_or_aggregate_alarm, resolved, resolve_alarm, acknowledge_alarm, manual_resolve_alarm,
  delete_alarm, keys_resolved, delete_all, clear_resolved_alarms,
}

create_Kept :
    (alarm_id : ℕ → String → String) (now : ℕ) (incoming : Alarm) (db : Db)
    → Kept db
    → Kept (create_or_aggregate_alarm alarm_id now incoming db).1
unfolding create_or_aggregate_alarm
create_Kept alarm_id now incoming db kept = save-Kept _ db kept

resolve_Kept : (now : ℕ) (n t : String) (db : Db) → Kept db → Kept (resolve_alarm now n t db).1
unfolding resolve_alarm
resolve_Kept now n t db kept = elim (Option-cases (find_active_alarm n t db)) [
  | inl e ↦ rw e kept
  | inr (a, e) ↦ rw e (save-Kept (resolved now a) db kept)
]

delete_Kept : (id : String) (db : Db) → Kept db → Kept (delete_alarm id db)
unfolding Kept delete_alarm
delete_Kept id db (d, h) =
    (delete-Distinct id db.alarms d, delete-KeyedBy (λ x. x.id) id db.alarms h)

delete_all_Kept :
    (keys : List String) (b : Bucket Alarm)
    → Distinct b
    → KeyedBy (λ a. a.id) b
    → Distinct (delete_all keys b) × KeyedBy (λ a. a.id) (delete_all keys b)
delete_all_Kept [] b d h = (d, h)
delete_all_Kept (k ∷ rest) b d h =
    delete_all_Kept rest (delete k b) (delete-Distinct k b d) (delete-KeyedBy (λ a. a.id) k b h)

delete_all_most :
    (f : Alarm → ℕ) (keys : List String) (b : Bucket Alarm) → sum f (delete_all keys b) ≤ sum f b
delete_all_most f [] b = omega arith
delete_all_most f (k ∷ rest) b =
    omega (arith, delete_all_most f rest (delete k b), sum-delete_most f k b)

acknowledged_active :
    (n t : String) (a : Alarm)
    → str_eq a.status status_resolved ≡ false
    → is_active_of n t (record a { status = status_acknowledged }) ≡ is_active_of n t a
unfolding is_active_of is_open
acknowledged_active n t a h = rw h refl

acknowledge_some :
    (id n t : String) (db after : Db) (a : Alarm)
    → Kept db
    → get id db.alarms ≡ some a
    → (if str_eq a.status status_resolved
        then none
        else some (save_alarm (record a { status = status_acknowledged }) db))
      ≡ some after
    → Kept after × (open_count n t after ≡ open_count n t db)
unfolding Kept
acknowledge_some id n t db after a kept e h = elim (Bool-cases (str_eq a.status status_resolved)) [
  | inl p ↦ cc (rw p at h)
  | inr p ↦
      let acked : Alarm = record a { status = status_acknowledged } in
      let same : save_alarm acked db ≡ after = cc (rw p at h) in
      let key : a.id ≡ id = KeyedBy-get (λ x. x.id) db.alarms kept.1 id a e in
      let there : get acked.id db.alarms ≡ some a = ap (λ k. get k db.alarms) key ∙ e in
      subst (λ d. Kept d × (open_count n t d ≡ open_count n t db)) same
        (save-Kept acked db kept, save_same n t acked a db there (acknowledged_active n t a p))
]

-- An acknowledged alarm was open and stays so.
acknowledge_result :
    (id n t : String) (db after : Db)
    → Kept db
    → acknowledge_alarm id db ≡ some after
    → Kept after × (open_count n t after ≡ open_count n t db)
unfolding acknowledge_alarm
acknowledge_result id n t db after kept h = elim (Option-cases (get id db.alarms)) [
  | inl e ↦ cc (rw e at h)
  | inr (a, e) ↦ acknowledge_some id n t db after a kept e (rw e at h)
]

manual_result :
    (now : ℕ) (id n t : String) (db after : Db)
    → Kept db
    → manual_resolve_alarm now id db ≡ some after
    → Kept after × (open_count n t after ≤ open_count n t db)
unfolding manual_resolve_alarm
manual_result now id n t db after kept h = elim (Option-cases (get id db.alarms)) [
  | inl e ↦ cc (rw e at h)
  | inr (a, e) ↦
      let same : save_alarm (resolved now a) db ≡ after = cc (rw e at h) in
      subst (λ d. Kept d × (open_count n t d ≤ open_count n t db)) same
        (
          save-Kept (resolved now a) db kept,
          save_closed n t (resolved now a) db (resolved_closed n t now a),
        )
]

-- The operations on alarms.
pub data AlarmStep : Db → Db → Type 0 where
  raise :
      (alarm_id : ℕ → String → String) (now : ℕ) (incoming : Alarm) (db : Db)
      → AlarmStep db (create_or_aggregate_alarm alarm_id now incoming db).1
  resolve : (now : ℕ) (n t : String) (db : Db) → AlarmStep db (resolve_alarm now n t db).1
  acknowledge :
      (id : String) (db after : Db) → acknowledge_alarm id db ≡ some after → AlarmStep db after
  resolve_by_hand :
      (now : ℕ) (id : String) (db after : Db)
      → manual_resolve_alarm now id db ≡ some after
      → AlarmStep db after
  remove : (id : String) (db : Db) → AlarmStep db (delete_alarm id db)
  clear : (db : Db) → AlarmStep db (clear_resolved_alarms db).1

pub data AlarmRun : Db → Db → Type 0 where
  still : (db : Db) → AlarmRun db db
  next :
      (before between after : Db)
      → AlarmStep before between
      → AlarmRun between after
      → AlarmRun before after

step_single :
    (n t : String) (before after : Db)
    → AlarmStep before after
    → Kept before
    → open_count n t before ≤ 1
    → Kept after × (open_count n t after ≤ 1)
unfolding Kept open_count delete_alarm clear_resolved_alarms
step_single n t before _ (raise alarm_id now incoming _) kept single = (
  create_Kept alarm_id now incoming before kept,
  create_single alarm_id now incoming n t before kept single,
)
step_single n t before _ (resolve now node_id alarm_type _) kept single = (
  resolve_Kept now node_id alarm_type before kept,
  omega (arith, single, resolve_single now node_id alarm_type n t before),
)
step_single n t before after (acknowledge id _ _ e) kept single =
    let (keeps, count) = acknowledge_result id n t before after kept e in
    (keeps, omega (arith, single, count))
step_single n t before after (resolve_by_hand now id _ _ e) kept single =
    let (keeps, count) = manual_result now id n t before after kept e in
    (keeps, omega (arith, single, count))
step_single n t before _ (remove id _) kept single = (
  delete_Kept id before kept,
  omega (arith, single, sum-delete_most (one_active n t) id before.alarms),
)
step_single n t before _ (clear _) (d, h) single = (
  delete_all_Kept (keys_resolved before.alarms) before.alarms d h,
  omega
      (arith, single, delete_all_most (one_active n t) (keys_resolved before.alarms) before.alarms),
)

-- If a node and a type have at most one open alarm, they have at most one behind any sequence of
-- reports, recoveries, acknowledgements, resolutions by hand, deletions and clearings of alarms, where
-- alarms stand under their ids and each id once.
pub run_single :
    (n t : String) (before after : Db)
    → AlarmRun before after
    → Kept before
    → open_count n t before ≤ 1
    → open_count n t after ≤ 1
run_single n t before _ (still _) kept single = single
run_single n t before after (next _ between _ step rest) kept single =
    let (keeps, count) = step_single n t before between step kept single in
    run_single n t between after rest keeps count
