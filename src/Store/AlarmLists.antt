-- ===== src/Store/AlarmLists.antt =====
-- Clearing, counting and listing the alarms of Alarms.antt.
use distribute_storage_log_a.Prelude.{
  ℕ, ◌+◌, ◌≡◌, refl, ap, ◌∙◌, Bool, true, not, none, List, [], ◌∷◌, String, length, filter, all,
  if◌then◌else◌, ltb, arith, Bool-cases, inl, inr,
}
use distribute_storage_log_a.Prelude.Text.{str_eq, eq_refl}
use distribute_storage_log_a.Store.Bucket.{Bucket, same_key, get, delete, values, Distinct}
use distribute_storage_log_a.Store.Keys.{differ, key_of_other}
use distribute_storage_log_a.Store.Db.{Db, Alarm}
use distribute_storage_log_a.Store.Alarms.{
  status_active, is_open, insert_latest, sort_latest, listed, list_alarms, keys_resolved,
  delete_all, clear_resolved_alarms, AlarmSummary, counted, summed, get_alarm_summary,
}

abbrev pub entry_open : String × Alarm → Bool
entry_open (k, a) = is_open a

delete_all-other :
    (keys : List String) (k : String) (a : Alarm) (b : Bucket Alarm)
    → all (λ j. not (str_eq j k)) keys ≡ true
    → delete_all keys ((k, a) ∷ b) ≡ (k, a) ∷ delete_all keys b
unfolding delete
delete_all-other [] k a b h = refl
delete_all-other (j ∷ rest) k a b h = elim (Bool-cases (str_eq j k)) [
  | inl e ↦ cc (rw e at h)
  | inr e ↦ rw e (delete_all-other rest k a (delete j b) (rw e at h))
]

keys_other :
    (k : String) (b : Bucket Alarm)
    → get k b ≡ none
    → all (λ j. not (str_eq j k)) (keys_resolved b) ≡ true
keys_other k [] h = refl
keys_other k ((j, x) ∷ rest) h =
    let (other, behind) = key_of_other k j x rest h in
    let turned = differ k j other in
    elim (Bool-cases (is_open x)) [
      | inl e ↦ rw e (keys_other k rest behind)
      | inr e ↦ rw (e, turned) (keys_other k rest behind)
    ]

delete_head : (k : String) (a : Alarm) (b : Bucket Alarm) → delete k ((k, a) ∷ b) ≡ b
unfolding delete
delete_head k a b = rw (eq_refl k) refl

delete_all_lem :
    (b : Bucket Alarm) → Distinct b → delete_all (keys_resolved b) b ≡ filter entry_open b
unfolding Distinct delete
delete_all_lem [] d = refl
delete_all_lem ((k, a) ∷ rest) d = elim (Bool-cases (is_open a)) [
  | inl e ↦ rw e (
      delete_all-other (keys_resolved rest) k a rest (keys_other k rest d.0)
      ∙ ap (λ r. (k, a) ∷ r) (delete_all_lem rest d.1))
  | inr e ↦
      rw e (ap (delete_all (keys_resolved rest)) (delete_head k a rest) ∙ delete_all_lem rest d.1)
]

length-filter :
    (b : Bucket Alarm) → length (keys_resolved b) + length (filter entry_open b) ≡ length b
length-filter [] = omega arith
length-filter ((k, a) ∷ rest) = ground (arith, length-filter rest, Bool-cases (is_open a))

pub clear_only_resolved :
    (db : Db)
    → Distinct db.alarms
    → ((clear_resolved_alarms db).1 ≡ record db { alarms = filter entry_open db.alarms })
      × ((clear_resolved_alarms db).0 + length (filter entry_open db.alarms) ≡ length db.alarms)
unfolding clear_resolved_alarms
clear_only_resolved db d =
    (ap (λ b. record db { alarms = b }) (delete_all_lem db.alarms d), length-filter db.alarms)

length-insert_latest : (a : Alarm) (l : List Alarm) → length (insert_latest a l) ≡ length l + 1
length-insert_latest a [] = omega arith
length-insert_latest a (b ∷ rest) =
    ground (arith, length-insert_latest a rest, Bool-cases (ltb a.last_occur_at b.last_occur_at))

length-sort_latest : (l : List Alarm) → length (sort_latest l) ≡ length l
length-sort_latest [] = refl
length-sort_latest (a ∷ rest) =
    omega (arith, length-insert_latest a (sort_latest rest), length-sort_latest rest)

-- An alarm is listed as active if it is open.
listed_active : (a : Alarm) → listed status_active a ≡ is_open a
unfolding is_open
listed_active a = elim (Bool-cases (str_eq a.status status_active)) [
  | inl e ↦ let same = same_key a.status status_active e in rw same refl
  | inr e ↦ rw e refl
]

unfoldable total_of : AlarmSummary → ℕ
total_of s = s.critical_count + s.warning_count + s.info_count

counted_total :
    (a : Alarm) (s : AlarmSummary)
    → ((counted a s).total_active ≡ s.total_active + 1) × (total_of (counted a s) ≡ total_of s + 1)
unfolding total_of
counted_total a s = elim (Bool-cases (str_eq a.severity "CRITICAL")) [
  | inl e ↦ rw e (refl, omega arith)
  | inr e ↦ rw e (elim (Bool-cases (str_eq a.severity "WARNING")) [
    | inl p ↦ rw p (refl, omega arith)
    | inr p ↦ rw p (refl, omega arith)
  ])
]

-- What the first alarm adds, where it is open.
unfoldable added : Alarm → AlarmSummary → AlarmSummary
added a s = if is_open a then counted a s else s

added_total :
    (a : Alarm) (s : AlarmSummary)
    → ((added a s).total_active ≡ s.total_active + (if is_open a then 1 else 0))
      × (total_of (added a s) ≡ total_of s + (if is_open a then 1 else 0))
unfolding added
added_total a s = elim (Bool-cases (is_open a)) [
  | inl e ↦ rw e (counted_total a s)
  | inr e ↦ rw e (omega arith, omega arith)
]

length-listed :
    (a : Alarm) (l : List Alarm)
    → length (filter (listed status_active) (a ∷ l))
      ≡ (if is_open a then 1 else 0) + length (filter (listed status_active) l)
length-listed a l = rw (listed_active a) (ground (arith, Bool-cases (is_open a)))

summed_total :
    (l : List Alarm) (s : AlarmSummary)
    → ((summed l s).total_active ≡ s.total_active + length (filter (listed status_active) l))
      × (total_of (summed l s) ≡ total_of s + length (filter (listed status_active) l))
unfolding added
summed_total [] s = (omega arith, omega arith)
summed_total (a ∷ rest) s =
    let (total, parts) = summed_total rest (added a s) in
    let (one, each) = added_total a s in
    let size = length-listed a rest in
    (omega (arith, total, one, size), omega (arith, parts, each, size))

pub summary_lem :
    (db : Db)
    → let s = get_alarm_summary db in
      (s.total_active ≡ length (list_alarms status_active db))
      × (s.critical_count + s.warning_count + s.info_count ≡ s.total_active)
unfolding get_alarm_summary list_alarms total_of
summary_lem db =
    let (total, parts) =
      summed_total (values db.alarms)
        (record { total_active = 0; critical_count = 0; warning_count = 0; info_count = 0 }) in
    let size = length-sort_latest (filter (listed status_active) (values db.alarms)) in
    (omega (arith, total, size), omega (arith, total, parts))
