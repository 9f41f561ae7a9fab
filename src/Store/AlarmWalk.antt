-- ===== src/Store/AlarmWalk.antt =====
-- The walk of FindActiveAlarm over the alarms of Alarms.antt, after a save.

use distribute_storage_log_a.Prelude.{
  ◌+◌, ◌≡◌, ◌≤◌, refl, sym, ap, ◌∙◌, true, false, ◌&&◌, Option, none, some, [], ◌∷◌, String, arith,
  Bool-cases, Option-cases, inl, inr,
}
use distribute_storage_log_a.Prelude.Text.{str_eq, eq_refl}
use distribute_storage_log_a.Store.Bucket.{
  Bucket, get, insert, replace, put, sum, before, get-put_self,
}
use distribute_storage_log_a.Store.Db.{Db, Alarm}
use distribute_storage_log_a.Store.Alarms.{is_active_of, save_alarm, last_active, find_active_alarm}
use distribute_storage_log_a.Store.Aggregation.{one_active, open_count, same_place}

pub last_active_none :
    (n t : String) (b : Bucket Alarm) (target : Option Alarm)
    → sum (one_active n t) b ≡ 0
    → last_active n t b target ≡ target
unfolding last_active sum
last_active_none n t [] target h = refl
last_active_none n t ((k, x) ∷ rest) target h =
    let behind : sum (one_active n t) rest ≡ 0 = omega (arith, h) in
    elim (Bool-cases (is_active_of n t x)) [
      | inl p ↦ let absurd : 1 + sum (one_active n t) rest ≡ 0 = rw p at h in ground (arith, absurd)
      | inr p ↦ rw p (last_active_none n t rest target behind)
    ]

-- The only open alarm is the one that a walk finds.
only_found :
    (n t k : String) (a : Alarm) (b : Bucket Alarm) (target : Option Alarm)
    → sum (one_active n t) b ≤ 1
    → get k b ≡ some a
    → is_active_of n t a ≡ true
    → last_active n t b target ≡ some a
unfolding last_active sum get
only_found n t k a [] target single there active = cc
only_found n t k a ((j, x) ∷ rest) target single there active = elim (Bool-cases (str_eq k j)) [
  | inl p ↦
      let same : x ≡ a = cc (rw p at there) in
      let hit : is_active_of n t x ≡ true = ap (is_active_of n t) same ∙ active in
      let behind : sum (one_active n t) rest ≡ 0 = omega (arith, (rw hit at single)) in
      rw hit (last_active_none n t rest (some x) behind ∙ ap some same)
  | inr p ↦ only_found n t k a rest _ (omega (arith, single)) (rw p at there) active
]

last_active-skip :
    (n t k : String) (a : Alarm) (b : Bucket Alarm) (target : Option Alarm)
    → is_active_of n t a ≡ false
    → last_active n t ((k, a) ∷ b) target ≡ last_active n t b target
unfolding last_active
last_active-skip n t k a b target h = rw h refl

-- A place in the list that is not of the node and the type does not matter.
last_active-insert :
    (n t k : String) (a : Alarm) (b : Bucket Alarm) (target : Option Alarm)
    → is_active_of n t a ≡ false
    → last_active n t (insert k a b) target ≡ last_active n t b target
unfolding last_active insert
last_active-insert n t k a [] target h = rw h refl
last_active-insert n t k a ((j, x) ∷ rest) target h = elim (Bool-cases (before k j)) [
  | inl e ↦ rw e (last_active-skip n t k a ((j, x) ∷ rest) target h)
  | inr e ↦ rw e (last_active-insert n t k a rest _ h)
]

last_active-replace :
    (n t k : String) (a old : Alarm) (b : Bucket Alarm) (target : Option Alarm)
    → is_active_of n t a ≡ false
    → get k b ≡ some old
    → is_active_of n t old ≡ false
    → last_active n t (replace k a b) target ≡ last_active n t b target
unfolding last_active replace get
last_active-replace n t k a old [] target h there gone = cc
last_active-replace n t k a old ((j, x) ∷ rest) target h there gone =
    elim (Bool-cases (str_eq k j)) [
      | inl e ↦
          let same : x ≡ old = cc (rw e at there) in
          let off : is_active_of n t x ≡ false = ap (is_active_of n t) same ∙ gone in
          rw e (
            last_active-skip n t j a rest target h ∙ sym (last_active-skip n t j x rest target off))
      | inr e ↦ rw e (last_active-replace n t k a old rest _ h (rw e at there) gone)
    ]

-- Is the old record, if there is one, not of the node and the type?
abbrev pub OldOff : String → String → Option Alarm → Type 0
OldOff n t none = Unit
OldOff n t (some old) = is_active_of n t old ≡ false

pub find-save_other :
    (n t : String) (a : Alarm) (db : Db)
    → is_active_of n t a ≡ false
    → OldOff n t (get a.id db.alarms)
    → find_active_alarm n t (save_alarm a db) ≡ find_active_alarm n t db
unfolding find_active_alarm save_alarm put
find-save_other n t a db h off = elim (Option-cases (get a.id db.alarms)) [
  | inl e ↦ rw e (last_active-insert n t a.id a db.alarms none h)
  | inr (old, e) ↦
      let gone : is_active_of n t old ≡ false = rw e at off in
      rw e (last_active-replace n t a.id a old db.alarms none h e gone)
]

pub find-save_self :
    (n t : String) (a : Alarm) (db : Db)
    → is_active_of n t a ≡ true
    → open_count n t (save_alarm a db) ≤ 1
    → find_active_alarm n t (save_alarm a db) ≡ some a
unfolding find_active_alarm save_alarm open_count
find-save_self n t a db h single =
    only_found n t a.id a (put a.id a db.alarms) none single (get-put_self a.id a db.alarms) h

-- An alarm of one place is none of another.
pub elsewhere :
    (n t m s : String) (a : Alarm)
    → a.node_id ≡ n
    → a.alarm_type ≡ t
    → (str_eq m n && str_eq s t) ≡ false
    → is_active_of m s a ≡ false
elsewhere n t m s a node kind h = elim (Bool-cases (is_active_of m s a)) [
  | inl p ↦
      let (here, same) = same_place m s a p in
      let hit : (str_eq m n && str_eq s t) ≡ true =
        rw (sym here ∙ node, sym same ∙ kind, eq_refl n, eq_refl t) refl in
      cc (hit, h)
  | inr p ↦ p
]
