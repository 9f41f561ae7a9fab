-- ===== src/Store/Aggregation.antt =====
-- A trouble of a node has one open alarm: the operations of Alarms.antt as steps.

use distribute_storage_log_a.Prelude.{
  ℕ, ◌≡◌, ◌≤◌, ◌⊎◌, refl, sym, ap, ◌∙◌, true, false, Option, none, some, [], ◌∷◌, String,
  if◌then◌else◌, arith, Bool-cases, Option-cases, inl, inr,
}
use distribute_storage_log_a.Prelude.Text.{str_eq, eq_refl}
use distribute_storage_log_a.Store.Bucket.{Bucket, same_key, get, sum, Distinct}
use distribute_storage_log_a.Store.Keys.{
  KeyedBy, put-Distinct, put-KeyedBy, sum-put_old, sum-put_most,
}
use distribute_storage_log_a.Store.Db.{Db, Alarm}
use distribute_storage_log_a.Store.Alarms.{
  is_open, is_active_of, save_alarm, last_active, find_active_alarm, aggregated, first_alarm,
  create_or_aggregate_alarm, resolved, resolve_alarm,
}

abbrev pub one_active : String → String → Alarm → ℕ
one_active n t a = if is_active_of n t a then 1 else 0

-- The open alarms of a node and a type.
unfoldable pub open_count : String → String → Db → ℕ
open_count n t db = sum (one_active n t) db.alarms

-- A bucket of alarms under their ids, each id once.
unfoldable pub Kept : Db → Type 0
Kept db = Distinct db.alarms × KeyedBy (λ a. a.id) db.alarms

-- What a walk finds is stored, open and of the node and the type.
found_stored :
    (n t : String) (b : Bucket Alarm) (target : Option Alarm) (a : Alarm)
    → Distinct b
    → KeyedBy (λ x. x.id) b
    → last_active n t b target ≡ some a
    → (target ≡ some a) ⊎ ((get a.id b ≡ some a) × (is_active_of n t a ≡ true))
unfolding last_active Distinct KeyedBy get
found_stored n t [] target a d h e = inl e
found_stored n t ((k, x) ∷ rest) target a d h e = elim (found_stored n t rest _ a d.1 h.1 e) [
  | inr (there, active) ↦ elim (Bool-cases (str_eq a.id k)) [
    | inl p ↦
        let same : a.id ≡ k = same_key a.id k p in
        let gone : get a.id rest ≡ none = rw same d.0 in cc (there, gone)
    | inr p ↦ inr (rw p there, active)
  ]
  | inl here ↦ elim (Bool-cases (is_active_of n t x)) [
    | inl p ↦
        let same : x ≡ a = cc (rw p at here) in
        let key : a.id ≡ k = ap (λ y. y.id) (sym same) ∙ h.0 in
        let hit : str_eq a.id k ≡ true = rw key (eq_refl k) in
        inr (rw (hit, same) refl, ap (is_active_of n t) (sym same) ∙ p)
    | inr p ↦ inl (rw p at here)
  ]
]

pub not_found_count :
    (n t : String) (b : Bucket Alarm) (target : Option Alarm)
    → last_active n t b target ≡ none
    → (target ≡ none) × (sum (one_active n t) b ≡ 0)
unfolding last_active sum
not_found_count n t [] target e = (e, refl)
not_found_count n t ((k, x) ∷ rest) target e =
    let (behind, count) = not_found_count n t rest _ e in
    elim (Bool-cases (is_active_of n t x)) [
      | inl p ↦ let absurd : some x ≡ none = rw p at behind in cc absurd
      | inr p ↦ (rw p at behind, rw p (omega (arith, count)))
    ]

pub same_place :
    (n t : String) (a : Alarm) → is_active_of n t a ≡ true → (a.node_id ≡ n) × (a.alarm_type ≡ t)
unfolding is_active_of
same_place n t a h = elim (Bool-cases (str_eq a.node_id n)) [
  | inl p ↦ elim (Bool-cases (str_eq a.alarm_type t)) [
    | inl q ↦ (same_key a.node_id n p, same_key a.alarm_type t q)
    | inr q ↦ cc (rw (p, q) at h)
  ]
  | inr p ↦ cc (rw p at h)
]

pub save-Kept : (a : Alarm) (db : Db) → Kept db → Kept (save_alarm a db)
unfolding Kept save_alarm
save-Kept a db (d, h) =
    (put-Distinct a.id a db.alarms d, put-KeyedBy (λ x. x.id) a.id a db.alarms refl h)

-- A saved alarm that is not open adds nothing.
pub save_closed :
    (n t : String) (a : Alarm) (db : Db)
    → is_active_of n t a ≡ false
    → open_count n t (save_alarm a db) ≤ open_count n t db
unfolding open_count save_alarm
save_closed n t a db h =
    let most = sum-put_most (one_active n t) a.id a db.alarms in
    let nothing : one_active n t a ≡ 0 = rw h refl in omega (arith, most, nothing)

-- An alarm that takes the place of one as open as itself changes no count.
pub save_same :
    (n t : String) (a old : Alarm) (db : Db)
    → get a.id db.alarms ≡ some old
    → is_active_of n t a ≡ is_active_of n t old
    → open_count n t (save_alarm a db) ≡ open_count n t db
unfolding open_count save_alarm
save_same n t a old db e h =
    let total = sum-put_old (one_active n t) a.id a old db.alarms e in
    let alike : one_active n t a ≡ one_active n t old = ap (λ b. if b then 1 else 0) h in
    omega (arith, total, alike)

pub found_in_db :
    (n t : String) (db : Db) (a : Alarm)
    → Kept db
    → find_active_alarm n t db ≡ some a
    → (get a.id db.alarms ≡ some a) × (is_active_of n t a ≡ true)
unfolding find_active_alarm Kept
found_in_db n t db a (d, h) e = elim (found_stored n t db.alarms none a d h e) [
  | inl absurd ↦ cc absurd
  | inr found ↦ found
]

pub aggregated_active :
    (n t : String) (now : ℕ) (incoming old : Alarm)
    → is_active_of n t (aggregated now incoming old) ≡ is_active_of n t old
unfolding aggregated is_active_of is_open
aggregated_active n t now incoming old = refl

pub aggregated-id : (now : ℕ) (incoming old : Alarm) → (aggregated now incoming old).id ≡ old.id
unfolding aggregated
aggregated-id now incoming old = refl

-- A first alarm is the only one of its node and type.
first_single :
    (alarm_id : ℕ → String → String) (now : ℕ) (incoming : Alarm) (n t : String) (db : Db)
    → find_active_alarm incoming.node_id incoming.alarm_type db ≡ none
    → is_active_of n t (first_alarm alarm_id now incoming) ≡ true
    → open_count n t (save_alarm (first_alarm alarm_id now incoming) db) ≤ 1
unfolding find_active_alarm open_count save_alarm first_alarm
first_single alarm_id now incoming n t db e p =
    let first : Alarm = first_alarm alarm_id now incoming in
    let (node, kind) = same_place n t first p in
    let none_there : last_active n t db.alarms none ≡ none = rw (node, kind) at e in
    let (_, count) = not_found_count n t db.alarms none none_there in
    let most = sum-put_most (one_active n t) first.id first db.alarms in
    let alone : one_active n t first ≤ 1 = rw p (omega arith) in omega (arith, count, most, alone)

pub create_single :
    (alarm_id : ℕ → String → String) (now : ℕ) (incoming : Alarm) (n t : String) (db : Db)
    → Kept db
    → open_count n t db ≤ 1
    → open_count n t (create_or_aggregate_alarm alarm_id now incoming db).1 ≤ 1
unfolding create_or_aggregate_alarm
create_single alarm_id now incoming n t db kept single =
    let first : Alarm = first_alarm alarm_id now incoming in
    elim (Option-cases (find_active_alarm incoming.node_id incoming.alarm_type db)) [
      | inr (old, e) ↦
          let (there, _) = found_in_db incoming.node_id incoming.alarm_type db old kept e in
          let id : (aggregated now incoming old).id ≡ old.id = aggregated-id now incoming old in
          let alike = aggregated_active n t now incoming old in
          rw e (
            omega (
              arith,
              single,
              save_same n t (aggregated now incoming old) old db
                  (ap (λ k. get k db.alarms) id ∙ there) alike,
            ))
      | inl e ↦ rw e (elim (Bool-cases (is_active_of n t first)) [
        | inl p ↦ first_single alarm_id now incoming n t db e p
        | inr p ↦ omega (arith, single, save_closed n t first db p)
      ])
    ]

pub resolved_closed :
    (n t : String) (now : ℕ) (a : Alarm) → is_active_of n t (resolved now a) ≡ false
unfolding is_active_of is_open
resolved_closed n t now a =
    ground (arith, Bool-cases (str_eq a.node_id n), Bool-cases (str_eq a.alarm_type t))

pub resolve_single :
    (now : ℕ) (node_id alarm_type n t : String) (db : Db)
    → open_count n t (resolve_alarm now node_id alarm_type db).1 ≤ open_count n t db
unfolding resolve_alarm
resolve_single now node_id alarm_type n t db =
    elim (Option-cases (find_active_alarm node_id alarm_type db)) [
      | inl e ↦ rw e (omega arith)
      | inr (a, e) ↦ rw e (save_closed n t (resolved now a) db (resolved_closed n t now a))
    ]
