-- ===== src/Nodes/Removed.antt =====
-- A removed node stays away: Nodes.antt and Removal.antt together.
use distribute_storage_log_a.Prelude.{
  ℕ, ◌≡◌, ◌≤◌, refl, ap, ◌∙◌, Bool, true, not, ◌&&◌, ◌||◌, Option, none, some, List, [], ◌∷◌,
  String, ltb, Bool-cases, Option-cases, inl, inr, All,
}
use distribute_storage_log_a.Prelude.Int.{ℤ, pos, ◌-ℤ◌}
use distribute_storage_log_a.Prelude.Text.{str_eq}
use distribute_storage_log_a.Model.{LogArchive}
use distribute_storage_log_a.Store.Bucket.{get, put, Distinct, get-put_self, get-delete_self}
use distribute_storage_log_a.Store.Db.{Db, StoredNode}
use distribute_storage_log_a.Store.Archives.{
  save_user, adjust_user_storage_usage, is_none, save_archive, delete_report, remove_archive,
  delete_archive, list_archives_by_node,
}
use distribute_storage_log_a.Store.Alarms.{find_active_alarm}
use distribute_storage_log_a.Store.Aggregation.{Kept, open_count}
use distribute_storage_log_a.Store.AlarmView.{resolve_own}
use distribute_storage_log_a.Store.Nodes.{
  get_node, decommission_node, is_there, is_node_decommissioned,
}
use distribute_storage_log_a.Nodes.{node_offline}
use distribute_storage_log_a.Nodes.Removal.{
  Uploaded, moved, save_moved, migrate, delete_listed, sign_off, valid_target, move_away,
  handle_remove_node,
}
use distribute_storage_log_a.Nodes.Unique.{resolve-nodes}
use distribute_storage_log_a.Nodes.Away.{Away, Heartbeat, HasId, after_heartbeats, heartbeats_Away}

-- What an operation on archives leaves alone.
unfoldable pub SameNodes : Db → Db → Type 0
SameNodes before after =
    (after.nodes ≡ before.nodes)
    × ((after.alarms ≡ before.alarms) × (after.decommissioned ≡ before.decommissioned))

SameNodes-trans : (a b c : Db) → SameNodes a b → SameNodes b c → SameNodes a c
unfolding SameNodes
SameNodes-trans a b c h k = (k.0 ∙ h.0, (k.1.0 ∙ h.1.0, k.1.1 ∙ h.1.1))

adjust-SameNodes :
    (now : ℕ) (name : String) (delta : ℤ) (db : Db)
    → SameNodes db (adjust_user_storage_usage now name delta db)
unfolding SameNodes adjust_user_storage_usage save_user
adjust-SameNodes now name delta db = elim (Option-cases (get name db.users)) [
  | inl e ↦ rw e (refl, (refl, refl))
  | inr (u, e) ↦ rw e (refl, (refl, refl))
]

save_archive-SameNodes : (now : ℕ) (a : LogArchive) (db : Db) → SameNodes db (save_archive now a db)
unfolding save_archive SameNodes
save_archive-SameNodes now a db =
    let stored : Db = record db { archives = put a.id a db.archives } in
    elim (Bool-cases
      (is_none (get a.id db.archives) && ltb 0 a.size && not (str_eq a.username ""))) [
        | inl e ↦ rw e (adjust-SameNodes now a.username (pos a.size) stored)
        | inr e ↦ rw e (refl, (refl, refl))
      ]

remove_archive-SameNodes :
    (now : ℕ) (a : LogArchive) (id : String) (db : Db) → SameNodes db (remove_archive now a id db)
unfolding remove_archive delete_report SameNodes
remove_archive-SameNodes now a id db =
    elim (Bool-cases (ltb 0 a.size && not (str_eq a.username ""))) [
      | inl e ↦ rw e (adjust-SameNodes now a.username (pos 0 -ℤ pos a.size) (delete_report id db))
      | inr e ↦ rw e (refl, (refl, refl))
    ]

delete_archive-SameNodes :
    (now : ℕ) (id name : String) (db : Db) → SameNodes db (delete_archive now id name true db).1
unfolding delete_archive SameNodes
delete_archive-SameNodes now id name db = elim (Option-cases (get id db.archives)) [
  | inl e ↦ rw e (refl, (refl, refl))
  | inr (a, e) ↦ rw e (remove_archive-SameNodes now a id db)
]

delete_listed-SameNodes :
    (now : ℕ) (l : List LogArchive) (db : Db) → SameNodes db (delete_listed now l db)
unfolding delete_listed SameNodes
delete_listed-SameNodes now [] db = (refl, (refl, refl))
delete_listed-SameNodes now (a ∷ rest) db =
    let after : Db = (delete_archive now a.id a.username true db).1 in
    SameNodes-trans db after (delete_listed now rest after)
      (delete_archive-SameNodes now a.id a.username db) (delete_listed-SameNodes now rest after)

save_moved-SameNodes :
    (up : Option Uploaded) (now : ℕ) (target : String) (a : LogArchive) (db : Db)
    → SameNodes db (save_moved up now target a db).1
unfolding SameNodes
save_moved-SameNodes none now target a db = (refl, (refl, refl))
save_moved-SameNodes (some up) now target a db = save_archive-SameNodes now (moved target up a) db

migrate-SameNodes :
    (transfer : LogArchive → Option Uploaded) (now : ℕ) (target : String) (l : List LogArchive)
    (db : Db)
    → SameNodes db (migrate transfer now target l db).1
unfolding migrate SameNodes
migrate-SameNodes transfer now target [] db = (refl, (refl, refl))
migrate-SameNodes transfer now target (a ∷ rest) db =
    let after : Db = (save_moved (transfer a) now target a db).1 in
    SameNodes-trans db after (migrate transfer now target rest after).1
      (save_moved-SameNodes (transfer a) now target a db)
      (migrate-SameNodes transfer now target rest after)

-- A node that is signed off has no record and no open alarm that it is offline.
sign_off-Away : (now : ℕ) (id : String) (db : Db) → Distinct db.nodes → Away id (sign_off now id db)
unfolding Away sign_off decommission_node is_node_decommissioned
sign_off-Away now id db d =
    let rest = resolve-nodes now id node_offline (decommission_node now id db) in
    rw (rest.0, rest.1)
      (get-delete_self id db.nodes d, ap is_there (get-put_self id now db.decommissioned))

sign_off_quiet :
    (now : ℕ) (id : String) (db : Db)
    → Kept db
    → open_count id node_offline db ≤ 1
    → find_active_alarm id node_offline (sign_off now id db) ≡ none
unfolding sign_off decommission_node Kept open_count
sign_off_quiet now id db kept single =
    resolve_own now id node_offline (decommission_node now id db) kept single

Kept-alarms : (before after : Db) → after.alarms ≡ before.alarms → Kept before → Kept after
unfolding Kept
Kept-alarms before after same kept = rw same kept

open_count_alarms :
    (n t : String) (before after : Db)
    → after.alarms ≡ before.alarms
    → open_count n t before ≤ 1
    → open_count n t after ≤ 1
unfolding open_count
open_count_alarms n t before after same h = rw same h

-- A valid request, behind the lookup of the node.
abbrev pub is_removal : String → String → String → Db → Bool
is_removal action target id db = not (str_eq action "migrate") || valid_target id target db

-- A removal signs the node off, behind changes to the archives only.
removal_result :
    (transfer : LogArchive → Option Uploaded) (now : ℕ) (action target id : String) (n : StoredNode)
    (db : Db)
    → get_node id db ≡ some n
    → is_removal action target id db ≡ true
    → (between : Db) × (SameNodes db between
        × ((handle_remove_node transfer now action target id db).1 ≡ sign_off now id between))
unfolding handle_remove_node move_away SameNodes
removal_result transfer now action target id n db there valid =
    let archives : List LogArchive = list_archives_by_node id db in
    elim (Bool-cases (str_eq action "migrate")) [
      | inl m ↦
          let ok : valid_target id target db ≡ true = rw m at valid in
          let after : Db = (migrate transfer now target archives db).1 in
          (
            after,
            (migrate-SameNodes transfer now target archives db, (rw there (rw m (rw ok refl)))),
          )
      | inr m ↦ elim (Bool-cases (str_eq action "delete")) [
        | inl d ↦ (
          delete_listed now archives db,
          (delete_listed-SameNodes now archives db, (rw there (rw m (rw d refl)))),
        )
        | inr d ↦ (db, ((refl, (refl, refl)), (rw there (rw m (rw d refl)))))
      ]
    ]

-- Behind a valid removal of a node, in whichever of the three ways, the node has no open alarm that it
-- is offline, where alarms stand under their ids and the node had at most one such alarm open; and
-- behind any heartbeats after it, of whatever nodes, it has no record and is still known as removed,
-- where the nodes that the heartbeats carry have ids.
pub removed_stays_away :
    (transfer : LogArchive → Option Uploaded) (now : ℕ) (action target id : String) (n : StoredNode)
    (db : Db) (node_key : String → ℕ → String) (beats : List Heartbeat)
    → get_node id db ≡ some n
    → is_removal action target id db ≡ true
    → Distinct db.nodes
    → Kept db
    → open_count id node_offline db ≤ 1
    → All HasId beats
    → let after = (handle_remove_node transfer now action target id db).1 in
      let later = after_heartbeats node_key beats after in
      (find_active_alarm id node_offline after ≡ none)
      × ((get_node id later ≡ none) × (is_node_decommissioned id later ≡ true))
unfolding SameNodes Away
removed_stays_away transfer now action target id n db node_key beats there valid d kept single
      named =
    let (between, (same, done)) = removal_result transfer now action target id n db there valid in
    let distinct : Distinct between.nodes = rw same.0 d in
    let alarms : Kept between = Kept-alarms db between same.1.0 kept in
    let alone : open_count id node_offline between ≤ 1 =
      open_count_alarms id node_offline db between same.1.0 single in
    rw done (
      sign_off_quiet now id between alarms alone,
      heartbeats_Away node_key beats id (sign_off now id between) named
          (sign_off-Away now id between distinct),
    )
