-- ===== src/Ha/Sync/Current.antt =====
-- How current the standby's copy is: many synchronisations of Sync.antt with an active that goes on.

use distribute_storage_log_a.Prelude.{
  ℕ, ◌≡◌, ◌≤◌, ◌<◌, ◌⊎◌, Bool, Option, some, List, [], ◌∷◌, String, if◌then◌else◌,
}
use distribute_storage_log_a.Ha.{HaManager}
use distribute_storage_log_a.Ha.Sync.{
  Reply, no_reply, refused, not_modified, snapshot, SyncEngine, Bolt, handle_snapshot, sync_once,
}

-- A synchronisation: whether the request gets an answer, the token that it carries, and the numbers that
-- the active's database has when its number is read and when it is exported.
pub record Attempt : Type 0 where
  pub answered : Bool
  pub token : String
  pub current : ℕ
  pub exported : ℕ
  pub now : ℕ

-- The numbers of an active that goes on from a number.
abbrev pub Grows : ℕ → List Attempt → Type 0
Grows top [] = Unit
Grows top (a ∷ rest) = (top ≤ a.current) × (a.current ≤ a.exported) × Grows a.exported rest

-- The active's databases are those of one history; each has its number.
module _ {Db : Type 0} (bolt : Bolt Db) (history : ℕ → Db) (cluster_token : String)
    (h : HaManager) where
  abbrev pub ask : Attempt → Option ℕ → Reply Db
  ask a known =
      if a.answered
      then handle_snapshot bolt "GET" a.token cluster_token known (history a.current)
          (history a.exported)
      else no_reply

  abbrev pub attempt : Attempt → SyncEngine Db → SyncEngine Db
  attempt a e = sync_once bolt (ask a) a.now h e

  unfoldable pub after_attempts : List Attempt → SyncEngine Db → SyncEngine Db
  after_attempts [] e = e
  after_attempts (a ∷ rest) e = after_attempts rest (attempt a e)

  -- No number is known, or the copy is a database of the active, from that number on up to `top`.
  abbrev Copies : ℕ → SyncEngine Db → Type 0
  Copies top e =
      (e.last_tx_id ≡ 0) ⊎ ((m : ℕ) × (e.db ≡ history m) × (e.last_tx_id ≤ m) × (m ≤ top))

  -- The copy is the active's database at the request, or since.
  abbrev pub IsCurrent : Attempt → SyncEngine Db → Type 0
  IsCurrent a e = (m : ℕ) × (e.db ≡ history m) × (a.current ≤ m) × (m ≤ a.exported)

  -- What the active answers.
  abbrev Answer : Attempt → ℕ → Reply Db → Type 0
  Answer a last reply =
      (reply ≡ no_reply)
      ⊎ ((reply ≡ refused)
          ⊎ (((reply ≡ not_modified) × (last ≡ a.current) × (0 < last))
              ⊎ (reply ≡ snapshot (some a.current) (history a.exported))))
