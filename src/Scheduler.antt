-- ===== src/Scheduler.antt =====
-- The choice of a worker for an archive: `PickLowestUsageWorker` and `isWorkerCapacityLower` of
-- internal/manager/scheduler.go.
pub mod Pick
pub mod Archive
use distribute_storage_log_a.Prelude.{
  ℕ, ◌+◌, ◌/◌, Bool, true, false, not, ◌&&◌, ◌||◌, Option, none, some, List, [], ◌∷◌, String,
  if◌then◌else◌, ltb, filter,
}
use distribute_storage_log_a.Prelude.Int.{ℤ, pos, negsuc, ltb_ℤ, leb_ℤ, eqb_ℤ}
use distribute_storage_log_a.Prelude.Text.{str_eq}

-- 64-bit floats, of which the code only compares two.
pub record Floats : Type 1 where
  pub Float : Type 0
  pub ltb : Float → Float → Bool
  pub eqb : Float → Float → Bool

-- What the choice reads of a `model.Node`; times are in nanoseconds.
pub record Worker (F : Type 0) : Type 0 where
  pub id : String
  pub role : String
  pub status : String
  pub last_heartbeat : ℕ
  pub disk_used_mb : ℤ
  pub disk_free_mb : ℤ
  pub disk_used_percent : F
  pub storage_used_bytes : ℤ
  pub active_tasks : ℤ

-- 15 * time.Second
abbrev pub heartbeat_timeout : ℕ
heartbeat_timeout = 15000000000

-- requiredBytes / (1024 * 1024), where it is positive.
abbrev pub required_mb : ℤ → ℤ
required_mb (pos n) = pos (n / 1048576)
required_mb (negsuc n) = negsuc n

abbrev pub positive : ℤ → Bool
positive n = ltb_ℤ (pos 0) n

module _ (floats : Floats) where
  -- 2 to 4 of the comparison, where the disks do not decide.
  unfoldable pub is_storage_lower : Worker floats.Float → Worker floats.Float → Bool
  is_storage_lower a b =
      if not (eqb_ℤ a.storage_used_bytes b.storage_used_bytes)
      then ltb_ℤ a.storage_used_bytes b.storage_used_bytes
      else if not (eqb_ℤ a.disk_free_mb b.disk_free_mb)
      then ltb_ℤ b.disk_free_mb a.disk_free_mb
      else ltb_ℤ a.active_tasks b.active_tasks

  -- 1: the disks' used space, where both report it, then the percentage.
  unfoldable pub is_worker_capacity_lower : Worker floats.Float → Worker floats.Float → Bool
  is_worker_capacity_lower a b =
      if positive a.disk_used_mb && positive b.disk_used_mb
      then (if not (eqb_ℤ a.disk_used_mb b.disk_used_mb)
          then ltb_ℤ a.disk_used_mb b.disk_used_mb
          else if not (floats.eqb a.disk_used_percent b.disk_used_percent)
          then floats.ltb a.disk_used_percent b.disk_used_percent
          else is_storage_lower a b)
      else is_storage_lower a b

  -- `now` is the time of the choice, `read_only` whether a node has an active alarm on its disk.
  unfoldable pub is_candidate : ℕ → (String → Bool) → ℤ → Worker floats.Float → Bool
  is_candidate now read_only required n =
      str_eq n.role "worker"
      && str_eq n.status "online"
      && not (ltb (n.last_heartbeat + heartbeat_timeout) now)
      && not (
          positive required
          && positive n.disk_free_mb
          && leb_ℤ n.disk_free_mb (required_mb required))
      && not (read_only n.id)

  -- The loop over the candidates behind the first one.
  unfoldable pub best_of : Worker floats.Float → List (Worker floats.Float) → Worker floats.Float
  best_of best [] = best
  best_of best (cur ∷ rest) = best_of (if is_worker_capacity_lower cur best then cur else best) rest

  unfoldable pub pick_best : List (Worker floats.Float) → Option (Worker floats.Float)
  pick_best [] = none
  pick_best (first ∷ rest) = some (best_of first rest)

  -- `nodes` is the answer of the store, `none` its error.
  unfoldable pub pick_lowest_usage_worker :
      ℕ → (String → Bool) → ℤ → Option (List (Worker floats.Float)) → Option (Worker floats.Float)
  pick_lowest_usage_worker now read_only required none = none
  pick_lowest_usage_worker now read_only required (some nodes) =
      pick_best (filter (is_candidate now read_only required) nodes)
