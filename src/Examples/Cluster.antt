-- ===== src/Examples/Cluster.antt =====
-- A synchronisation and a choice of a worker: internal/manager/ha_sync.go and
-- internal/manager/scheduler.go.
use distribute_storage_log_a.Prelude.{
  Bool, List, ◌⊎◌, ℕ, ◌≡◌, refl, true, false, some, [], ◌∷◌, String, arith, ltb, ◌==◌,
}
use distribute_storage_log_a.Prelude.Int.{pos, ◌≤ℤ◌}
use distribute_storage_log_a.Ha.{HaManager, World, new_ha_manager}
use distribute_storage_log_a.Ha.Sync.{SyncEngine, synced, not_yet, Bolt, sync_once}
use distribute_storage_log_a.Ha.Switchover.{promote_to_active, demote_to_standby}
use distribute_storage_log_a.Ha.Sync.Diverged.{ask_peer, own_writes_kept}
use distribute_storage_log_a.Ha.Sync.Current.{Attempt}
use distribute_storage_log_a.Scheduler.{
  Floats, Worker, positive, is_candidate, pick_lowest_usage_worker,
}
use distribute_storage_log_a.Model.{LogArchive, uploading, ready, failed, no_error}
use distribute_storage_log_a.Scheduler.Archive.{Task, unreachable, extracted, dispatch_analyze_task}
use distribute_storage_log_a.Scheduler.Archive.Progress.{Progress, dispatch-Progress}
use distribute_storage_log_a.Scheduler.Pick.{IsIn, here, there, pick-least_used}

abbrev quiet_world : World
quiet_world = record {
  to_lower = λ s. s;
  trim_space = λ s. s;
  trim_right_slashes = λ s. s;
  before_slash = λ s. s;
  default_gateway = "";
  default_interface = "eth0";
  ping = λ s. true;
  healthy = λ n. true;
}

abbrev backup : HaManager
backup = new_ha_manager quiet_world (record {
  ha_mode = "backup";
  peer_url = "http://10.0.0.2";
  gateway_ip = "";
  enable_gateway_check = false;
  enable_worker_quorum = false;
  vip = "";
  vip_interface = "";
  heartbeat_interval_sec = pos 2;
  failover_timeout_sec = pos 6;
  sync_interval_sec = pos 5;
})

-- A database is its transaction number and its contents.
abbrev pairs : Bolt (ℕ × String)
pairs = record { current_tx_id = λ d. some d.0; size = λ d. 4096; reloads = λ d. true }

abbrev engine_with : ℕ → ℕ × String → SyncEngine (ℕ × String)
engine_with tx db = record {
  last_tx_id = tx;
  last_sync_time = 0;
  last_sync_bytes = 0;
  sync_status = not_yet;
  db = db;
}

-- The database with number `m`.
abbrev pages : ℕ → ℕ × String
pages m = (m, "page")

abbrev attempt_at : Bool → ℕ → ℕ → Attempt
attempt_at answered current exported = record {
  answered = answered;
  token = "t";
  current = current;
  exported = exported;
  now = 1;
}

-- A snapshot that is later than its number, a lost request, another snapshot, and no change since.
abbrev attempts : List Attempt
attempts = attempt_at true 5 6 ∷ attempt_at false 6 6 ∷ attempt_at true 6 6 ∷ []

abbrev engine : SyncEngine (ℕ × String)
engine = engine_with 0 (0, "own")

own_writes_kept_example :
    let copied = sync_once pairs (ask_peer pairs "t" (5, "peer")) 1 backup engine in
    let promoted = promote_to_active quiet_world backup in
    let written = record (sync_once pairs (ask_peer pairs "t" (5, "peer")) 2 promoted copied) {
      db = (8, "own");
    } in
    let last =
      sync_once pairs
        (ask_peer pairs "t" (5, "peer"))
        3
        (demote_to_standby quiet_world promoted)
        written in
    (copied.db ≡ (5, "peer")) × ((last.db ≡ (8, "own")) × (last.sync_status ≡ synced))
unfolding new_ha_manager
own_writes_kept_example =
    own_writes_kept pairs "t" (5, "peer") quiet_world 5 1 2 3 (8, "own") backup engine refl refl
      refl refl (omega arith) refl

abbrev hundredths : Floats
hundredths = record { Float = ℕ; ltb = λ a b. ltb a b; eqb = λ a b. a == b }

abbrev worker_using : ℕ → Worker ℕ
worker_using used = record {
  id = "w";
  role = "worker";
  status = "online";
  last_heartbeat = 0;
  disk_used_mb = pos used;
  disk_free_mb = pos 500;
  disk_used_percent = 10;
  storage_used_bytes = pos 0;
  active_tasks = pos 0;
}

all_positive :
    (m : Worker ℕ)
    → IsIn m (worker_using 70 ∷ worker_using 30 ∷ [])
    → positive m.disk_used_mb ≡ true
all_positive m here = refl
all_positive m (there here) = refl
all_positive m (there (there i)) = elim i [ ]

pick-least_used_example :
    (best : Worker ℕ) × (pick_lowest_usage_worker hundredths 9
        (λ id. false)
        (pos 1048576)
        (some (worker_using 70 ∷ worker_using 30 ∷ []))
      ≡ some best)
    × IsIn best (worker_using 70 ∷ worker_using 30 ∷ [])
    × (is_candidate hundredths 9 (λ id. false) (pos 1048576) best ≡ true)
    × (best.disk_used_mb ≤ℤ pos 30)
unfolding is_candidate
pick-least_used_example =
    pick-least_used hundredths 9 (λ id. false) (pos 1048576)
      (worker_using 70 ∷ worker_using 30 ∷ []) (worker_using 30) (there here) refl
      (λ m i e. all_positive m i)

abbrev uploaded_archive : LogArchive
uploaded_archive = record {
  id = "a1";
  username = "eve";
  filename = "a1.tar.gz";
  size = 100;
  storage_node_id = "";
  tags = [];
  pinned = false;
  upload_time = 0;
  status = uploading;
  error_msg = no_error;
  file_count = 0;
  total_lines = 0;
  extract_path = "";
  assigned_worker = "";
  finish_time = 0;
}

abbrev new_task : Task String
new_task = record { archive = uploaded_archive; saved = []; reports = []; removed = false }

-- The worker cannot be reached, and the manager takes over.
dispatch-Progress_example :
    let t' =
      dispatch_analyze_task
        (some ("w", unreachable))
        (extracted 3 100)
        (some "report")
        "/x"
        9
        new_task in
    Progress [] t'.archive t'.saved × ((t'.archive.status ≡ ready) ⊎ (t'.archive.status ≡ failed))
dispatch-Progress_example =
    dispatch-Progress (some ("w", unreachable)) (extracted 3 100) (some "report") "/x" 9 new_task
