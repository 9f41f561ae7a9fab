-- ===== src/Scheduler/Archive.antt =====
-- The analysis of an uploaded archive: `DispatchAnalyzeTask`, `runLocalAnalyze` and
-- `callRemoteWorkerAnalyze` of internal/manager/scheduler.go.
pub mod Progress
use distribute_storage_log_a.Prelude.{
  ℕ, Bool, true, false, Option, none, some, List, [], ◌∷◌, String, if◌then◌else◌,
}
use distribute_storage_log_a.Model.{
  LogArchive, extracting, analyzing, ready, failed, no_error, extract_error, no_space_error,
  rules_error,
}

-- The archive in memory, what `SaveArchive` and `SaveReport` were given, the latest first, and
-- whether the extracted files were removed. `R` is a report.
pub record Task (R : Type 0) : Type 0 where
  pub archive : LogArchive
  pub saved : List LogArchive
  pub reports : List R
  pub removed : Bool

-- What the extraction returns; a failure says whether the disk is full.
pub data Extraction : Type 0 where
  extract_failed : (no_space : Bool) → Extraction
  extracted : (files lines : ℕ) → Extraction

-- The answers of a remote worker: no answer, another status than 200, a body that cannot be read, or
-- the result, which may lack the report.
pub data RemoteAnswer (R : Type 0) : Type 0 where
  unreachable : RemoteAnswer R
  bad_status : RemoteAnswer R
  bad_body : RemoteAnswer R
  analyzed : (files lines : ℕ) → Option R → RemoteAnswer R

module _ {R : Type 0} where
  -- `SaveArchive`, whose error is ignored.
  abbrev pub save : LogArchive → Task R → Task R
  save a t = record t { archive = a; saved = a ∷ t.saved }

  abbrev pub save_report : Option R → Task R → Task R
  save_report none t = t
  save_report (some r) t = record t { reports = r ∷ t.reports }

  unfoldable pub after_diagnosis : Option R → ℕ → Task R → Task R
  after_diagnosis none now t =
      save (record t.archive { status = failed; error_msg = rules_error }) t
  after_diagnosis (some report) now t =
      save (record t.archive { status = ready; finish_time = now }) (save_report (some report) t)

  -- `diagnosis` is the report of the rules' engine, `none` its error.
  unfoldable pub run_local_analyze : Extraction → Option R → String → ℕ → Task R → Task R
  run_local_analyze (extract_failed no_space) diagnosis dir now t =
      record (save
        (record t.archive {
          status = failed;
          error_msg = if no_space then no_space_error else extract_error;
        })
        t) { removed = true }
  run_local_analyze (extracted files lines) diagnosis dir now t = after_diagnosis diagnosis now (
      save
        (record t.archive {
          status = analyzing;
          file_count = files;
          total_lines = lines;
          extract_path = dir;
        })
        t)

  -- The result says whether the worker has done the task.
  unfoldable pub call_remote_worker_analyze : RemoteAnswer R → String → ℕ → Task R → Bool × Task R
  call_remote_worker_analyze unreachable dir now t = (false, t)
  call_remote_worker_analyze bad_status dir now t = (false, t)
  call_remote_worker_analyze bad_body dir now t = (false, t)
  call_remote_worker_analyze (analyzed files lines report) dir now t = (
    true,
    save
        (record t.archive {
          status = ready;
          file_count = files;
          total_lines = lines;
          extract_path = dir;
          finish_time = now;
        })
        (save_report report t),
  )

  abbrev pub unless_done : Bool × Task R → (Task R → Task R) → Task R
  unless_done (true, t) local = t
  unless_done (false, t) local = local t

  -- `worker` is the name of the chosen worker and its answer; without one, or where it fails, the
  -- manager analyses the archive itself.
  unfoldable pub dispatch_analyze_task :
      Option (String × RemoteAnswer R) → Extraction → Option R → String → ℕ → Task R → Task R
  dispatch_analyze_task none extraction diagnosis dir now t =
      run_local_analyze extraction diagnosis dir now
        (save (record t.archive { status = extracting }) t)
  dispatch_analyze_task (some (name, answer)) extraction diagnosis dir now t =
      let begun = save (record t.archive { status = extracting }) t in
      unless_done
        (call_remote_worker_analyze answer dir now
          (save (record begun.archive { assigned_worker = name }) begun))
        (run_local_analyze extraction diagnosis dir now)
