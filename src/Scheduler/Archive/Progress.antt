-- ===== src/Scheduler/Archive/Progress.antt =====
-- The states through which a task takes an archive.
use distribute_storage_log_a.Prelude.{
  ℕ, ◌≡◌, ◌⊎◌, refl, Option, none, some, List, ◌∷◌, String, inl, inr,
}
use distribute_storage_log_a.Model.{ArchiveStatus, extracting, analyzing, ready, failed, LogArchive}
use distribute_storage_log_a.Scheduler.Archive.{
  Task, Extraction, extract_failed, extracted, RemoteAnswer, unreachable, bad_status, bad_body,
  analyzed, after_diagnosis, run_local_analyze, call_remote_worker_analyze, dispatch_analyze_task,
}

-- The steps of an archive; a second save while it is extracted records the worker.
pub data Next : ArchiveStatus → ArchiveStatus → Type 0 where
  assigned : Next extracting extracting
  unpacked : Next extracting analyzing
  remote_done : Next extracting ready
  not_unpacked : Next extracting failed
  diagnosed : Next analyzing ready
  not_diagnosed : Next analyzing failed

-- Saves behind those of `before`, the latest first: the first one is of an archive that is extracted.
pub data Progress (before : List LogArchive) : LogArchive → List LogArchive → Type 0 where
  begun : (a : LogArchive) → a.status ≡ extracting → Progress before a (a ∷ before)
  saved :
      {s s' : ArchiveStatus} {a : LogArchive} {rest : List LogArchive} (b : LogArchive)
      → Progress before a rest
      → a.status ≡ s
      → b.status ≡ s'
      → Next s s'
      → Progress before b (b ∷ rest)

module _ {R : Type 0} (before : List LogArchive) where
  Settled : Task R → Type 0
  Settled t =
      Progress before t.archive t.saved × ((t.archive.status ≡ ready) ⊎ (t.archive.status ≡ failed))

  local-Settled :
      (extraction : Extraction) (diagnosis : Option R) (dir : String) (now : ℕ) (t : Task R)
      → t.archive.status ≡ extracting
      → Progress before t.archive t.saved
      → Settled (run_local_analyze extraction diagnosis dir now t)
  unfolding Settled run_local_analyze after_diagnosis
  local-Settled (extract_failed no_space) diagnosis dir now t e p =
      (saved _ p e refl not_unpacked, inr refl)
  local-Settled (extracted files lines) none dir now t e p =
      (saved _ (saved _ p e refl unpacked) refl refl not_diagnosed, inr refl)
  local-Settled (extracted files lines) (some report) dir now t e p =
      (saved _ (saved _ p e refl unpacked) refl refl diagnosed, inl refl)

-- Whatever the worker, the extraction and the rules do, the task ends with the archive ready or
-- failed and saved as such, and the saves that it adds begin with an archive that is extracted and
-- follow the steps of an archive.
pub dispatch-Progress :
    {R : Type 0} (worker : Option (String × RemoteAnswer R)) (extraction : Extraction)
    (diagnosis : Option R) (dir : String) (now : ℕ) (t : Task R)
    → let t' = dispatch_analyze_task worker extraction diagnosis dir now t in
      Progress t.saved t'.archive t'.saved
      × ((t'.archive.status ≡ ready) ⊎ (t'.archive.status ≡ failed))
unfolding dispatch_analyze_task call_remote_worker_analyze Settled
dispatch-Progress none extraction diagnosis dir now t =
    local-Settled t.saved extraction diagnosis dir now _ refl (begun _ refl)
dispatch-Progress (some (name, unreachable)) extraction diagnosis dir now t =
    local-Settled t.saved extraction diagnosis dir now _ refl
      (saved _ (begun _ refl) refl refl assigned)
dispatch-Progress (some (name, bad_status)) extraction diagnosis dir now t =
    local-Settled t.saved extraction diagnosis dir now _ refl
      (saved _ (begun _ refl) refl refl assigned)
dispatch-Progress (some (name, bad_body)) extraction diagnosis dir now t =
    local-Settled t.saved extraction diagnosis dir now _ refl
      (saved _ (begun _ refl) refl refl assigned)
dispatch-Progress (some (name, analyzed files lines none)) extraction diagnosis dir now t =
    (saved _ (saved _ (begun _ refl) refl refl assigned) refl refl remote_done, inl refl)
dispatch-Progress (some (name, analyzed files lines (some report))) extraction diagnosis dir now t =
    (saved _ (saved _ (begun _ refl) refl refl assigned) refl refl remote_done, inl refl)
