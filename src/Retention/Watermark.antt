-- ===== src/Retention/Watermark.antt =====
-- In which order, and how far, a full disk is freed: `heal_node` of Retention.antt.
use mathlib.Core.List.{Perm}
use mathlib.Core.List.Perm
use distribute_storage_log_a.Prelude.{
  ℕ, zero, suc, ◌≡◌, ◌≤◌, ◌⊎◌, Bool, true, false, List, [], ◌∷◌, length, take, all, leb,
}
use distribute_storage_log_a.Model.{LogArchive}
use distribute_storage_log_a.Store.Db.{Db}
use distribute_storage_log_a.Retention.{Runtime, delete_archive_storage_and_meta, used_after}

-- Deletions, one after another.
unfoldable pub delete_each : ℕ → List LogArchive → Db → Db
delete_each now [] db = db
delete_each now (a ∷ rest) db = delete_each now rest (delete_archive_storage_and_meta now a db).1

-- The use that is counted after deletions.
unfoldable pub used_each : ℕ → List LogArchive → ℕ → Db → ℕ
used_each now [] used_mb db = used_mb
used_each now (a ∷ rest) used_mb db =
    let (result, after) = delete_archive_storage_and_meta now a db in
    used_each now rest (used_after result a used_mb) after

abbrev pub not_older : LogArchive → LogArchive → Bool
not_older a b = leb a.upload_time b.upload_time

-- No archive is older than one before it.
unfoldable pub OldestFirst : List LogArchive → Type 0
OldestFirst [] = Unit
OldestFirst (a ∷ rest) = (all (not_older a) rest ≡ true) × OldestFirst rest

module _ (go : Runtime) where
  -- The disk was too full for the last of `n` deletions to be left out.
  abbrev pub Needed : ℕ → ℕ → ℕ → ℕ → List LogArchive → Db → ℕ → Type 0
  Needed now target total used l db zero = Unit
  Needed now target total used l db (suc m) =
      go.at_most (used_each now (take m l) used db) total target ≡ false

  -- Nothing is left to delete, or the disk is free enough.
  abbrev pub Enough : ℕ → ℕ → ℕ → ℕ → List LogArchive → Db → ℕ → Type 0
  Enough now target total used l db n =
      (length l ≤ n) ⊎ (go.at_most (used_each now (take n l) used db) total target ≡ true)
