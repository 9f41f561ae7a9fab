-- ===== src/LineIndex/Cache.antt =====
-- `GetOrBuildLineIndex` of internal/worker/line_index.go: the shared lookup at the line index.
use distribute_storage_log_a.Prelude.{◌≡◌, refl, Option, some, String}
use distribute_storage_log_a.Bytes.{Bytes, Reader, contents}
use distribute_storage_log_a.IndexCache.{
  Lru, IndexKind, FileInfo, Outcome, found, get_or_build, load?,
}
use distribute_storage_log_a.IndexCache.Soundness.{KindLaws, Holds, Good, get_or_build_lem}
use distribute_storage_log_a.LineIndex.{
  SparseLineIndex, build_sparse_line_index, min_file_size_bytes_for_index,
}
use distribute_storage_log_a.LineIndex.Codec.{load_line_index, load-fresh}
use distribute_storage_log_a.LineIndex.Build.{IsIndexOf, build_sound}

abbrev pub line_kind : IndexKind SparseLineIndex
line_kind = record {
  min_file_size = min_file_size_bytes_for_index;
  size_of = λ idx. idx.file_size;
  time_of = λ idx. idx.mod_time_nano;
  load = load_line_index;
  build = build_sparse_line_index;
}

line_laws : KindLaws line_kind
line_laws = record {
  load_fresh = λ file size time v e. load-fresh file size time e;
  build_fresh = λ r size time v e. (build_sound r size time v e).1;
}

module _ (lru : Lru SparseLineIndex) where
  unfoldable pub get_or_build_line_index :
      Option FileInfo
      → String
      → Option Bytes
      → Reader
      → lru.State
      → lru.State
      → Outcome SparseLineIndex × lru.State
  unfolding get_or_build
  get_or_build_line_index fi path index_file r cache locked =
      get_or_build lru line_kind fi path index_file r cache locked

  -- The index at `key` is that of the contents of `r`, unless its path, size or time is another's.
  abbrev pub IndexAt : String → FileInfo → Reader → String → SparseLineIndex → Type 0
  IndexAt path fi r key idx =
      key ≡ path
      → idx.file_size ≡ fi.size
      → idx.mod_time_nano ≡ fi.mod_time
      → IsIndexOf (contents r) idx

  -- The cache keeps holding no wrong index of the file, and what is returned is the file's.
  lookup_sound :
      (path : String) (fi : FileInfo) (r : Reader) (index_file : Option Bytes)
      (cache locked : lru.State)
      → ((idx : SparseLineIndex)
          → load? lru line_kind index_file fi ≡ some idx
          → IsIndexOf (contents r) idx)
      → Holds lru (IndexAt path fi r) cache
      → Holds lru (IndexAt path fi r) locked
      → let a = get_or_build_line_index (some fi) path index_file r cache locked in
        Good
          (λ idx.
            IndexAt path fi r path idx
            × ((idx.file_size ≡ fi.size) × (idx.mod_time_nano ≡ fi.mod_time)))
          a.0
        × Holds lru (IndexAt path fi r) a.1
  unfolding get_or_build_line_index
  lookup_sound path fi r index_file cache locked loaded hc hl =
      get_or_build_lem lru line_kind line_laws (IndexAt path fi r) path fi r
        (λ v e _ _ _. (build_sound r fi.size fi.mod_time v e).0) index_file cache locked
        (λ v e _ _ _. loaded v e) hl hc

  Good-found :
      (P : SparseLineIndex → Type 0) (o : Outcome SparseLineIndex) (idx : SparseLineIndex)
      → o ≡ found idx
      → Good P o
      → P idx
  Good-found P o idx e h = rw e at h

  -- If no index of the file's size and time that the cache at the first look, the cache under the
  -- lock or the index file holds for the path is another file's, an index that the lookup returns
  -- has the file's size and time and is the index of the file's contents.
  pub get_or_build_line_index_sound :
      (path : String) (fi : FileInfo) (r : Reader) (index_file : Option Bytes)
      (cache locked : lru.State)
      → ((idx : SparseLineIndex)
          → load? lru line_kind index_file fi ≡ some idx
          → IsIndexOf (contents r) idx)
      → ((key : String) (idx : SparseLineIndex)
          → lru.peek cache key ≡ some idx
          → IndexAt path fi r key idx)
      → ((key : String) (idx : SparseLineIndex)
          → lru.peek locked key ≡ some idx
          → IndexAt path fi r key idx)
      → (idx : SparseLineIndex)
      → (get_or_build_line_index (some fi) path index_file r cache locked).0 ≡ found idx
      → IsIndexOf (contents r) idx × (idx.file_size ≡ fi.size) × (idx.mod_time_nano ≡ fi.mod_time)
  get_or_build_line_index_sound path fi r index_file cache locked loaded hc hl idx e =
      let a = get_or_build_line_index (some fi) path index_file r cache locked in
      let (index, (size, time)) =
        Good-found _ a.0 idx e (lookup_sound path fi r index_file cache locked loaded hc hl).0 in
      (index refl size time, size, time)
