-- ===== src/Bloom/Index/Cache.antt =====
-- `GetOrBuildBloomIndex` of internal/worker/bloom_index.go: the shared lookup at the chunked index.
use distribute_storage_log_a.Prelude.{◌≡◌, refl, Option, some, String}
use distribute_storage_log_a.Bytes.{Bytes, Reader, contents}
use distribute_storage_log_a.IndexCache.{
  Lru, IndexKind, FileInfo, Outcome, found, get_or_build, load?,
}
use distribute_storage_log_a.IndexCache.Soundness.{KindLaws, get_or_build_lem}
use distribute_storage_log_a.Bloom.Index.{
  ChunkBloomIndex, min_file_size_bytes_for_bloom, build_chunk_bloom_index,
}
use distribute_storage_log_a.Bloom.Index.Codec.{load_bloom_index, load_bloom_index_fresh}
use distribute_storage_log_a.Bloom.Index.Tiling.{Tiles, built-Tiles, build-fresh}

abbrev pub bloom_kind : IndexKind ChunkBloomIndex
bloom_kind = record {
  min_file_size = min_file_size_bytes_for_bloom;
  size_of = λ idx. idx.file_size;
  time_of = λ idx. idx.mod_time_nano;
  load = load_bloom_index;
  build = build_chunk_bloom_index;
}

bloom_laws : KindLaws bloom_kind
bloom_laws = record {
  load_fresh = λ file size time v e. load_bloom_index_fresh file size time e;
  build_fresh = λ r size time v e. build-fresh r size time v e;
}

module _ (lru : Lru ChunkBloomIndex) where
  unfoldable pub get_or_build_bloom_index :
      Option FileInfo
      → String
      → Option Bytes
      → Reader
      → lru.State
      → lru.State
      → Outcome ChunkBloomIndex × lru.State
  get_or_build_bloom_index fi path index_file r cache locked =
      get_or_build lru bloom_kind fi path index_file r cache locked

  abbrev pub TilesAt : String → FileInfo → Reader → String → ChunkBloomIndex → Type 0
  TilesAt path fi r key idx =
      key ≡ path
      → idx.file_size ≡ fi.size
      → idx.mod_time_nano ≡ fi.mod_time
      → Tiles (contents r) fi.size idx

  -- If every index of the file's size and time that the cache at the first look, the cache under
  -- the lock or the index file holds for the path tiles the file, an index that the lookup returns
  -- has the file's size and time, and its chunks tile the file.
  pub get_or_build_bloom_index_sound :
      (path : String) (fi : FileInfo) (r : Reader) (index_file : Option Bytes)
      (cache locked : lru.State)
      → ((idx : ChunkBloomIndex)
          → load? lru bloom_kind index_file fi ≡ some idx
          → Tiles (contents r) fi.size idx)
      → ((key : String) (idx : ChunkBloomIndex)
          → lru.peek cache key ≡ some idx
          → TilesAt path fi r key idx)
      → ((key : String) (idx : ChunkBloomIndex)
          → lru.peek locked key ≡ some idx
          → TilesAt path fi r key idx)
      → (idx : ChunkBloomIndex)
      → (get_or_build_bloom_index (some fi) path index_file r cache locked).0 ≡ found idx
      → Tiles (contents r) fi.size idx
        × (idx.file_size ≡ fi.size)
        × (idx.mod_time_nano ≡ fi.mod_time)
  unfolding get_or_build_bloom_index
  get_or_build_bloom_index_sound path fi r index_file cache locked loaded hc hl idx e =
      let good =
        (get_or_build_lem lru bloom_kind bloom_laws (TilesAt path fi r) path fi r
          (λ v q _ _ _. (built-Tiles r fi.size fi.mod_time v q).0) index_file cache locked
          (λ v q _ _ _. loaded v q) hl hc).0 in
      let (tiles, (size, time)) = rw e at good in (tiles refl size time, size, time)
