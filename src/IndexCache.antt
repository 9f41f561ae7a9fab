-- ===== src/IndexCache.antt =====
-- The lookup that `GetOrBuildLineIndex` (internal/worker/line_index.go) and `GetOrBuildBloomIndex`
-- (internal/worker/bloom_index.go) share: memory cache, index file, second look under the lock, build.
pub mod Soundness
use distribute_storage_log_a.Prelude.{
  ℕ, ◌≡◌, ◌⊎◌, Bool, true, false, ◌&&◌, Option, none, some, String, if◌then◌else◌, ltb, ◌==◌,
}
use distribute_storage_log_a.Bytes.{Bytes, Reader}

-- github.com/hashicorp/golang-lru: `get` may move an entry to the front, `add` may evict others.
-- What a lookup finds was added under that key.
pub record Lru (V : Type 0) : Type 1 where
  pub State : Type 0
  pub peek : State → String → Option V
  pub touch : State → String → State
  pub add : State → String → V → State
  pub peek-touch : (s : State) (k j : String) → peek (touch s k) j ≡ peek s j
  pub peek-add :
      (s : State) (k j : String) (v : V) {w : V}
      → peek (add s k v) j ≡ some w
      → ((j ≡ k) × (w ≡ v)) ⊎ (peek s j ≡ some w)

-- What differs between the two indexes: the threshold, the fields that tell a stale index, the
-- loader of the index file and the scan.
pub record IndexKind (V : Type 0) : Type 0 where
  pub min_file_size : ℕ
  pub size_of : V → ℕ
  pub time_of : V → ℕ
  pub load : Bytes → ℕ → ℕ → Option V
  pub build : Reader → ℕ → ℕ → Option V

-- What the file system says of a file: `fi.Size()` and `fi.ModTime().UnixNano()`.
pub record FileInfo : Type 0 where
  pub size : ℕ
  pub mod_time : ℕ

-- The four returns: the error of `os.Stat`, `nil, nil` for a small file, an index, and the error of
-- the scan.
pub data Outcome (V : Type 0) : Type 0 where
  stat_failed : Outcome V
  too_small : Outcome V
  found : V → Outcome V
  build_failed : Outcome V

module _ {V : Type 0} (lru : Lru V) (kind : IndexKind V) where
  abbrev pub is_fresh : V → FileInfo → Bool
  is_fresh idx fi = (kind.size_of idx == fi.size) && (kind.time_of idx == fi.mod_time)

  -- A cached index that is not stale.
  abbrev pub fresh? : Option V → FileInfo → Option V
  fresh? none fi = none
  fresh? (some idx) fi = if is_fresh idx fi then some idx else none

  abbrev pub load? : Option Bytes → FileInfo → Option V
  load? none fi = none
  load? (some file) fi = kind.load file fi.size fi.mod_time

  -- A scan's index is added to the cache.
  unfoldable pub after_scan : Option V → String → lru.State → Outcome V × lru.State
  after_scan none path cache = (build_failed, cache)
  after_scan (some idx) path cache = (found idx, lru.add cache path idx)

  -- Under the lock, where another call may have filled the cache in between: the second look, and
  -- the scan where it finds nothing.
  unfoldable pub second_look :
      Option V → String → FileInfo → Reader → lru.State → Outcome V × lru.State
  unfolding after_scan
  second_look (some idx) path fi r cache = (found idx, cache)
  second_look none path fi r cache = after_scan (kind.build r fi.size fi.mod_time) path cache

  unfoldable pub build_locked : String → FileInfo → Reader → lru.State → Outcome V × lru.State
  unfolding second_look
  build_locked path fi r cache =
      second_look (fresh? (lru.peek cache path) fi) path fi r (lru.touch cache path)

  -- The index file, before the lock is taken.
  unfoldable pub after_load :
      Option V → String → FileInfo → Reader → lru.State → lru.State → Outcome V × lru.State
  unfolding build_locked
  after_load (some idx) path fi r cache locked = (found idx, lru.add cache path idx)
  after_load none path fi r cache locked = build_locked path fi r locked

  -- The first look.
  unfoldable pub first_look :
      Option V
      → String
      → FileInfo
      → Option Bytes
      → Reader
      → lru.State
      → lru.State
      → Outcome V × lru.State
  unfolding after_load
  first_look (some idx) path fi index_file r cache locked = (found idx, cache)
  first_look none path fi index_file r cache locked =
      after_load (load? index_file fi) path fi r cache locked

  -- `index_file` holds the bytes of the index file, where it can be read; `r` the reads of the log
  -- file; `cache` the cache at the first look, and `locked` the cache once the lock is taken.
  unfoldable pub get_or_build :
      Option FileInfo
      → String
      → Option Bytes
      → Reader
      → lru.State
      → lru.State
      → Outcome V × lru.State
  unfolding first_look
  get_or_build none path index_file r cache locked = (stat_failed, cache)
  get_or_build (some fi) path index_file r cache locked =
      if ltb fi.size kind.min_file_size
      then (too_small, cache)
      else first_look (fresh? (lru.peek cache path) fi) path fi index_file r (lru.touch cache path)
          locked
