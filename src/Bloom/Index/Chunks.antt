-- ===== src/Bloom/Index/Chunks.antt =====
-- Closed chunks of an index, counted from the file's start.

use distribute_storage_log_a.Prelude.{
  ℕ, suc, ◌+◌, ◌*◌, ◌≡◌, refl, some, List, [], ◌∷◌, ◌++◌, length, arith, length-append,
}
use distribute_storage_log_a.Bytes.{Bytes}
use distribute_storage_log_a.LineIndex.Lines.{line_start, line_start-append}
use distribute_storage_log_a.Bloom.Index.{BloomChunkMeta}

-- The chunk number `k` of a file, closed: 15000 lines, and the offsets at which they start and end.
pub record IsChunk (file : Bytes) (k : ℕ) (c : BloomChunkMeta) : Type 0 where
  pub index_lem : c.chunk_index ≡ k
  pub start_line_lem : c.start_line ≡ 15000 * k + 1
  pub line_count_lem : c.line_count ≡ 15000
  pub start_lem : line_start (15000 * k) file ≡ some c.start_offset
  pub end_lem : line_start (15000 * k + 15000) file ≡ some c.end_offset

-- The first `n` chunks of a file.
pub data Full (file : Bytes) : ℕ → List BloomChunkMeta → Type 0 where
  here : Full file 0 []
  next :
      {k : ℕ} {cs : List BloomChunkMeta} {n : ℕ} (c : BloomChunkMeta)
      → Full file k cs
      → IsChunk file k c
      → suc k ≡ n
      → Full file n (cs ++ c ∷ [])

pub Full-length : {file : Bytes} {n : ℕ} {cs : List BloomChunkMeta} → Full file n cs → length cs ≡ n
Full-length here = refl
Full-length (next {cs = cs} c f i e) = omega (arith, Full-length f, length-append {0} cs (c ∷ []))

pub Full-append :
    (xs ys : Bytes) {n : ℕ} {cs : List BloomChunkMeta} → Full xs n cs → Full (xs ++ ys) n cs
Full-append xs ys here = here
Full-append xs ys (next {k = k} c f i e) =
    next c (Full-append xs ys f)
      (record {
        index_lem = i.index_lem;
        start_line_lem = i.start_line_lem;
        line_count_lem = i.line_count_lem;
        start_lem = line_start-append (15000 * k) xs ys i.start_lem;
        end_lem = line_start-append (15000 * k + 15000) xs ys i.end_lem;
      })
      e
