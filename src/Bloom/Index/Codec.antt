-- ===== src/Bloom/Index/Codec.antt =====
-- The file format of the chunked index: `saveBloomIndexToDisk` and `loadBloomIndexFromDisk` of
-- internal/worker/bloom_index.go, over the bytes of the `.bidx` file.

use distribute_storage_log_a.Prelude.{
  ℕ, zero, suc, ◌<◌, ◌≡◌, refl, true, ◌&&◌, Option, none, some, List, [], ◌∷◌, ◌++◌, ◌==◌, length,
  arith, All, ◌>>=◌, ◌>>◌, guard,
}
use distribute_storage_log_a.Bytes.{
  Bytes, put_le, get_le, words, get_le-put_le, strip_prefix, strip_prefix-append,
}
use distribute_storage_log_a.Bloom.{bloom_filter_bytes}
use distribute_storage_log_a.Bloom.Index.{BloomChunkMeta, ChunkBloomIndex}

-- "BIDX0002"
abbrev pub bloom_magic : Bytes
bloom_magic = 66 ∷ 73 ∷ 68 ∷ 88 ∷ 48 ∷ 48 ∷ 48 ∷ 50 ∷ []

-- The first `n` bytes, and the rest; `none` where there are fewer.
unfoldable pub get_bytes : ℕ → Bytes → Option (Bytes × Bytes)
get_bytes zero bs = some ([], bs)
get_bytes (suc n) [] = none
get_bytes (suc n) (b ∷ bs) = do (front, rest) ← get_bytes n bs; some (b ∷ front, rest)

-- A record of 32 bytes and the filter.
unfoldable pub put_chunk : BloomChunkMeta → Bytes → Bytes
put_chunk c rest =
    put_le 4 c.chunk_index
    ++ (put_le 8 c.start_line
        ++ (put_le 4 c.line_count
            ++ (put_le 8 c.start_offset ++ (put_le 8 c.end_offset ++ (c.filter ++ rest)))))

unfoldable pub get_chunk : Bytes → Option (BloomChunkMeta × Bytes)
get_chunk file = do
  (chunk_index, rest) ← get_le 4 file
  (start_line, rest) ← get_le 8 rest
  (line_count, rest) ← get_le 4 rest
  (start_offset, rest) ← get_le 8 rest
  (end_offset, rest) ← get_le 8 rest
  (filter, rest) ← get_bytes bloom_filter_bytes rest
  some (
    record {
      chunk_index = chunk_index;
      start_line = start_line;
      line_count = line_count;
      start_offset = start_offset;
      end_offset = end_offset;
      filter = filter;
    },
    rest,
  )

unfoldable pub put_chunks : List BloomChunkMeta → Bytes
put_chunks [] = []
put_chunks (c ∷ cs) = put_chunk c (put_chunks cs)

unfoldable pub get_chunks : ℕ → Bytes → Option (List BloomChunkMeta)
get_chunks zero file = some []
get_chunks (suc count) file = do
  (c, rest) ← get_chunk file
  cs ← get_chunks count rest
  some (c ∷ cs)

unfoldable pub save_bloom_index : ChunkBloomIndex → Bytes
save_bloom_index idx =
    bloom_magic
    ++ (put_le 4 (length idx.chunks)
        ++ (put_le 8 idx.total_lines
            ++ (put_le 8 idx.file_size ++ (put_le 8 idx.mod_time_nano ++ put_chunks idx.chunks))))

-- `none` is a returned error: a short file, another magic, size or time. Bytes behind the last
-- chunk are not read.
unfoldable pub load_bloom_index : Bytes → ℕ → ℕ → Option ChunkBloomIndex
load_bloom_index file expected_size expected_mod_time = do
  rest ← strip_prefix bloom_magic file
  (chunk_count, rest) ← get_le 4 rest
  (total_lines, rest) ← get_le 8 rest
  (file_size, rest) ← get_le 8 rest
  (mod_time, rest) ← get_le 8 rest
  guard (file_size == expected_size && mod_time == expected_mod_time)
  chunks ← get_chunks chunk_count rest
  some (record {
    file_size = file_size;
    mod_time_nano = mod_time;
    total_lines = total_lines;
    chunks = chunks;
  })

get_bytes-append :
    (front rest : Bytes) → get_bytes (length front) (front ++ rest) ≡ some (front, rest)
unfolding get_bytes
get_bytes-append [] rest = refl
get_bytes-append (b ∷ front) rest = rw (get_bytes-append front rest) refl

-- Every field of a chunk fits its place in the record.
pub record ChunkInRange (c : BloomChunkMeta) : Type 0 where
  pub index_range : c.chunk_index < words 4
  pub start_range : c.start_line < words 8
  pub count_range : c.line_count < words 4
  pub offset_range : c.start_offset < words 8
  pub end_range : c.end_offset < words 8
  pub filter_size : length c.filter ≡ bloom_filter_bytes

get_chunk-put_chunk :
    (c : BloomChunkMeta) (rest : Bytes)
    → ChunkInRange c
    → get_chunk (put_chunk c rest) ≡ some (c, rest)
unfolding get_chunk put_chunk
get_chunk-put_chunk c rest r =
    let filter : get_bytes bloom_filter_bytes (c.filter ++ rest) ≡ some (c.filter, rest) =
      (rw r.filter_size at (get_bytes-append c.filter rest)) in
    rw (get_le-put_le 4 c.chunk_index _ r.index_range) (
      rw (get_le-put_le 8 c.start_line _ r.start_range) (
        rw (get_le-put_le 4 c.line_count _ r.count_range) (
          rw (get_le-put_le 8 c.start_offset _ r.offset_range)
            (rw (get_le-put_le 8 c.end_offset _ r.end_range) (rw filter refl)))))

get_chunks-put_chunks :
    (cs : List BloomChunkMeta)
    → All ChunkInRange cs
    → get_chunks (length cs) (put_chunks cs) ≡ some cs
unfolding get_chunks put_chunks
get_chunks-put_chunks [] h = refl
get_chunks-put_chunks (c ∷ cs) h =
    rw (get_chunk-put_chunk c (put_chunks cs) h.0) (rw (get_chunks-put_chunks cs h.1) refl)

-- Every field of an index fits its place in the file.
pub record BloomInRange (idx : ChunkBloomIndex) : Type 0 where
  pub count_range : length idx.chunks < words 4
  pub total_range : idx.total_lines < words 8
  pub size_range : idx.file_size < words 8
  pub time_range : idx.mod_time_nano < words 8
  pub chunks_range : All ChunkInRange idx.chunks

-- If every number of a chunked index fits its field and every filter has 1024 bytes, the index that
-- was saved is loaded again, as it was, for a file of the size and time it carries.
pub load_bloom_index-save_bloom_index :
    (idx : ChunkBloomIndex)
    → BloomInRange idx
    → load_bloom_index (save_bloom_index idx) idx.file_size idx.mod_time_nano ≡ some idx
unfolding load_bloom_index save_bloom_index
load_bloom_index-save_bloom_index idx r =
    let same : (idx.file_size == idx.file_size && idx.mod_time_nano == idx.mod_time_nano) ≡ true =
      ground arith in
    rw (strip_prefix-append bloom_magic _) (
      rw (get_le-put_le 4 (length idx.chunks) _ r.count_range) (
        rw (get_le-put_le 8 idx.total_lines _ r.total_range) (
          rw (get_le-put_le 8 idx.file_size _ r.size_range) (
            rw (get_le-put_le 8 idx.mod_time_nano (put_chunks idx.chunks) r.time_range)
              (rw (same, get_chunks-put_chunks idx.chunks r.chunks_range) refl)))))

pub load_bloom_index_fresh :
    (file : Bytes) (size mod_time : ℕ) {idx : ChunkBloomIndex}
    → load_bloom_index file size mod_time ≡ some idx
    → (idx.file_size ≡ size) × (idx.mod_time_nano ≡ mod_time)
unfolding load_bloom_index
load_bloom_index_fresh file size mod_time h = ground arith
