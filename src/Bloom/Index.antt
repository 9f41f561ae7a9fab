-- ===== src/Bloom/Index.antt =====
-- The chunked index of a file: `buildChunkBloomIndex` of internal/worker/bloom_index.go.
pub mod Chunks
pub mod Partition
pub mod Tiling
pub mod Codec
pub mod Cache
pub mod Walk
pub mod Holding
pub mod Skips
pub mod Cut
use distribute_storage_log_a.Prelude.{
  ℕ, zero, suc, ◌+◌, Bool, true, false, ◌||◌, Option, none, some, List, [], ◌∷◌, ◌++◌,
  if◌then◌else◌, ltb, leb, ◌==◌, length, take, drop,
}
use distribute_storage_log_a.Bytes.{Bytes, newline, Reader, more, eof, failed, index_byte}
use distribute_storage_log_a.Bloom.{BloomFilter, empty_filter}
use distribute_storage_log_a.Bloom.Tokens.{extract_tokens_to_bloom}

abbrev pub bloom_chunk_lines : ℕ
bloom_chunk_lines = 15000

abbrev pub min_file_size_bytes_for_bloom : ℕ
min_file_size_bytes_for_bloom = 1048576

pub record BloomChunkMeta : Type 0 where
  pub chunk_index : ℕ
  pub start_line : ℕ
  pub line_count : ℕ
  pub start_offset : ℕ
  pub end_offset : ℕ
  pub filter : BloomFilter

pub record ChunkBloomIndex : Type 0 where
  pub file_size : ℕ
  pub mod_time_nano : ℕ
  pub total_lines : ℕ
  pub chunks : List BloomChunkMeta

-- The variables of the scan.
pub record Scan : Type 0 where
  pub chunks : List BloomChunkMeta
  pub current_chunk : BloomChunkMeta
  pub chunk_line_count : ℕ
  pub line_count : ℕ
  pub current_file_offset : ℕ

-- The chunk begun at a line and an offset; its count and end are filled in when it is closed.
abbrev pub begin_chunk : ℕ → ℕ → ℕ → BloomChunkMeta
begin_chunk index line offset = record {
  chunk_index = index;
  start_line = line;
  line_count = 0;
  start_offset = offset;
  end_offset = 0;
  filter = empty_filter;
}

-- Text of the current line goes into the filter of the current chunk.
unfoldable pub index_text : Bytes → Scan → Scan
index_text text s = record s {
  current_chunk = record s.current_chunk {
    filter = extract_tokens_to_bloom text s.current_chunk.filter;
  };
}

-- A newline at the absolute offset `at`: a chunk of 15000 lines is closed, and the next begun.
unfoldable pub end_line : ℕ → Scan → Scan
end_line at s =
    let lines = s.line_count + 1 in
    let chunk_lines = s.chunk_line_count + 1 in
    let closed =
      s.chunks ++ (record s.current_chunk { line_count = chunk_lines; end_offset = at + 1 }) ∷ [] in
    if leb bloom_chunk_lines chunk_lines
    then record s {
      chunks = closed;
      current_chunk = begin_chunk (length closed) (lines + 1) (at + 1);
      chunk_line_count = 0;
      line_count = lines;
    }
    else record s { chunk_line_count = chunk_lines; line_count = lines }

-- The inner loop over `chunkBytes[pos:]`, on fuel: each round but the last takes a newline.
unfoldable pub scan_chunk : ℕ → Bytes → ℕ → Scan → Scan
scan_chunk zero rest pos s = s
scan_chunk (suc fuel) rest pos s = elim (index_byte newline rest) [
  | none ↦ index_text rest s
  | some i ↦
      scan_chunk fuel (drop (suc i) rest) (pos + i + 1)
        (end_line (s.current_file_offset + (pos + i)) (index_text (take i rest) s))
]

-- One `f.Read`; a read of no bytes changes nothing.
unfoldable pub scan_read : Bytes → Scan → Scan
scan_read [] s = s
scan_read (c ∷ cs) s =
    let s' = scan_chunk (length (c ∷ cs) + 1) (c ∷ cs) 0 s in
    record s' { current_file_offset = s'.current_file_offset + length (c ∷ cs) }

unfoldable pub scan_file : Reader → Scan → Option Scan
scan_file (more chunk r) s = scan_file r (scan_read chunk s)
scan_file (eof chunk) s = some (scan_read chunk s)
scan_file (failed chunk) s = none

abbrev pub is_empty : List BloomChunkMeta → Bool
is_empty [] = true
is_empty (c ∷ cs) = false

-- The last chunk is closed where it has a line, or where it is the only one.
unfoldable pub close_last : ℕ → Scan → List BloomChunkMeta
close_last file_size s =
    if ltb 0 s.chunk_line_count || is_empty s.chunks
    then s.chunks
      ++ (record s.current_chunk { line_count = s.chunk_line_count; end_offset = file_size }) ∷ []
    else s.chunks

unfoldable pub finish : ℕ → ℕ → Option Scan → Option ChunkBloomIndex
finish file_size mod_time none = none
finish file_size mod_time (some s) = some (record {
  file_size = file_size;
  mod_time_nano = mod_time;
  total_lines = s.line_count;
  chunks = close_last file_size s;
})

abbrev pub begin : Scan
begin = record {
  chunks = [];
  current_chunk = begin_chunk 0 1 0;
  chunk_line_count = 0;
  line_count = 0;
  current_file_offset = 0;
}

-- `r` stands for the opened file; `none` is the return of a read error.
unfoldable pub build_chunk_bloom_index : Reader → ℕ → ℕ → Option ChunkBloomIndex
build_chunk_bloom_index r file_size mod_time = finish file_size mod_time (scan_file r begin)
