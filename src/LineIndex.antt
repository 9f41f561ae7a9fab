-- ===== src/LineIndex.antt =====
-- The sparse line index of internal/worker/line_index.go: the scan that builds it. The children
-- model the file format, the lookup through cache and disk, and reading a file through the index.
pub mod Lines
pub mod Build
pub mod Cache
pub mod Codec
pub mod Read
use distribute_storage_log_a.Prelude.{
  ℕ, zero, suc, ◌+◌, ◌%◌, Option, none, some, List, [], ◌∷◌, ◌++◌, if◌then◌else◌, ◌==◌, length,
  drop,
}
use distribute_storage_log_a.Bytes.{Bytes, newline, Reader, more, eof, failed, index_byte}

abbrev pub index_step : ℕ
index_step = 5000

abbrev pub min_file_size_bytes_for_index : ℕ
min_file_size_bytes_for_index = 4194304

pub record SparseLineIndex : Type 0 where
  pub step : ℕ
  pub total_lines : ℕ
  pub offsets : List ℕ
  pub file_size : ℕ
  pub mod_time_nano : ℕ

-- The variables of the scan: `currentFileOffset`, `lineCount` and `idx.Offsets`.
pub record Progress : Type 0 where
  pub current_file_offset : ℕ
  pub line_count : ℕ
  pub offsets : List ℕ

-- A newline at `at` of the current chunk: after every 5000th the start of the next line is recorded.
unfoldable pub count_line : ℕ → Progress → Progress
count_line at p =
    let lines = p.line_count + 1 in
    record p {
      line_count = lines;
      offsets =
          if (lines % index_step) == 0
          then p.offsets ++ (p.current_file_offset + at + 1) ∷ []
          else p.offsets;
    }

-- The inner loop over `chunk[pos:]`, on fuel: each round but the last takes a newline.
unfoldable pub scan_chunk : ℕ → Bytes → ℕ → Progress → Progress
unfolding count_line index_byte
scan_chunk zero rest pos p = p
scan_chunk (suc fuel) rest pos p = elim (index_byte newline rest) [
  | none ↦ p
  | some i ↦ scan_chunk fuel (drop (suc i) rest) (pos + i + 1) (count_line (pos + i) p)
]

-- One `f.Read`: the chunk is scanned, and the offset moves over it.
unfoldable pub scan_read : Bytes → Progress → Progress
unfolding scan_chunk
scan_read chunk p =
    let p' = scan_chunk (length chunk + 1) chunk 0 p in
    record p' { current_file_offset = p'.current_file_offset + length chunk }

-- The outer loop; `none` is the return of a read error.
unfoldable pub scan_file : Reader → Progress → Option Progress
unfolding scan_read
scan_file (more chunk r) p = scan_file r (scan_read chunk p)
scan_file (eof chunk) p = some (scan_read chunk p)
scan_file (failed chunk) p = none

abbrev finish : ℕ → ℕ → Option Progress → Option SparseLineIndex
finish file_size mod_time none = none
finish file_size mod_time (some p) = some (record {
  step = index_step;
  total_lines = p.line_count;
  offsets = p.offsets;
  file_size = file_size;
  mod_time_nano = mod_time;
})

-- `r` stands for the opened file, so the error of `os.Open` is left to the caller.
unfoldable pub build_sparse_line_index : Reader → ℕ → ℕ → Option SparseLineIndex
unfolding scan_file
build_sparse_line_index r file_size mod_time =
    finish file_size mod_time
      (scan_file r (record { current_file_offset = 0; line_count = 0; offsets = 0 ∷ [] }))
