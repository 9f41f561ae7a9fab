-- ===== src/Examples/Worker.antt =====
-- Small files, filters and caches: internal/worker/line_index.go and internal/worker/bloom_index.go.
use distribute_storage_log_a.Prelude.{
  ℕ, zero, suc, ◌≡◌, ◌+◌, ◌⊎◌, refl, true, false, Option, none, some, [], ◌∷◌, ◌++◌, String, inl,
  inr, arith, map, replicate, if◌then◌else◌, Bool-cases,
}
use distribute_storage_log_a.Prelude.Int.{pos}
use distribute_storage_log_a.Prelude.Text.{str_eq, eq_iff}
use distribute_storage_log_a.Bytes.{Bytes, Reader, more, eof, contents, index_byte}
use distribute_storage_log_a.IndexCache.{
  Lru, after_scan, second_look, build_locked, after_load, first_look, get_or_build,
}
use distribute_storage_log_a.LineIndex.{
  SparseLineIndex, count_line, scan_chunk, scan_read, scan_file, build_sparse_line_index,
}
use distribute_storage_log_a.LineIndex.Lines.{raw_lines, newlines, lines_from}
use distribute_storage_log_a.LineIndex.Build.{IsIndexOf, build-IsIndexOf, build_sound}
use distribute_storage_log_a.LineIndex.Codec.{save_line_index, load_line_index, InRange, load-save}
use distribute_storage_log_a.LineIndex.Cache.{
  get_or_build_line_index, get_or_build_line_index_sound,
}
use distribute_storage_log_a.LineIndex.Read.{
  read_file_lines_with_index, drop_cr, clamp_start, clamp_limit,
}
use distribute_storage_log_a.LineIndex.Read.Slice.{slice, read_file_lines-eq-slice}
use distribute_storage_log_a.Bloom.{empty_filter, add, may_contain, is_skipped, is_long_pure_digits}
use distribute_storage_log_a.Bloom.NoFalseNegative.{may_contain-add}
use distribute_storage_log_a.Bloom.Tokens.{
  to_lower, to_lower_ascii, in_range, clean_keyword, trim_left, trim_right, is_token_char,
  is_keyword_char, extract_tokens_to_bloom, may_contain_search_keyword,
}
use distribute_storage_log_a.Bloom.Tokens.Keyword.{words_from}
use distribute_storage_log_a.Bloom.Tokens.Missed.{wordless_keyword_missed}
use distribute_storage_log_a.Bloom.Index.{ChunkBloomIndex, build_chunk_bloom_index}
use distribute_storage_log_a.Bloom.Index.Chunks.{Full}
use distribute_storage_log_a.Bloom.Index.Tiling.{
  Tiles, build-some, build-Tiles, unfinished_line_in_no_chunk,
}

-- "a\r\nb\nc", in two reads.
abbrev three_lines : Bytes
three_lines = 97 ∷ 13 ∷ 10 ∷ 98 ∷ 10 ∷ 99 ∷ []

abbrev two_reads : Reader
two_reads = more (97 ∷ 13 ∷ []) (eof (10 ∷ 98 ∷ 10 ∷ 99 ∷ []))

abbrev small_index : SparseLineIndex
small_index = record {
  step = 5000;
  total_lines = 2;
  offsets = 0 ∷ [];
  file_size = 6;
  mod_time_nano = 7;
}

small_index_built : build_sparse_line_index two_reads 6 7 ≡ some small_index
unfolding build_sparse_line_index scan_file scan_read scan_chunk count_line index_byte
small_index_built = refl

small_index-IsIndexOf : IsIndexOf three_lines small_index
small_index-IsIndexOf = (build_sound two_reads 6 7 small_index small_index_built).0

build-IsIndexOf_example :
    (idx : SparseLineIndex) × (build_sparse_line_index two_reads 6 7 ≡ some idx)
    × IsIndexOf (contents two_reads) idx
    × (idx.file_size ≡ 6)
    × (idx.mod_time_nano ≡ 7)
build-IsIndexOf_example = build-IsIndexOf two_reads 6 7 tt

read_file_lines-eq-slice_example :
    read_file_lines_with_index (some small_index) three_lines true (pos 2) (pos 1)
    ≡ some
        (slice (map drop_cr (raw_lines three_lines)) (clamp_start (pos 2)) (clamp_limit (pos 1)) 2)
unfolding lines_from
read_file_lines-eq-slice_example =
    read_file_lines-eq-slice (some small_index) three_lines true (pos 2) (pos 1)
      small_index-IsIndexOf (omega arith, (omega arith, (omega arith, tt)))

small_index-InRange : InRange small_index
small_index-InRange = record {
  step_range = omega arith;
  total_range = omega arith;
  size_range = omega arith;
  time_range = omega arith;
  offsets_range = (omega arith, tt);
}

load-save_example :
    load_line_index (save_line_index small_index) small_index.file_size small_index.mod_time_nano
    ≡ some small_index
load-save_example = load-save small_index small_index-InRange

added :
    {s : Option SparseLineIndex} {v w : SparseLineIndex} (j k : String)
    → (if str_eq j k then some v else s) ≡ some w
    → ((j ≡ k) × (w ≡ v)) ⊎ (s ≡ some w)
added {s} {v} {w} j k e = elim (Bool-cases (str_eq j k)) [
  | inl p ↦ let same : some v ≡ some w = rw p at e in inl ((eq_iff j k).0 p, cc)
  | inr p ↦ inr (rw p at e)
]

abbrev large_index : SparseLineIndex
large_index = record small_index { file_size = 5000000 }

-- "err"
abbrev err : Bytes
err = 101 ∷ 114 ∷ 114 ∷ []

err_added : may_contain err (add err empty_filter) ≡ true
err_added = may_contain-add err empty_filter refl

-- A cache that holds every entry.
abbrev map_lru : Lru SparseLineIndex
map_lru = record {
  State = String → Option SparseLineIndex;
  peek = λ s k. s k;
  touch = λ s k. s;
  add = λ s k v j. if str_eq j k then some v else s j;
  peek-touch = λ s k j. refl;
  peek-add = λ s k j v e. added j k e;
}

get_or_build_line_index_sound_example :
    IsIndexOf (contents two_reads) large_index
    × (large_index.file_size ≡ 5000000)
    × (large_index.mod_time_nano ≡ 7)
unfolding get_or_build_line_index get_or_build first_look after_load build_locked second_look
    after_scan build_sparse_line_index scan_file scan_read scan_chunk count_line index_byte
get_or_build_line_index_sound_example =
    get_or_build_line_index_sound map_lru "/a.log" (record { size = 5000000; mod_time = 7 })
      two_reads none (λ k. none) (λ k. none) (λ idx e. cc) (λ k idx e. cc) (λ k idx e. cc)
      large_index refl

-- The UTF-8 bytes of a Chinese word, in a text that is that word.
wordless_keyword_missed_example :
    may_contain_search_keyword
      (λ k. k)
      (230 ∷ 149 ∷ 133 ∷ [])
      (extract_tokens_to_bloom (230 ∷ 149 ∷ 133 ∷ []) empty_filter)
    ≡ false
unfolding clean_keyword trim_left trim_right to_lower_ascii to_lower is_token_char is_keyword_char
    in_range words_from is_skipped is_long_pure_digits
wordless_keyword_missed_example =
    wordless_keyword_missed (λ k. k) (230 ∷ 149 ∷ 133 ∷ []) (230 ∷ 149 ∷ 133 ∷ []) refl refl refl
      refl

build-Tiles_example :
    (idx : ChunkBloomIndex) × (build_chunk_bloom_index two_reads 6 7 ≡ some idx)
    × Tiles (contents two_reads) 6 idx
    × (idx.total_lines ≡ newlines (contents two_reads))
build-Tiles_example = build-Tiles two_reads 6 7 tt

-- 15000 newlines, and one byte behind them.
abbrev long_file : Reader
long_file = more (replicate 15000 10) (eof (97 ∷ []))

newlines-lines : (n : ℕ) (rest : Bytes) → newlines (replicate n 10 ++ rest) ≡ n + newlines rest
unfolding newlines
newlines-lines zero rest = omega arith
newlines-lines (suc n) rest = omega (arith, newlines-lines n rest)

unfinished_line_in_no_chunk_example :
    Full (contents long_file) 1 (build-some long_file 15001 7 tt).0.chunks
unfolding newlines
unfinished_line_in_no_chunk_example =
    unfinished_line_in_no_chunk long_file 15001 7 0 ((build-some long_file 15001 7 tt).0)
      ((build-some long_file 15001 7 tt).1) (newlines-lines 15000 (97 ∷ []))
