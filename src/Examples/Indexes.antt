-- ===== src/Examples/Indexes.antt =====
-- Chunked indexes in a file and in a cache: internal/worker/bloom_index.go.
use distribute_storage_log_a.Prelude.{
  ◌≡◌, ◌⊎◌, refl, Option, none, some, [], ◌∷◌, String, inl, inr, arith, if◌then◌else◌, Bool-cases,
}
use distribute_storage_log_a.Prelude.Text.{str_eq, eq_iff}
use distribute_storage_log_a.Bytes.{Reader, eof, contents, index_byte}
use distribute_storage_log_a.IndexCache.{
  Lru, after_scan, second_look, build_locked, after_load, first_look, get_or_build,
}
use distribute_storage_log_a.Bloom.{empty_filter}
use distribute_storage_log_a.Bloom.Tokens.{
  extract_tokens_to_bloom, extract_from, add_token, in_range,
}
use distribute_storage_log_a.Bloom.Index.{
  BloomChunkMeta, ChunkBloomIndex, build_chunk_bloom_index, scan_file, scan_read, scan_chunk,
  finish, close_last, index_text, end_line,
}
use distribute_storage_log_a.Bloom.Index.Codec.{
  load_bloom_index, save_bloom_index, load_bloom_index-save_bloom_index,
}
use distribute_storage_log_a.Bloom.Index.Tiling.{Tiles}
use distribute_storage_log_a.Bloom.Index.Cache.{
  get_or_build_bloom_index, get_or_build_bloom_index_sound,
}

-- The index of the file "\n\n" of an assumed size.
abbrev two_lines : Reader
two_lines = eof (10 ∷ 10 ∷ [])

abbrev only_chunk : BloomChunkMeta
only_chunk = record {
  chunk_index = 0;
  start_line = 1;
  line_count = 2;
  start_offset = 0;
  end_offset = 2000000;
  filter = empty_filter;
}

abbrev two_lines_index : ChunkBloomIndex
two_lines_index = record {
  file_size = 2000000;
  mod_time_nano = 7;
  total_lines = 2;
  chunks = only_chunk ∷ [];
}

load_bloom_index-save_bloom_index_example :
    load_bloom_index (save_bloom_index two_lines_index) 2000000 7 ≡ some two_lines_index
load_bloom_index-save_bloom_index_example =
    load_bloom_index-save_bloom_index two_lines_index (record {
      count_range = omega arith;
      total_range = omega arith;
      size_range = omega arith;
      time_range = omega arith;
      chunks_range = (
        record {
          index_range = omega arith;
          start_range = omega arith;
          count_range = omega arith;
          offset_range = omega arith;
          end_range = omega arith;
          filter_size = refl;
        },
        tt,
      );
    })

peek_added :
    (s : Option ChunkBloomIndex) (v w : ChunkBloomIndex) (j k : String)
    → (if str_eq j k then some v else s) ≡ some w
    → ((j ≡ k) × (w ≡ v)) ⊎ (s ≡ some w)
peek_added s v w j k e = elim (Bool-cases (str_eq j k)) [
  | inl p ↦ let same : some v ≡ some w = rw p at e in inl ((eq_iff j k).0 p, cc)
  | inr p ↦ inr (rw p at e)
]

-- A cache that holds every entry.
abbrev whole_lru : Lru ChunkBloomIndex
whole_lru = record {
  State = String → Option ChunkBloomIndex;
  peek = λ s k. s k;
  touch = λ s k. s;
  add = λ s k v j. if str_eq j k then some v else s j;
  peek-touch = λ s k j. refl;
  peek-add = λ s k j v {w} e. peek_added (s j) v w j k e;
}

get_or_build_bloom_index_sound_example :
    Tiles (contents two_lines) 2000000 two_lines_index
    × (two_lines_index.file_size ≡ 2000000)
    × (two_lines_index.mod_time_nano ≡ 7)
unfolding get_or_build_bloom_index get_or_build first_look after_load build_locked second_look
    after_scan build_chunk_bloom_index scan_file scan_read scan_chunk finish close_last index_text
    end_line index_byte extract_tokens_to_bloom extract_from add_token in_range
get_or_build_bloom_index_sound_example =
    get_or_build_bloom_index_sound whole_lru "/a.log" (record { size = 2000000; mod_time = 7 })
      two_lines none (λ k. none) (λ k. none) (λ idx e. cc) (λ k idx e. cc) (λ k idx e. cc)
      two_lines_index refl
