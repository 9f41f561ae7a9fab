-- ===== src/Bloom/Index/Skips.antt =====
-- A search skips no chunk with a line that contains its keyword: `buildChunkBloomIndex` and
-- `MayContainSearchKeyword` of internal/worker/bloom_index.go together.
use distribute_storage_log_a.Prelude.{ℕ, ◌+◌, List, [], ◌∷◌}
use distribute_storage_log_a.Bytes.{Bytes, Reader, more}
use distribute_storage_log_a.LineIndex.Lines.{newlines}

-- Reads, and what is read behind them.
unfoldable pub read_then : List Bytes → Reader → Reader
read_then [] r = r
read_then (chunk ∷ before) r = more chunk (read_then before r)

unfoldable pub newlines_in : List Bytes → ℕ
newlines_in [] = 0
newlines_in (chunk ∷ before) = newlines chunk + newlines_in before
