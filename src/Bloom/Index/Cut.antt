-- ===== src/Bloom/Index/Cut.antt =====
-- A line that two reads share: `buildChunkBloomIndex` of internal/worker/bloom_index.go.
use distribute_storage_log_a.Bytes.{Bytes}
