-- ===== src/Examples/Chunks.antt =====
-- Keywords in small chunked indexes: internal/worker/bloom_index.go.
use distribute_storage_log_a.Prelude.{[], ◌∷◌, ◌++◌}
use distribute_storage_log_a.Bytes.{newline, Reader, more, eof}
use distribute_storage_log_a.Bloom.Index.Walk.{whole_lines}
use distribute_storage_log_a.Bloom.Index.Skips.{read_then}

-- "Err" in the line "x ERR=1", the third one: "a" comes with the first read, "b" and it with the second.
abbrev log : Reader
log = read_then ((97 ∷ 10 ∷ []) ∷ []) (
    more
      (whole_lines ((98 ∷ []) ∷ [])
        ++ (((120 ∷ 32 ∷ []) ++ ((69 ∷ 82 ∷ 82 ∷ []) ++ (61 ∷ 49 ∷ []))) ++ newline ∷ 99 ∷ []))
      (eof []))
