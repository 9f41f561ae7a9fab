-- ===== src/Bloom/Index/Tiling.antt =====
-- The chunks of an index lie one behind another, from the start of the file to its end.
use mathlib.Core.Path.{◌∙◌, sym, subst}
use distribute_storage_log_a.Prelude.{
  ℕ, zero, suc, ◌+◌, ◌*◌, ◌≡◌, ◌<◌, refl, ap, true, false, Option, none, some, List, [], ◌∷◌, ◌++◌,
  ltb, ◌⊎◌, length, arith, Bool-cases, inl, inr,
}
use distribute_storage_log_a.Bytes.{Bytes, Reader, more, eof, failed, contents}
use distribute_storage_log_a.LineIndex.Lines.{newlines, line_start}
use distribute_storage_log_a.Bloom.Index.{
  BloomChunkMeta, ChunkBloomIndex, Scan, scan_read, scan_file, is_empty, close_last, finish, begin,
  build_chunk_bloom_index,
}
use distribute_storage_log_a.LineIndex.Build.{Ends}
use distribute_storage_log_a.Bloom.Index.Chunks.{Full, Full-length}
use distribute_storage_log_a.Bloom.Index.Partition.{IsScan, scan_file-IsScan, begin-IsScan}

-- The chunks of an index of a file of `size` bytes: `k` full ones, and at most one more, which
-- starts where the last full one ends, holds the remaining lines and ends with the file.
pub data Tiles (file : Bytes) (size : ℕ) (idx : ChunkBloomIndex) : Type 0 where
  full_only :
      (k : ℕ) → Full file (suc k) idx.chunks → newlines file ≡ 15000 * suc k → Tiles file size idx
  with_last :
      (k : ℕ) (full : List BloomChunkMeta) (last : BloomChunkMeta)
      → Full file k full
      → idx.chunks ≡ full ++ last ∷ []
      → last.chunk_index ≡ k
      → last.start_line ≡ 15000 * k + 1
      → line_start (15000 * k) file ≡ some last.start_offset
      → 15000 * k + last.line_count ≡ newlines file
      → last.line_count < 15000
      → last.end_offset ≡ size
      → (0 < last.line_count) ⊎ (k ≡ 0)
      → Tiles file size idx

no_chunk : (cs : List BloomChunkMeta) → length cs ≡ 0 → is_empty cs ≡ true
no_chunk [] e = refl
no_chunk (c ∷ cs) e = ground (arith)

some_chunk : (cs : List BloomChunkMeta) (k : ℕ) → length cs ≡ suc k → is_empty cs ≡ false
some_chunk [] k e = ground (arith)
some_chunk (c ∷ cs) k e = refl

zero_or_more : (n : ℕ) → (n ≡ 0) ⊎ (0 < n)
zero_or_more zero = inl refl
zero_or_more (suc n) = inr (omega (arith))

close_last-last :
    (size : ℕ) (s : Scan)
    → (0 < s.chunk_line_count) ⊎ (is_empty s.chunks ≡ true)
    → close_last size s
      ≡ s.chunks
        ++ (record s.current_chunk { line_count = s.chunk_line_count; end_offset = size }) ∷ []
unfolding close_last
close_last-last size s (inl p) = ground (arith)
close_last-last size s (inr e) =
    rw e (elim (Bool-cases (ltb 0 s.chunk_line_count)) [ inl p ↦ rw p refl | inr p ↦ rw p refl ])

close_last-full :
    (size : ℕ) (s : Scan)
    → s.chunk_line_count ≡ 0
    → is_empty s.chunks ≡ false
    → close_last size s ≡ s.chunks
unfolding close_last
close_last-full size s p e = rw (p, e) refl

last-Tiles :
    (file : Bytes) (size k : ℕ) (s : Scan) (idx : ChunkBloomIndex)
    → IsScan file k s
    → idx.chunks ≡ close_last size s
    → (0 < s.chunk_line_count) ⊎ (is_empty s.chunks ≡ true)
    → (0 < s.chunk_line_count) ⊎ (k ≡ 0)
    → Tiles file size idx
last-Tiles file size k s idx h e some_line or_first =
    with_last k s.chunks
      (record s.current_chunk { line_count = s.chunk_line_count; end_offset = size }) h.full
      (e ∙ close_last-last size s some_line) h.index_lem h.start_line_lem h.start_lem
      h.chunk_lines_lem h.room refl or_first

close_last-Tiles :
    (file : Bytes) (size k : ℕ) (s : Scan) (idx : ChunkBloomIndex)
    → IsScan file k s
    → idx.chunks ≡ close_last size s
    → Tiles file size idx
close_last-Tiles file size zero s idx h e =
    last-Tiles file size 0 s idx h e (inr (no_chunk s.chunks (Full-length h.full))) (inr refl)
close_last-Tiles file size (suc k) s idx h e = elim (zero_or_more s.chunk_line_count) [
  | inl none_left ↦
      let all_full : idx.chunks ≡ s.chunks =
        e ∙ close_last-full size s none_left (some_chunk s.chunks k (Full-length h.full)) in
      full_only k (subst (λ cs. Full file (suc k) cs) (sym all_full) h.full)
        (omega (arith, h.chunk_lines_lem))
  | inr left ↦ last-Tiles file size (suc k) s idx h e (inl left) (inl left)
]

pub finish-some :
    (size mod_time : ℕ) (q : Option Scan) (idx : ChunkBloomIndex)
    → finish size mod_time q ≡ some idx
    → (s : Scan) × (q ≡ some s)
      × (idx.chunks ≡ close_last size s)
      × (idx.total_lines ≡ s.line_count)
unfolding finish
finish-some size mod_time none idx e = cc
finish-some size mod_time (some s) idx e =
    let same : record {
      file_size = size;
      mod_time_nano = mod_time;
      total_lines = s.line_count;
      chunks = close_last size s;
    }
        ≡ idx =
      cc in
    (
      s,
      refl,
      ap (λ (x : ChunkBloomIndex). x.chunks) (sym same),
      ap (λ (x : ChunkBloomIndex). x.total_lines) (sym same),
    )

pub built-Tiles :
    (r : Reader) (size mod_time : ℕ) (idx : ChunkBloomIndex)
    → build_chunk_bloom_index r size mod_time ≡ some idx
    → Tiles (contents r) size idx × (idx.total_lines ≡ newlines (contents r))
unfolding build_chunk_bloom_index
built-Tiles r size mod_time idx e =
    let (s, q, chunks, total) = finish-some size mod_time (scan_file r begin) idx e in
    let (k, h) = scan_file-IsScan r [] 0 begin refl begin-IsScan q in
    (close_last-Tiles (contents r) size k s idx h chunks, total ∙ h.lines_lem)

finish-fresh :
    (size mod_time : ℕ) (q : Option Scan) (idx : ChunkBloomIndex)
    → finish size mod_time q ≡ some idx
    → (idx.file_size ≡ size) × (idx.mod_time_nano ≡ mod_time)
unfolding finish
finish-fresh size mod_time none idx e = cc
finish-fresh size mod_time (some s) idx e = ground arith

pub build-fresh :
    (r : Reader) (size mod_time : ℕ) (idx : ChunkBloomIndex)
    → build_chunk_bloom_index r size mod_time ≡ some idx
    → (idx.file_size ≡ size) × (idx.mod_time_nano ≡ mod_time)
unfolding build_chunk_bloom_index
build-fresh r size mod_time idx e = finish-fresh size mod_time (scan_file r begin) idx e

scan_file-Ends : (r : Reader) (s : Scan) → Ends r → (q : Scan) × (scan_file r s ≡ some q)
unfolding scan_file
scan_file-Ends (more chunk r) s ends = scan_file-Ends r (scan_read chunk s) ends
scan_file-Ends (eof chunk) s ends = (scan_read chunk s, refl)
scan_file-Ends (failed chunk) s ends = elim ends [ ]

finish-total :
    (size mod_time : ℕ) (q : Scan)
    → (idx : ChunkBloomIndex) × (finish size mod_time (some q) ≡ some idx)
unfolding finish
finish-total size mod_time q = (_, refl)

pub build-some :
    (r : Reader) (size mod_time : ℕ)
    → Ends r
    → (idx : ChunkBloomIndex) × (build_chunk_bloom_index r size mod_time ≡ some idx)
unfolding build_chunk_bloom_index
build-some r size mod_time ends =
    let (q, e) = scan_file-Ends r begin ends in
    let (idx, finished) = finish-total size mod_time q in (idx, rw e finished)

-- If the reads end without an error, an index is built, however the file is cut into reads: its
-- chunks are numbered from 0 and its lines from 1, each chunk but a last one holds 15000 lines and
-- ends at the offset at which the next one starts, a last one holds fewer lines and ends at the
-- file's size, and the index counts the newlines of the file.
pub build-Tiles :
    (r : Reader) (size mod_time : ℕ)
    → Ends r
    → (idx : ChunkBloomIndex) × (build_chunk_bloom_index r size mod_time ≡ some idx)
      × Tiles (contents r) size idx
      × (idx.total_lines ≡ newlines (contents r))
build-Tiles r size mod_time ends =
    let (idx, e) = build-some r size mod_time ends in
    let (tiles, total) = built-Tiles r size mod_time idx e in (idx, e, tiles, total)

some_lines_only : (j n k : ℕ) → 0 < n → n < 15000 → 15000 * j + n ≡ 15000 * suc k → ⊥
some_lines_only j n k some_line few count = omega (arith)

first_not_full : (j n k : ℕ) → j ≡ 0 → n < 15000 → 15000 * j + n ≡ 15000 * suc k → ⊥
first_not_full j n k first few count = omega (arith)

Tiles-Full :
    (file : Bytes) (size k : ℕ) (idx : ChunkBloomIndex)
    → newlines file ≡ 15000 * suc k
    → Tiles file size idx
    → Full file (suc k) idx.chunks
Tiles-Full file size k idx count (full_only j full count') =
    let same : suc j ≡ suc k = omega (arith) in subst (λ n. Full file n idx.chunks) same full
Tiles-Full file size k idx count
      (with_last j full last f shape index start_line start lines few ends (inl some_line)) =
    elim (some_lines_only j (last.line_count) k some_line few (lines ∙ count)) [ ]
Tiles-Full file size k idx count
      (with_last j full last f shape index start_line start lines few ends (inr first)) =
    elim (first_not_full j (last.line_count) k first few (lines ∙ count)) [ ]

-- Where a file has a positive multiple of 15000 newlines, the chunks of its index are the full
-- ones only: what stands behind the last newline, a line without its end, is in no chunk.
pub unfinished_line_in_no_chunk :
    (r : Reader) (size mod_time k : ℕ) (idx : ChunkBloomIndex)
    → build_chunk_bloom_index r size mod_time ≡ some idx
    → newlines (contents r) ≡ 15000 * suc k
    → Full (contents r) (suc k) idx.chunks
unfinished_line_in_no_chunk r size mod_time k idx e count =
    Tiles-Full (contents r) size k idx count (built-Tiles r size mod_time idx e).0
