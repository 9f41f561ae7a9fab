-- ===== src/Bloom/Index/Partition.antt =====
-- The loop of `buildChunkBloomIndex`: what holds of its variables after each read.
use mathlib.Core.Path.{◌∙◌, sym, subst}
use mathlib.Core.List.{append_assoc, append-nil}
use distribute_storage_log_a.Prelude.{
  ℕ, zero, suc, ◌+◌, ◌*◌, ◌≡◌, ◌<◌, refl, ap, Option, none, some, [], ◌∷◌, ◌++◌, leb, length, take,
  drop, arith, length-append, Option-cases, Bool-cases, inl, inr, take-append-drop,
}
use distribute_storage_log_a.Bytes.{Bytes, newline, Reader, more, eof, failed, index_byte, contents}
use distribute_storage_log_a.LineIndex.Lines.{
  shift, newlines, line_start, newlines-append, line_start-append, line_start-append_behind,
  index_byte-none, index_byte-some,
}
use distribute_storage_log_a.Bloom.Index.Chunks.{Full, here, next, Full-length, Full-append}
use distribute_storage_log_a.Bloom.Index.{
  BloomChunkMeta, Scan, index_text, end_line, scan_chunk, scan_read, scan_file, begin,
}

-- Between two steps of the scan, when the bytes `pre` have been scanned and `k` chunks closed.
pub record IsScan (pre : Bytes) (k : ℕ) (s : Scan) : Type 0 where
  pub full : Full pre k s.chunks
  pub index_lem : s.current_chunk.chunk_index ≡ k
  pub start_line_lem : s.current_chunk.start_line ≡ 15000 * k + 1
  pub start_lem : line_start (15000 * k) pre ≡ some s.current_chunk.start_offset
  pub lines_lem : s.line_count ≡ newlines pre
  pub chunk_lines_lem : 15000 * k + s.chunk_line_count ≡ newlines pre
  pub room : s.chunk_line_count < 15000

-- Bytes without a newline.
text-IsScan :
    (text more_text pre : Bytes) (k : ℕ) (s : Scan)
    → IsScan pre k s
    → newlines more_text ≡ 0
    → IsScan (pre ++ more_text) k (index_text text s)
unfolding index_text
text-IsScan text more_text pre k s h none_there = record {
  full = Full-append pre more_text h.full;
  index_lem = h.index_lem;
  start_line_lem = h.start_line_lem;
  start_lem = line_start-append (15000 * k) pre more_text h.start_lem;
  lines_lem = omega (arith, newlines-append pre more_text, h.lines_lem);
  chunk_lines_lem = omega (arith, newlines-append pre more_text, h.chunk_lines_lem);
  room = h.room;
}

offset-index_text :
    (text : Bytes) (s : Scan) → (index_text text s).current_file_offset ≡ s.current_file_offset
unfolding index_text
offset-index_text text s = refl

offset-end_line : (at : ℕ) (s : Scan) → (end_line at s).current_file_offset ≡ s.current_file_offset
unfolding end_line
offset-end_line at s = ground arith

keep-IsScan :
    (text pre : Bytes) (k : ℕ) (s : Scan) → IsScan pre k s → IsScan pre k (index_text text s)
keep-IsScan text pre k s h =
    rw append-nil at (text-IsScan text [] pre k s h (unfold newlines in refl))

line_end :
    (pre line : Bytes) (at k : ℕ) {n : ℕ}
    → 15000 * k + n ≡ newlines pre
    → n ≡ 14999
    → line_start 1 line ≡ some (length line)
    → at + 1 ≡ length pre + length line
    → line_start (15000 * k + 15000) (pre ++ line) ≡ some (at + 1)
line_end pre line at k count full ends place =
    let number : 15000 * k + 15000 ≡ suc (15000 * k + 14999) = omega arith in
    rw number (
      line_start-append_behind (15000 * k + 14999) 0 pre line (omega arith)
      ∙ (ap (shift (length pre)) ends ∙ ap {B = Option ℕ} some (sym place)))

-- A line of `suc i` bytes with its newline.
line-IsScan :
    (line pre : Bytes) (at k : ℕ) (s : Scan)
    → IsScan pre k s
    → newlines line ≡ 1
    → line_start 1 line ≡ some (length line)
    → at + 1 ≡ length pre + length line
    → (k' : ℕ) × IsScan (pre ++ line) k' (end_line at s)
unfolding end_line
line-IsScan line pre at k s h one ends place =
    elim (Bool-cases (leb 15000 (s.chunk_line_count + 1))) [
      | inl e ↦
          let fourteen : s.chunk_line_count ≡ 14999 = ground (arith, h.room) in
          let ended : line_start (15000 * k + 15000) (pre ++ line) ≡ some (at + 1) =
            line_end pre line at k h.chunk_lines_lem fourteen ends place in
          let closed : BloomChunkMeta = record s.current_chunk {
            line_count = s.chunk_line_count + 1;
            end_offset = at + 1;
          } in
          let whole : Full (pre ++ line) (suc k) (s.chunks ++ closed ∷ []) =
            next closed (Full-append pre line h.full)
              (record {
                index_lem = h.index_lem;
                start_line_lem = h.start_line_lem;
                line_count_lem = omega (arith, fourteen);
                start_lem = line_start-append (15000 * k) pre line h.start_lem;
                end_lem = ended;
              })
              refl in
          (
            suc k,
            rw e (record {
              full = whole;
              index_lem = Full-length whole;
              start_line_lem = omega (arith, h.lines_lem, h.chunk_lines_lem);
              start_lem =
                  (let next_line : 15000 * suc k ≡ 15000 * k + 15000 = omega arith in
                    rw next_line ended);
              lines_lem = omega (arith, newlines-append pre line, h.lines_lem);
              chunk_lines_lem = omega (arith, newlines-append pre line, h.chunk_lines_lem);
              room = omega arith;
            }),
          )
      | inr e ↦ (
        k,
        rw e (record {
          full = Full-append pre line h.full;
          index_lem = h.index_lem;
          start_line_lem = h.start_line_lem;
          start_lem = line_start-append (15000 * k) pre line h.start_lem;
          lines_lem = omega (arith, newlines-append pre line, h.lines_lem);
          chunk_lines_lem = omega (arith, newlines-append pre line, h.chunk_lines_lem);
          room = ground (arith, h.room);
        }),
      )
    ]

pub scan_chunk-none :
    (fuel : ℕ) (rest : Bytes) (pos : ℕ) (s : Scan)
    → index_byte newline rest ≡ none
    → scan_chunk (suc fuel) rest pos s ≡ index_text rest s
unfolding scan_chunk
scan_chunk-none fuel rest pos s e = rw (e, scan_chunk)

pub scan_chunk-some :
    (fuel : ℕ) (rest : Bytes) (pos : ℕ) (s : Scan) (i : ℕ)
    → index_byte newline rest ≡ some i
    → scan_chunk (suc fuel) rest pos s
      ≡ scan_chunk fuel
          (drop (suc i) rest)
          (pos + i + 1)
          (end_line (s.current_file_offset + (pos + i)) (index_text (take i rest) s))
unfolding scan_chunk
scan_chunk-some fuel rest pos s i e = rw (e, scan_chunk)

-- The inner loop scans all of the chunk, given the fuel for it.
scan_chunk-IsScan :
    (fuel : ℕ) (rest pre : Bytes) (pos k : ℕ) (s : Scan)
    → length rest < fuel
    → s.current_file_offset + pos ≡ length pre
    → IsScan pre k s
    → let s' = scan_chunk fuel rest pos s in
      (k' : ℕ) × IsScan (pre ++ rest) k' s' × (s'.current_file_offset ≡ s.current_file_offset)
scan_chunk-IsScan zero rest pre pos k s f p h = elim f [ ]
scan_chunk-IsScan (suc fuel) rest pre pos k s f p h =
    elim (Option-cases (index_byte newline rest)) [
      | inl e ↦
          rw (scan_chunk-none fuel rest pos s e)
            (k, text-IsScan rest rest pre k s h (index_byte-none rest e), offset-index_text rest s)
      | inr (i, e) ↦
          let (one, ends, long, less) = index_byte-some rest i e in
          let line : Bytes = take (suc i) rest in
          let s1 : Scan = index_text (take i rest) s in
          let h1 : IsScan pre k s1 = keep-IsScan (take i rest) pre k s h in
          let (k', h2) =
            line-IsScan line pre (s.current_file_offset + (pos + i)) k s1 h1 one (rw long ends)
              (omega (arith, long)) in
          let s2 : Scan = end_line (s.current_file_offset + (pos + i)) s1 in
          let same : s2.current_file_offset ≡ s.current_file_offset =
            offset-end_line (s.current_file_offset + (pos + i)) s1
            ∙ offset-index_text (take i rest) s in
          let (k'', h3, off) =
            scan_chunk-IsScan fuel (drop (suc i) rest) (pre ++ line) (pos + i + 1) k' s2
              (omega arith) (omega (arith, same, length-append {0} pre line, long)) h2 in
          let joined : (pre ++ line) ++ drop (suc i) rest ≡ pre ++ rest =
            append_assoc pre line (drop (suc i) rest)
            ∙ ap (λ (x : Bytes). pre ++ x) (take-append-drop (suc i) rest) in
          rw (scan_chunk-some fuel rest pos s i e) (k'', rw joined at h3, off ∙ same)
    ]

-- One read, of bytes or of none.
pub scan_read-IsScan :
    (chunk pre : Bytes) (k : ℕ) (s : Scan)
    → s.current_file_offset ≡ length pre
    → IsScan pre k s
    → (k' : ℕ) × IsScan (pre ++ chunk) k' (scan_read chunk s)
      × ((scan_read chunk s).current_file_offset ≡ length (pre ++ chunk))
unfolding scan_read
scan_read-IsScan [] pre k s off h = rw append-nil (k, h, off)
scan_read-IsScan (c ∷ cs) pre k s off h =
    let (k', h', same) =
      scan_chunk-IsScan (length (c ∷ cs) + 1) (c ∷ cs) pre 0 k s (omega arith) (omega arith) h in
    (
      k',
      record {
        full = h'.full;
        index_lem = h'.index_lem;
        start_line_lem = h'.start_line_lem;
        start_lem = h'.start_lem;
        lines_lem = h'.lines_lem;
        chunk_lines_lem = h'.chunk_lines_lem;
        room = h'.room;
      },
      omega (arith, same, length-append {0} pre (c ∷ cs)),
    )

pub scan_file-IsScan :
    (r : Reader) (pre : Bytes) (k : ℕ) (s : Scan) {q : Scan}
    → s.current_file_offset ≡ length pre
    → IsScan pre k s
    → scan_file r s ≡ some q
    → (k' : ℕ) × IsScan (pre ++ contents r) k' q
unfolding scan_file
scan_file-IsScan (failed chunk) pre k s off h e = cc
scan_file-IsScan (eof chunk) pre k s {q} off h e =
    let (k', h', _) = scan_read-IsScan chunk pre k s off h in
    let same : scan_read chunk s ≡ q = cc in (k', subst (λ x. IsScan (pre ++ chunk) k' x) same h')
scan_file-IsScan (more chunk r) pre k s off h e =
    let (k', h', off') = scan_read-IsScan chunk pre k s off h in
    let (k'', h'') = scan_file-IsScan r (pre ++ chunk) k' (scan_read chunk s) off' h' e in
    (k'', rw append_assoc at h'')

pub begin-IsScan : IsScan [] 0 begin
unfolding newlines line_start
begin-IsScan = record {
  full = here;
  index_lem = refl;
  start_line_lem = refl;
  start_lem = refl;
  lines_lem = refl;
  chunk_lines_lem = refl;
  room = omega arith;
}
