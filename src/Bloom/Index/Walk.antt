-- ===== src/Bloom/Index/Walk.antt =====
-- What the scan of `buildChunkBloomIndex` keeps: Index.antt.
use mathlib.Core.Path.{◌∙◌, subst}
use distribute_storage_log_a.Prelude.{
  ℕ, zero, suc, ◌+◌, ◌≡◌, refl, ap, some, List, [], ◌∷◌, ◌++◌, leb, length, take, drop, arith,
  Option-cases, Bool-cases, inl, inr,
}
use distribute_storage_log_a.Bytes.{Bytes, newline, Reader, more, eof, failed, index_byte}
use distribute_storage_log_a.LineIndex.Lines.{newlines}
use distribute_storage_log_a.Bloom.Tokens.{extract_tokens_to_bloom}
use distribute_storage_log_a.Bloom.Tokens.Keyword.{IsFilter, extract_from-IsFilter}
use distribute_storage_log_a.Bloom.Index.{
  Scan, index_text, end_line, scan_chunk, scan_read, scan_file,
}
use distribute_storage_log_a.Bloom.Index.Partition.{scan_chunk-none, scan_chunk-some}

-- What the two steps of the scan keep, the whole scan keeps.
module _ (P : Scan → Type 0) (text_keeps : (text : Bytes) (s : Scan) → P s → P (index_text text s))
    (line_keeps : (at : ℕ) (s : Scan) → P s → P (end_line at s))
    (offset_keeps : (off : ℕ) (s : Scan) → P s → P (record s { current_file_offset = off })) where
  pub scan_chunk_keeps :
      (fuel : ℕ) (rest : Bytes) (pos : ℕ) (s : Scan) → P s → P (scan_chunk fuel rest pos s)
  unfolding scan_chunk
  scan_chunk_keeps zero rest pos s h = h
  scan_chunk_keeps (suc fuel) rest pos s h = elim (Option-cases (index_byte newline rest)) [
    | inl e ↦ rw (scan_chunk-none fuel rest pos s e) (text_keeps rest s h)
    | inr (i, e) ↦ rw (scan_chunk-some fuel rest pos s i e) (
        scan_chunk_keeps fuel (drop (suc i) rest) (pos + i + 1) _ (
          line_keeps (s.current_file_offset + (pos + i)) (index_text (take i rest) s)
            (text_keeps (take i rest) s h)))
  ]

  pub scan_read_keeps : (chunk : Bytes) (s : Scan) → P s → P (scan_read chunk s)
  unfolding scan_read
  scan_read_keeps [] s h = h
  scan_read_keeps (c ∷ cs) s h =
      offset_keeps _ _ (scan_chunk_keeps (length (c ∷ cs) + 1) (c ∷ cs) 0 s h)

  pub scan_file_keeps : (r : Reader) (s q : Scan) → P s → scan_file r s ≡ some q → P q
  unfolding scan_file
  scan_file_keeps (failed chunk) s q h e = cc
  scan_file_keeps (eof chunk) s q h e =
      let same : scan_read chunk s ≡ q = cc in subst P same (scan_read_keeps chunk s h)
  scan_file_keeps (more chunk r) s q h e =
      scan_file_keeps r (scan_read chunk s) q (scan_read_keeps chunk s h) e

-- The lines of the current chunk are those that were counted since it was begun.
abbrev pub Counted : Scan → Type 0
Counted s =
    (s.current_chunk.start_line + s.chunk_line_count ≡ s.line_count + 1)
    × IsFilter s.current_chunk.filter

pub text-Counted : (text : Bytes) (s : Scan) → Counted s → Counted (index_text text s)
unfolding index_text extract_tokens_to_bloom
text-Counted text s (count, size) =
    (count, extract_from-IsFilter [] text s.current_chunk.filter size)

pub line-Counted : (at : ℕ) (s : Scan) → Counted s → Counted (end_line at s)
unfolding end_line
line-Counted at s (count, size) = elim (Bool-cases (leb 15000 (s.chunk_line_count + 1))) [
  | inl e ↦ rw e (omega arith, refl)
  | inr e ↦ rw e (omega arith, size)
]

index_byte-line :
    (line rest : Bytes)
    → newlines line ≡ 0
    → index_byte newline (line ++ newline ∷ rest) ≡ some (length line)
unfolding index_byte newlines
index_byte-line [] rest h = refl
index_byte-line (x ∷ line) rest h = ground (arith, index_byte-line line rest)

take-line : (line rest : Bytes) → take (length line) (line ++ rest) ≡ line
take-line [] rest = refl
take-line (x ∷ line) rest = ap (λ l. x ∷ l) (take-line line rest)

drop-line : (line rest : Bytes) → drop (suc (length line)) (line ++ newline ∷ rest) ≡ rest
drop-line [] rest = refl
drop-line (x ∷ line) rest = drop-line line rest

pub scan_chunk-line :
    (fuel : ℕ) (line rest : Bytes) (pos : ℕ) (s : Scan)
    → newlines line ≡ 0
    → scan_chunk (suc fuel) (line ++ newline ∷ rest) pos s
      ≡ scan_chunk fuel rest
          (pos + length line + 1)
          (end_line (s.current_file_offset + (pos + length line)) (index_text line s))
scan_chunk-line fuel line rest pos s h =
    scan_chunk-some fuel (line ++ newline ∷ rest) pos s (length line) (index_byte-line line rest h)
    ∙ rw (take-line line (newline ∷ rest), drop-line line rest) refl

-- Whole lines, each with its newline.
unfoldable pub whole_lines : List Bytes → Bytes
whole_lines [] = []
whole_lines (line ∷ rest) = line ++ newline ∷ whole_lines rest
