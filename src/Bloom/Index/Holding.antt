-- ===== src/Bloom/Index/Holding.antt =====
-- Which chunk has a line and its words, while the scan of Index.antt goes on.
use mathlib.Core.Path.{◌∙◌, subst}
use mathlib.Core.List.{append_assoc}
use distribute_storage_log_a.Prelude.{
  ℕ, zero, suc, ◌+◌, ◌≡◌, ◌≤◌, ◌<◌, ◌⊎◌, refl, ap, List, [], ◌∷◌, ◌++◌, All, leb, length, arith,
  Bool-cases, inl, inr, length-append,
}
use distribute_storage_log_a.Bytes.{Bytes, newline}
use distribute_storage_log_a.LineIndex.Lines.{newlines}
use distribute_storage_log_a.Bloom.{BloomFilter}
use distribute_storage_log_a.Bloom.Tokens.{extract_tokens_to_bloom}
use distribute_storage_log_a.Bloom.Tokens.Keyword.{words, IsFilter, Found, Found-more}
use distribute_storage_log_a.Bloom.Index.{BloomChunkMeta, Scan, index_text, end_line, scan_chunk}
use distribute_storage_log_a.Bloom.Index.Walk.{
  scan_chunk_keeps, Counted, text-Counted, line-Counted, scan_chunk-line, whole_lines,
}

-- A chunk of the list has the line `n`, and the words of the text in its filter.
abbrev pub InChunk : Bytes → ℕ → List BloomChunkMeta → Type 0
InChunk body n chunks =
    (front : List BloomChunkMeta) × (c : BloomChunkMeta) × (back : List BloomChunkMeta) × (chunks
      ≡ front ++ c ∷ back)
    × (c.start_line ≤ n)
    × (n < c.start_line + c.line_count)
    × Found c.filter (words body)

pub InChunk-snoc :
    (body : Bytes) (n : ℕ) (chunks : List BloomChunkMeta) (d : BloomChunkMeta)
    → InChunk body n chunks
    → InChunk body n (chunks ++ d ∷ [])
InChunk-snoc body n chunks d (front, c, back, split, begun, ended, found) = (
  front,
  c,
  back ++ d ∷ [],
  ap (λ l. l ++ d ∷ []) split ∙ append_assoc front (c ∷ back) (d ∷ []),
  begun,
  ended,
  found,
)

-- The current chunk, or a closed one, has the line `n` and the words of the text.
abbrev pub Holds : Bytes → ℕ → Scan → Type 0
Holds body n s =
    ((s.current_chunk.start_line ≤ n)
      × (n ≤ s.line_count)
      × (s.current_chunk.start_line + s.chunk_line_count ≡ s.line_count + 1)
      × Found s.current_chunk.filter (words body))
    ⊎ InChunk body n s.chunks

pub text-Holds :
    (body : Bytes) (n : ℕ) (text : Bytes) (s : Scan)
    → Holds body n s
    → Holds body n (index_text text s)
unfolding index_text
text-Holds body n text s (inl (begun, counted, lines, found)) =
    inl (begun, counted, lines, Found-more text s.current_chunk.filter (words body) found)
text-Holds body n text s (inr closed) = inr closed

pub line-Holds :
    (body : Bytes) (n at : ℕ) (s : Scan) → Holds body n s → Holds body n (end_line at s)
unfolding end_line
line-Holds body n at s (inl (begun, counted, lines, found)) =
    elim (Bool-cases (leb 15000 (s.chunk_line_count + 1))) [
      | inl e ↦ rw e (inr (s.chunks, _, [], refl, begun, omega (arith, counted, lines), found))
      | inr e ↦ rw e (inl (begun, omega (arith, counted), omega (arith, lines), found))
    ]
line-Holds body n at s (inr closed) = elim (Bool-cases (leb 15000 (s.chunk_line_count + 1))) [
  | inl e ↦ rw e (inr (InChunk-snoc body n s.chunks _ closed))
  | inr e ↦ rw e (inr closed)
]

-- A line that is indexed and ended stands in the chunk that was current.
new-Holds :
    (body line : Bytes) (at : ℕ) (s : Scan)
    → Counted s
    → Found (extract_tokens_to_bloom line s.current_chunk.filter) (words body)
    → Holds body (s.line_count + 1) (end_line at (index_text line s))
unfolding end_line index_text
new-Holds body line at s (count, size) found =
    elim (Bool-cases (leb 15000 (s.chunk_line_count + 1))) [
      | inl e ↦
          rw e (inr (s.chunks, _, [], refl, omega (arith, count), omega (arith, count), found))
      | inr e ↦ rw e (inl (omega (arith, count), omega arith, omega (arith, count), found))
    ]

lines-end_line :
    (at : ℕ) (line : Bytes) (s : Scan)
    → (end_line at (index_text line s)).line_count ≡ s.line_count + 1
unfolding end_line index_text
lines-end_line at line s = ground arith

-- The line behind whole lines of a read, which ends in that read.
pub scan_chunk_finds :
    (body line : Bytes)
    → newlines line ≡ 0
    → ((b : BloomFilter) → IsFilter b → Found (extract_tokens_to_bloom line b) (words body))
    → (front : List Bytes) (rest : Bytes) (fuel pos n : ℕ) (s : Scan)
    → All (λ l. newlines l ≡ 0) front
    → length (whole_lines front ++ (line ++ newline ∷ rest)) < fuel
    → Counted s
    → s.line_count + length front + 1 ≡ n
    → Holds body n (scan_chunk fuel (whole_lines front ++ (line ++ newline ∷ rest)) pos s)
unfolding whole_lines
scan_chunk_finds body line one found [] rest zero pos n s lines enough count at = elim enough [ ]
scan_chunk_finds body line one found [] rest (suc fuel) pos n s lines enough count at =
    let here : s.line_count + 1 ≡ n = omega (arith, at) in
    rw (scan_chunk-line fuel line rest pos s one) (
      scan_chunk_keeps (Holds body n) (text-Holds body n) (line-Holds body n) (λ off s h. h) fuel
        rest (pos + length line + 1) _
        (subst
          (λ k.
            Holds body k
              (end_line (s.current_file_offset + (pos + length line)) (index_text line s)))
          here
          (new-Holds body line (s.current_file_offset + (pos + length line)) s count
            (found s.current_chunk.filter count.1))))
scan_chunk_finds body line one found (l ∷ front) rest zero pos n s lines enough count at =
    elim enough [ ]
scan_chunk_finds body line one found (l ∷ front) rest (suc fuel) pos n s (first, lines) enough count
      at =
    let behind : Bytes = whole_lines front ++ (line ++ newline ∷ rest) in
    let split : (l ++ newline ∷ whole_lines front) ++ (line ++ newline ∷ rest)
        ≡ l ++ newline ∷ behind =
      append_assoc l (newline ∷ whole_lines front) (line ++ newline ∷ rest) in
    let at_newline : ℕ = s.current_file_offset + (pos + length l) in
    let less : length behind < fuel =
      omega (arith, rw split at enough, length-append {0} l (newline ∷ behind)) in
    rw (split, scan_chunk-line fuel l behind pos s first)
      (scan_chunk_finds body line one found front rest fuel (pos + length l + 1) n
        (end_line at_newline (index_text l s)) lines less
        (line-Counted at_newline (index_text l s) (text-Counted l s count))
        (omega (arith, at, lines-end_line at_newline l s)))
