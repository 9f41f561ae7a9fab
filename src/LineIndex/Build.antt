-- ===== src/LineIndex/Build.antt =====
-- The scan finds the line starts, however the file is cut into reads.
use mathlib.Core.Path.{◌∙◌}
use mathlib.Core.List.{append-nil, append_assoc}
use native.Mathlib.Nat.{add-zero}
use distribute_storage_log_a.LineIndex.{
  SparseLineIndex, Progress, scan_chunk, scan_read, scan_file, count_line, build_sparse_line_index,
}
use distribute_storage_log_a.Prelude.{
  ℕ, zero, suc, ◌+◌, ◌*◌, ◌%◌, ◌≡◌, ◌<◌, refl, none, some, List, [], ◌∷◌, ◌++◌, if◌then◌else◌, ◌==◌,
  arith, ◌⊎◌, length, inl, inr, Option-cases, drop, get_elem?,
}
use distribute_storage_log_a.Bytes.{Bytes, newline, Reader, more, eof, failed, contents, index_byte}
use distribute_storage_log_a.LineIndex.Lines.{
  shift, shift-zero, newlines-append, newlines, line_start,
}

-- The offsets that a scan of `bs` at offset `off` records, after `n` lines.
marks : ℕ → ℕ → Bytes → List ℕ
marks off n [] = []
marks off n (x ∷ xs) =
    let at_line = marks (off + 1) (n + 1) xs in
    let same = marks (off + 1) n xs in
    if x == newline then (if ((n + 1) % 5000) == 0 then (off + 1) ∷ at_line else at_line) else same

-- `index_byte` finds nothing: there is nothing to record.
marks-none :
    (off n : ℕ) (bs : Bytes)
    → index_byte newline bs ≡ none
    → (marks off n bs ≡ []) × (newlines bs ≡ 0)
unfolding marks index_byte newlines
marks-none off n [] h = (refl, refl)
marks-none off n (x ∷ xs) h =
    ground (arith, marks-none (off + 1) n xs, Option-cases (index_byte newline xs))

-- It finds the first newline: the rest is scanned behind it.
abbrev mark : ℕ → ℕ → List ℕ
mark off n = if ((n + 1) % 5000) == 0 then (off + 1) ∷ [] else []

marks-some :
    (off n : ℕ) (bs : Bytes) (i : ℕ)
    → index_byte newline bs ≡ some i
    → (marks off n bs ≡ mark (off + i) n ++ marks (off + i + 1) (n + 1) (drop (suc i) bs))
      × (newlines bs ≡ newlines (drop (suc i) bs) + 1)
      × (length (drop (suc i) bs) < length bs)
unfolding marks index_byte newlines
marks-some off n [] i h = cc
marks-some off n (x ∷ xs) zero h = ground (arith, Option-cases (index_byte newline xs))
marks-some off n (x ∷ xs) (suc i) h =
    ground (arith, Option-cases (index_byte newline xs), marks-some (off + 1) n xs i)

count_line-mark :
    (at : ℕ) (p : Progress)
    → (count_line at p).offsets ≡ p.offsets ++ mark (p.current_file_offset + at) p.line_count
unfolding count_line
count_line-mark at p = ground (arith, append-nil p.offsets)

count_line-rest :
    (at : ℕ) (p : Progress)
    → ((count_line at p).line_count ≡ p.line_count + 1)
      × ((count_line at p).current_file_offset ≡ p.current_file_offset)
unfolding count_line
count_line-rest at p = (refl, refl)

-- The inner loop with enough fuel scans all of the chunk.
scan_chunk_lem :
    (fuel : ℕ) (rest : Bytes) (pos : ℕ) (p : Progress)
    → length rest < fuel
    → let q = scan_chunk fuel rest pos p in
      (q.line_count ≡ p.line_count + newlines rest)
      × (q.offsets ≡ p.offsets ++ marks (p.current_file_offset + pos) p.line_count rest)
      × (q.current_file_offset ≡ p.current_file_offset)
unfolding scan_chunk
scan_chunk_lem zero rest pos p h = elim h [ ]
scan_chunk_lem (suc fuel) rest pos p h = elim (Option-cases (index_byte newline rest)) [
  | inl e ↦
      ground
        (arith, marks-none (p.current_file_offset + pos) p.line_count rest e, append-nil p.offsets)
  | inr (i, e) ↦ ground (
    arith,
    marks-some (p.current_file_offset + pos) p.line_count rest i e,
    scan_chunk_lem fuel (drop (suc i) rest) (pos + i + 1) (count_line (pos + i) p),
    count_line-mark (pos + i) p,
    count_line-rest (pos + i) p,
    append_assoc p.offsets (mark (p.current_file_offset + (pos + i)) p.line_count)
        (marks (p.current_file_offset + pos + i + 1) (p.line_count + 1) (drop (suc i) rest)),
  )
]

marks-append :
    (off n : ℕ) (xs ys : Bytes)
    → marks off n (xs ++ ys) ≡ marks off n xs ++ marks (off + length xs) (n + newlines xs) ys
unfolding marks newlines
marks-append off n [] ys = simp add-zero
marks-append off n (x ∷ xs) ys =
    ground (arith, marks-append (off + 1) (n + 1) xs ys, marks-append (off + 1) n xs ys)

scan_read_lem :
    (chunk : Bytes) (p : Progress)
    → let q = scan_read chunk p in
      (q.line_count ≡ p.line_count + newlines chunk)
      × (q.offsets ≡ p.offsets ++ marks p.current_file_offset p.line_count chunk)
      × (q.current_file_offset ≡ p.current_file_offset + length chunk)
unfolding scan_read
scan_read_lem chunk p = ground (arith, scan_chunk_lem (length chunk + 1) chunk 0 p)

scan_file_lem :
    (r : Reader) (p : Progress) {q : Progress}
    → scan_file r p ≡ some q
    → (q.line_count ≡ p.line_count + newlines (contents r))
      × (q.offsets ≡ p.offsets ++ marks p.current_file_offset p.line_count (contents r))
unfolding scan_file
scan_file_lem (failed bs) p h = cc
scan_file_lem (eof bs) p h = ground (arith, scan_read_lem bs p)
scan_file_lem (more bs r) p h = ground (
  arith,
  scan_file_lem r (scan_read bs p) h,
  scan_read_lem bs p,
  newlines-append bs (contents r),
  marks-append p.current_file_offset p.line_count bs (contents r),
  append_assoc p.offsets (marks p.current_file_offset p.line_count bs)
      (marks (p.current_file_offset + length bs) (p.line_count + newlines bs) (contents r)),
)

-- The offset recorded as number `k` is the start of the line with number 5000 * (k + 1) + 1.
marks-line_start :
    (off n k j : ℕ) (bs : Bytes)
    → suc j + n % 5000 ≡ 5000 * (k + 1)
    → get_elem? (marks off n bs) k ≡ shift off (line_start (suc j) bs)
unfolding marks line_start
marks-line_start off n k j [] h = refl
marks-line_start off n zero zero (x ∷ xs) h =
    ground (arith, marks-line_start (off + 1) n zero zero xs, Option-cases (line_start 1 xs))
marks-line_start off n zero (suc j) (x ∷ xs) h = ground (
  arith,
  marks-line_start (off + 1) n zero (suc j) xs,
  marks-line_start (off + 1) (n + 1) zero j xs,
  Option-cases (line_start (suc j) xs),
  Option-cases (line_start (suc (suc j)) xs),
)
marks-line_start off n (suc k) zero (x ∷ xs) h = absurd (omega arith)
marks-line_start off n (suc k) (suc j) (x ∷ xs) h = ground (
  arith,
  marks-line_start (off + 1) n (suc k) (suc j) xs,
  marks-line_start (off + 1) (n + 1) (suc k) j xs,
  marks-line_start (off + 1) (n + 1) k j xs,
  Option-cases (line_start (suc j) xs),
  Option-cases (line_start (suc (suc j)) xs),
)

-- No read ends in an error other than `io.EOF`.
abbrev pub Ends : Reader → Type 0
Ends (more bs r) = Ends r
Ends (eof bs) = Unit
Ends (failed bs) = ⊥

Ends-cases : (r : Reader) → Ends r ⊎ (Ends r → ⊥)
Ends-cases (more bs r) = Ends-cases r
Ends-cases (eof bs) = inl tt
Ends-cases (failed bs) = inr (λ h. h)

pub scan_file-Ends :
    (r : Reader) (p : Progress) → Ends r → (q : Progress) × (scan_file r p ≡ some q)
unfolding scan_file
scan_file-Ends (failed bs) p h = absurd h
scan_file-Ends (eof bs) p h = (scan_read bs p, refl)
scan_file-Ends (more bs r) p h = scan_file-Ends r (scan_read bs p) h

scan_file-failed : (r : Reader) (p : Progress) → (Ends r → ⊥) → scan_file r p ≡ none
unfolding scan_file
scan_file-failed (failed bs) p h = refl
scan_file-failed (eof bs) p h = absurd (h tt)
scan_file-failed (more bs r) p h = scan_file-failed r (scan_read bs p) h

-- What makes an index one of the file `bs`: the step, the count of newlines, and at each number
-- `k` the start of the line 5000 * k + 1, exactly where there is one.
pub record IsIndexOf (bs : Bytes) (idx : SparseLineIndex) : Type 0 where
  pub step_lem : idx.step ≡ 5000
  pub total_lem : idx.total_lines ≡ newlines bs
  pub offset_lem : (k : ℕ) → get_elem? idx.offsets k ≡ line_start (5000 * k) bs

abbrev begin : Progress
begin = record { current_file_offset = 0; line_count = 0; offsets = 0 ∷ [] }

offsets_lem : (bs : Bytes) (k : ℕ) → get_elem? (0 ∷ marks 0 0 bs) k ≡ line_start (5000 * k) bs
unfolding line_start
offsets_lem bs zero = refl
offsets_lem bs (suc k) =
    let target : 5000 * suc k ≡ suc (5000 * k + 4999) = omega arith in
    rw target (
      marks-line_start 0 0 k (5000 * k + 4999) bs (omega arith)
      ∙ shift-zero (line_start (suc (5000 * k + 4999)) bs))

module _ (r : Reader) (file_size mod_time : ℕ) where
  -- Where no read fails, the scan returns an index, and the index is the file's, however the
  -- system cuts the file into reads; it carries the size and the time that it was given.
  pub build-IsIndexOf :
      Ends r
      → (idx : SparseLineIndex) × (build_sparse_line_index r file_size mod_time ≡ some idx)
        × IsIndexOf (contents r) idx
        × (idx.file_size ≡ file_size)
        × (idx.mod_time_nano ≡ mod_time)
  unfolding build_sparse_line_index
  build-IsIndexOf ends =
      let (q, scanned) = scan_file-Ends r begin ends in
      let (lines, offsets) = scan_file_lem r begin scanned in
      (
        record {
          step = 5000;
          total_lines = q.line_count;
          offsets = q.offsets;
          file_size = file_size;
          mod_time_nano = mod_time;
        },
        rw scanned,
        record {
          step_lem = refl;
          total_lem = omega (arith, lines);
          offset_lem = λ k. rw offsets (offsets_lem (contents r) k);
        },
        refl,
        refl,
      )

  -- A read that fails makes the scan fail, whatever was read before.
  pub build-failed : (Ends r → ⊥) → build_sparse_line_index r file_size mod_time ≡ none
  unfolding build_sparse_line_index
  build-failed h = rw (scan_file-failed r begin h)

-- An index that the scan returns is the file's.
pub build_sound :
    (r : Reader) (file_size mod_time : ℕ) (idx : SparseLineIndex)
    → build_sparse_line_index r file_size mod_time ≡ some idx
    → IsIndexOf (contents r) idx × ((idx.file_size ≡ file_size) × (idx.mod_time_nano ≡ mod_time))
build_sound r file_size mod_time idx e = elim (Ends-cases r) [
  | inl ends ↦
      let (idx', e', index, size, time) = build-IsIndexOf r file_size mod_time ends in
      let same : idx ≡ idx' = cc (e, e') in rw same (index, (size, time))
  | inr fails ↦ cc (e, build-failed r file_size mod_time fails)
]
