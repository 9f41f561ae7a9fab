-- ===== src/LineIndex/Lines.antt =====
-- What a line is, independently of the scan: the specification of the index.
use distribute_storage_log_a.Prelude.{
  ℕ, zero, suc, ◌+◌, ◌≡◌, refl, Option, none, some, List, [], ◌∷◌, ◌++◌, if◌then◌else◌, ◌==◌, arith,
  length, drop, ap, sym, take, Option-cases, ◌-◌, ◌<◌, inl, inr, Bool-cases,
}
use distribute_storage_log_a.Bytes.{Bytes, newline, map_suc, index_byte}

-- How many newlines there are.
unfoldable pub newlines : Bytes → ℕ
newlines [] = 0
newlines (x ∷ xs) = if x == newline then newlines xs + 1 else newlines xs

-- The offset at which the line after the first `m` lines starts, if there are `m` newlines.
unfoldable pub line_start : ℕ → Bytes → Option ℕ
line_start zero bs = some 0
line_start (suc m) [] = none
line_start (suc m) (x ∷ xs) =
    let next = line_start m xs in
    let same = line_start (suc m) xs in map_suc (if x == newline then next else same)

-- The lines of a file without their newlines; text behind the last newline is a line, too.
abbrev flush : Bytes → List Bytes
flush [] = []
flush (c ∷ cs) = (c ∷ cs) ∷ []

unfoldable pub lines_from : Bytes → Bytes → List Bytes
lines_from cur [] = flush cur
lines_from cur (x ∷ xs) =
    let next = cur ∷ lines_from [] xs in
    let same = lines_from (cur ++ x ∷ []) xs in if x == newline then next else same

abbrev pub raw_lines : Bytes → List Bytes
raw_lines bs = lines_from [] bs

pub map_suc-eq-some :
    (y : Option ℕ) {o : ℕ} → map_suc y ≡ some o → (p : ℕ) × (y ≡ some p) × (o ≡ suc p)
map_suc-eq-some none h = cc
map_suc-eq-some (some p) h = (p, refl, ground arith)

-- Skipping to a line's start skips the lines before it.
pub lines-drop :
    (m : ℕ) (cur bs : Bytes) {o : ℕ}
    → line_start (suc m) bs ≡ some o
    → raw_lines (drop o bs) ≡ drop (suc m) (lines_from cur bs)
unfolding line_start lines_from
lines-drop m cur [] h = cc
lines-drop zero cur (x ∷ xs) {o} h = elim (Bool-cases (x == newline)) [
  | inl at_newline ↦ rw at_newline (let e : o ≡ 1 = cc (rw at_newline at h) in rw e)
  | inr other ↦ rw other (
      let (p, start, shift) = map_suc-eq-some (line_start 1 xs) (rw other at h) in
      rw shift (lines-drop zero (cur ++ x ∷ []) xs start))
]
lines-drop (suc m) cur (x ∷ xs) h = elim (Bool-cases (x == newline)) [
  | inl at_newline ↦ rw at_newline (
      let (p, start, shift) = map_suc-eq-some (line_start (suc m) xs) (rw at_newline at h) in
      rw shift (lines-drop m [] xs start))
  | inr other ↦ rw other (
      let (p, start, shift) = map_suc-eq-some (line_start (suc (suc m)) xs) (rw other at h) in
      rw shift (lines-drop (suc m) (cur ++ x ∷ []) xs start))
]

pub newlines-append : (xs ys : Bytes) → newlines (xs ++ ys) ≡ newlines xs + newlines ys
unfolding newlines
newlines-append [] ys = omega arith
newlines-append (x ∷ xs) ys = ground (arith, newlines-append xs ys)

abbrev pub shift : ℕ → Option ℕ → Option ℕ
shift off none = none
shift off (some o) = some (off + o)

pub shift-zero : (o : Option ℕ) → shift 0 o ≡ o
shift-zero none = refl
shift-zero (some o) = ap {B = Option ℕ} some (omega arith)

-- More text moves no line's start.
pub line_start-append :
    (m : ℕ) (xs ys : Bytes) {o : ℕ} → line_start m xs ≡ some o → line_start m (xs ++ ys) ≡ some o
unfolding line_start
line_start-append zero xs ys h = h
line_start-append (suc m) [] ys h = cc
line_start-append (suc m) (x ∷ xs) ys {o} h = ground (
  arith,
  Option-cases (line_start m xs),
  Option-cases (line_start (suc m) xs),
  line_start-append m xs ys {o = o - 1},
  line_start-append (suc m) xs ys {o = o - 1},
)

-- The line that ends the text behind `xs`.
pub line_start-append_behind :
    (k m : ℕ) (xs ys : Bytes)
    → suc k ≡ newlines xs + suc m
    → line_start (suc k) (xs ++ ys) ≡ shift (length xs) (line_start (suc m) ys)
unfolding line_start newlines
line_start-append_behind k m [] ys h =
    let same : k ≡ m = omega arith in rw same (sym (shift-zero (line_start (suc m) ys)))
line_start-append_behind zero m (x ∷ xs) ys h =
    ground (arith, Option-cases (line_start (suc m) ys), line_start-append_behind zero m xs ys)
line_start-append_behind (suc k) m (x ∷ xs) ys h = ground (
  arith,
  Option-cases (line_start (suc m) ys),
  line_start-append_behind k m xs ys,
  line_start-append_behind (suc k) m xs ys,
)

pub index_byte-none : (bs : Bytes) → index_byte newline bs ≡ none → newlines bs ≡ 0
unfolding index_byte newlines
index_byte-none [] h = refl
index_byte-none (x ∷ xs) h =
    ground (arith, index_byte-none xs, Option-cases (index_byte newline xs))

pub index_byte-some :
    (bs : Bytes) (i : ℕ)
    → index_byte newline bs ≡ some i
    → (newlines (take (suc i) bs) ≡ 1)
      × (line_start 1 (take (suc i) bs) ≡ some (suc i))
      × (length (take (suc i) bs) ≡ suc i)
      × (length (drop (suc i) bs) < length bs)
unfolding index_byte newlines line_start
index_byte-some [] i h = cc
index_byte-some (x ∷ xs) zero h = ground (arith, Option-cases (index_byte newline xs))
index_byte-some (x ∷ xs) (suc i) h =
    ground (arith, Option-cases (index_byte newline xs), index_byte-some xs i)
