-- ===== src/LineIndex/Read.antt =====
-- `ReadFileLinesWithIndex` of internal/worker/line_index.go: reading lines from a given number on,
-- and the `bufio.Scanner` that it reads with.
pub mod Slice
use distribute_storage_log_a.Prelude.{
  ℕ, zero, suc, ◌+◌, ◌-◌, ◌*◌, ◌/◌, Bool, true, false, not, ◌&&◌, Option, none, some, List, [], ◌∷◌,
  ◌++◌, if◌then◌else◌, ltb, leb, ◌==◌, length, drop, get_or,
}
use distribute_storage_log_a.Prelude.Int.{ℤ, pos, negsuc}
use distribute_storage_log_a.Bytes.{Bytes, newline}
use distribute_storage_log_a.LineIndex.{SparseLineIndex}

-- `scanner.Buffer(_, 10*1024*1024)`: a longer line stops the scanner.
abbrev pub max_token : ℕ
max_token = 10485760

-- bufio.ScanLines drops one carriage return at the end of a line.
unfoldable pub drop_cr : Bytes → Bytes
drop_cr [] = []
drop_cr (c ∷ []) = if c == 13 then [] else c ∷ []
drop_cr (c ∷ d ∷ cs) = c ∷ drop_cr (d ∷ cs)

-- One token, if its line fits the buffer, and the tokens behind it.
abbrev pub emit : Bytes → List Bytes → List Bytes
emit cur rest = if ltb (length cur) max_token then drop_cr cur ∷ rest else []

abbrev pub emit_last : Bytes → List Bytes
emit_last [] = []
emit_last (c ∷ cs) = emit (c ∷ cs) []

-- What the calls of `scanner.Scan` yield; `cur` is the line begun.
unfoldable pub scan_tokens : Bytes → Bytes → List Bytes
unfolding drop_cr
scan_tokens cur [] = emit_last cur
scan_tokens cur (x ∷ xs) =
    let next = emit cur (scan_tokens [] xs) in
    let same = scan_tokens (cur ++ x ∷ []) xs in if x == newline then next else same

-- The loop over the tokens: the lines collected, and the tokens left.
unfoldable pub collect : List Bytes → ℕ → ℕ → ℕ → List Bytes → List Bytes × List Bytes
collect [] current_line start_line limit lines = (lines, [])
collect (t ∷ ts) current_line start_line limit lines =
    let skipped = collect ts (current_line + 1) start_line limit lines in
    let lines' = lines ++ t ∷ [] in
    let taken = collect ts (current_line + 1) start_line limit lines' in
    if ltb (current_line + 1) start_line
    then skipped
    else if leb limit (length lines')
    then (lines', ts)
    else taken

abbrev pub clamp_limit : ℤ → ℕ
clamp_limit (negsuc n) = 500
clamp_limit (pos n) = if n == 0 then 500 else if ltb 5000 n then 5000 else n

abbrev pub clamp_start : ℤ → ℕ
clamp_start (negsuc n) = 1
clamp_start (pos n) = if n == 0 then 1 else n

-- A bucket past the last offset is the last one.
abbrev pub clamp_bucket : ℕ → ℕ → ℕ
clamp_bucket count bucket = if leb count bucket then count - 1 else bucket

-- Where to seek to, and the number of lines before that: `seekOffset` and `currentLine`. `none` is
-- the panic of an integer division by zero, at an index whose step is 0.
unfoldable pub locate : SparseLineIndex → ℕ → Option (ℕ × ℕ)
locate idx start_line =
    let count = length idx.offsets in
    let bucket = clamp_bucket count ((start_line - 1) / idx.step) in
    if ltb 1 start_line && ltb 0 count
    then (if idx.step == 0 then none else some (get_or idx.offsets bucket 0, bucket * idx.step))
    else some (0, 0)

abbrev pub locate? : Option SparseLineIndex → ℕ → Option (ℕ × ℕ)
locate? none start_line = some (0, 0)
locate? (some idx) start_line = locate idx start_line

abbrev pub total? : Option SparseLineIndex → ℕ
total? none = 0
total? (some idx) = idx.total_lines

pub record Page : Type 0 where
  pub lines : List Bytes
  pub has_more : Bool
  pub total_lines : ℕ

abbrev pub is_empty : List Bytes → Bool
is_empty [] = true
is_empty (t ∷ ts) = false

-- Reading from a position of the file.
unfoldable pub read_from : Bytes → ℕ → ℕ → ℕ → ℕ → ℕ → Page
unfolding scan_tokens collect
read_from file seek_offset current_line start_line limit total =
    let (lines, rest) =
      collect (scan_tokens [] (drop seek_offset file)) current_line start_line limit [] in
    record {
      lines = lines;
      has_more = leb limit (length lines) && not (is_empty rest);
      total_lines = total;
    }

-- Seeking and reading. Where `f.Seek` fails the file is read from its start.
unfoldable pub read_at : Option (ℕ × ℕ) → Bytes → Bool → ℕ → ℕ → ℕ → Option Page
unfolding read_from
read_at none file seek_ok first count total = none
read_at (some (seek_offset, current_line)) file seek_ok first count total = some (
    if ltb 0 seek_offset && not seek_ok
    then read_from file 0 0 first count total
    else read_from file seek_offset current_line first count total)

-- `file` holds the bytes of the opened file, `seek_ok` says whether `f.Seek` succeeds, `none` for
-- the index is a file without one, and `none` for the result is the panic of `locate`.
unfoldable pub read_file_lines_with_index :
    Option SparseLineIndex → Bytes → Bool → ℤ → ℤ → Option Page
unfolding locate read_at
read_file_lines_with_index idx file seek_ok start_line limit =
    let first = clamp_start start_line in
    read_at (locate? idx first) file seek_ok first (clamp_limit limit) (total? idx)
