-- ===== src/Bytes.antt =====
-- Bytes of files: sequences of numbers below 256, how `os.File.Read` hands them over, and the Go
-- library's `bytes.IndexByte` and little-endian words (encoding/binary).
mod Words
pub use Words.*
use distribute_storage_log_a.Prelude.{
  ℕ, zero, suc, ◌+◌, ◌≡◌, refl, Option, none, some, List, [], ◌∷◌, ◌++◌, if◌then◌else◌, ◌==◌, arith,
}

abbrev pub Bytes : Type 0
Bytes = List ℕ

-- b'\n'
abbrev pub newline : ℕ
newline = 10

-- What the calls of `f.Read(buf)` return, one after another: some bytes with a nil error, the last
-- bytes with `io.EOF`, or the last bytes with another error. How the file is cut is up to the system.
pub data Reader : Type 0 where
  more : Bytes → Reader → Reader
  eof : Bytes → Reader
  failed : Bytes → Reader

-- All bytes that the calls deliver.
abbrev pub contents : Reader → Bytes
contents (more bs r) = bs ++ contents r
contents (eof bs) = bs
contents (failed bs) = bs

abbrev pub map_suc : Option ℕ → Option ℕ
map_suc none = none
map_suc (some n) = some (suc n)

-- bytes.IndexByte
unfoldable pub index_byte : ℕ → Bytes → Option ℕ
index_byte b [] = none
index_byte b (x ∷ xs) = let rest = map_suc (index_byte b xs) in if x == b then some 0 else rest

-- The bytes behind a given beginning, `none` where the file does not begin so.
unfoldable pub strip_prefix : Bytes → Bytes → Option Bytes
strip_prefix [] bs = some bs
strip_prefix (p ∷ ps) [] = none
strip_prefix (p ∷ ps) (b ∷ bs) = let rest = strip_prefix ps bs in if p == b then rest else none

pub strip_prefix-append : (p rest : Bytes) → strip_prefix p (p ++ rest) ≡ some rest
unfolding strip_prefix
strip_prefix-append [] rest = refl
strip_prefix-append (x ∷ p) rest = ground (arith, strip_prefix-append p rest)
