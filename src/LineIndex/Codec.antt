-- ===== src/LineIndex/Codec.antt =====
-- The file format of the index: `saveLineIndexToDisk` and `loadLineIndexFromDisk` of
-- internal/worker/line_index.go, over the bytes of the `.lidx` file.

use distribute_storage_log_a.Prelude.{
  ℕ, zero, suc, ◌*◌, ◌/◌, ◌%◌, ◌<◌, ◌≡◌, refl, true, ◌&&◌, Option, some, List, [], ◌∷◌, ◌++◌, ◌==◌,
  length, arith, All, length-append, ◌>>=◌, ◌>>◌, guard,
}
use distribute_storage_log_a.Bytes.{
  Bytes, put_le, get_le, words, get_le-put_le, length-put_le, strip_prefix, strip_prefix-append,
}
use distribute_storage_log_a.LineIndex.{SparseLineIndex}

-- "LIDX0001"
abbrev pub index_magic : Bytes
index_magic = 76 ∷ 73 ∷ 68 ∷ 88 ∷ 48 ∷ 48 ∷ 48 ∷ 49 ∷ []

-- binary.Write of a slice of 64-bit words.
unfoldable pub put_words : List ℕ → Bytes
put_words [] = []
put_words (w ∷ ws) = put_le 8 w ++ put_words ws

-- binary.Read into a slice of `count` 64-bit words.
unfoldable pub get_words : ℕ → Bytes → Option (List ℕ)
get_words zero bs = some []
get_words (suc count) bs = do (w, rest) ← get_le 8 bs; ws ← get_words count rest; some (w ∷ ws)

unfoldable pub save_line_index : SparseLineIndex → Bytes
unfolding put_words
save_line_index idx =
    index_magic
    ++ (put_le 4 idx.step
        ++ (put_le 8 idx.total_lines
            ++ (put_le 8 idx.file_size ++ (put_le 8 idx.mod_time_nano ++ put_words idx.offsets))))

-- `none` is a returned error: a short file, another magic, another size or time, or a payload that
-- is no sequence of words.
unfoldable pub load_line_index : Bytes → ℕ → ℕ → Option SparseLineIndex
unfolding get_words
load_line_index file expected_size expected_mod_time = do
  rest ← strip_prefix index_magic file
  (step, rest) ← get_le 4 rest
  (total_lines, rest) ← get_le 8 rest
  (file_size, rest) ← get_le 8 rest
  (mod_time, payload) ← get_le 8 rest
  guard (file_size == expected_size && mod_time == expected_mod_time)
  guard ((length payload % 8) == 0)
  offsets ← get_words (length payload / 8) payload
  some (record {
    step = step;
    total_lines = total_lines;
    offsets = offsets;
    file_size = file_size;
    mod_time_nano = mod_time;
  })

-- Every field fits its word of the file.
pub record InRange (idx : SparseLineIndex) : Type 0 where
  pub step_range : idx.step < words 4
  pub total_range : idx.total_lines < words 8
  pub size_range : idx.file_size < words 8
  pub time_range : idx.mod_time_nano < words 8
  pub offsets_range : All (λ o. o < words 8) idx.offsets

length-put_words : (ws : List ℕ) → length (put_words ws) ≡ 8 * length ws
unfolding put_words
length-put_words [] = refl
length-put_words (w ∷ ws) =
    omega
      (arith, length-append {0} (put_le 8 w) (put_words ws), length-put_le 8 w, length-put_words ws)

get_words-put_words :
    (ws : List ℕ) → All (λ o. o < words 8) ws → get_words (length ws) (put_words ws) ≡ some ws
unfolding get_words put_words
get_words-put_words [] h = refl
get_words-put_words (w ∷ ws) h =
    rw (get_le-put_le 8 w (put_words ws) h.0, get_words-put_words ws h.1)

-- An index that was saved is loaded again, as it was, for a file of the size and time it carries.
pub load-save :
    (idx : SparseLineIndex)
    → InRange idx
    → load_line_index (save_line_index idx) idx.file_size idx.mod_time_nano ≡ some idx
unfolding load_line_index save_line_index
load-save idx r =
    let time : Bytes = put_le 8 idx.mod_time_nano ++ put_words idx.offsets in
    let size : Bytes = put_le 8 idx.file_size ++ time in
    let total : Bytes = put_le 8 idx.total_lines ++ size in
    let even : (length (put_words idx.offsets) % 8 == 0) ≡ true =
      ground (arith, length-put_words idx.offsets) in
    let count : length (put_words idx.offsets) / 8 ≡ length idx.offsets =
      omega (arith, length-put_words idx.offsets) in
    let same : (idx.file_size == idx.file_size && idx.mod_time_nano == idx.mod_time_nano) ≡ true =
      ground arith in
    rw (strip_prefix-append index_magic (put_le 4 idx.step ++ total), load_line_index)
      (rw (get_le-put_le 4 idx.step total r.step_range) (
        rw (get_le-put_le 8 idx.total_lines size r.total_range) (
          rw (get_le-put_le 8 idx.file_size time r.size_range) (
            rw (get_le-put_le 8 idx.mod_time_nano (put_words idx.offsets) r.time_range)
              (rw (same, even, count, get_words-put_words idx.offsets r.offsets_range))))))

-- A loaded index carries the size and the time that were expected: a stale file is refused.
pub load-fresh :
    (file : Bytes) (size mod_time : ℕ) {idx : SparseLineIndex}
    → load_line_index file size mod_time ≡ some idx
    → (idx.file_size ≡ size) × (idx.mod_time_nano ≡ mod_time)
unfolding load_line_index
load-fresh file size mod_time h = ground arith
