-- ===== src/Bytes/Words.antt =====
-- Little-endian words of encoding/binary. A signed word is modelled by its bit pattern.

use distribute_storage_log_a.Prelude.{
  ℕ, zero, suc, ◌+◌, ◌*◌, ◌/◌, ◌%◌, ◌<◌, ◌≡◌, refl, Option, none, some, List, [], ◌∷◌, ◌++◌, arith,
  length, ap,
}

-- binary.LittleEndian.PutUint32 and PutUint64: the `n` low bytes of a number, the lowest first.
unfoldable pub put_le : ℕ → ℕ → List ℕ
put_le zero x = []
put_le (suc n) x = x % 256 ∷ put_le n (x / 256)

-- binary.LittleEndian.Uint32 and Uint64, over `n` bytes: the number, and the bytes behind it;
-- `none` where fewer bytes are left, which `io.ReadFull` reports as an error.
unfoldable pub get_le : ℕ → List ℕ → Option (ℕ × List ℕ)
get_le zero bs = some (0, bs)
get_le (suc n) [] = none
get_le (suc n) (b ∷ bs) = elim (get_le n bs) [
  | none ↦ none
  | some (hi, rest) ↦ some (b + 256 * hi, rest)
]

-- 256 ^ n, the number of words of n bytes.
abbrev pub words : ℕ → ℕ
words zero = 1
words (suc n) = 256 * words n

pub length-put_le : (n x : ℕ) → length (put_le n x) ≡ n
unfolding put_le
length-put_le zero x = refl
length-put_le (suc n) x = ap suc (length-put_le n (x / 256))

pub get_le-put_le :
    (n x : ℕ) (rest : List ℕ) → x < words n → get_le n (put_le n x ++ rest) ≡ some (x, rest)
unfolding put_le get_le
get_le-put_le zero x rest h = ap (λ (k : ℕ). some (k, rest)) (omega arith)
get_le-put_le (suc n) x rest h = ground (arith, get_le-put_le n (x / 256) rest)
