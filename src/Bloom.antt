-- ===== src/Bloom.antt =====
-- The Bloom filters of internal/worker/bloom_index.go: hashing a word, adding it and testing for it.
-- The children model the tokens of a text, the test of a search keyword, and the index of a file.
pub mod NoFalseNegative
pub mod Tokens
pub mod Index
use Prim.Native.Nat.{bit_and, bit_or, bit_xor}
use distribute_storage_log_a.Prelude.{
  ℕ, zero, suc, ◌+◌, ◌*◌, ◌/◌, ◌%◌, ◌^◌, Bool, true, false, not, ◌&&◌, ◌||◌, List, [], ◌∷◌,
  if◌then◌else◌, ltb, leb, ◌==◌, length, get_or, set, replicate, all,
}
use distribute_storage_log_a.Bytes.{Bytes}

abbrev pub bloom_filter_bytes : ℕ
bloom_filter_bytes = 1024

-- numBits
abbrev pub num_bits : ℕ
num_bits = 8192

-- `[bloomFilterBytes]byte`
abbrev pub BloomFilter : Type 0
BloomFilter = List ℕ

-- The zero value.
abbrev pub empty_filter : BloomFilter
empty_filter = replicate bloom_filter_bytes 0

abbrev u32 : ℕ → ℕ
u32 n = n % 4294967296

-- hash/fnv, New32a: the offset basis, and for each byte an exclusive or and a product.
unfoldable pub fnv32a_from : ℕ → Bytes → ℕ
fnv32a_from h [] = h
fnv32a_from h (b ∷ bs) = fnv32a_from (u32 (bit_xor h b * 16777619)) bs

-- The two hashes of a word.
unfoldable pub hash_word : Bytes → ℕ × ℕ
hash_word word =
    let h1 = fnv32a_from 2166136261 word in
    let h2 = bit_xor (u32 (h1 * 0x85ebca6b)) (h1 / 2 ^ 13) in
    (h1, if h2 == 0 then 0x5bd1e995 else h2)

abbrev is_digit : ℕ → Bool
is_digit c = leb 48 c && leb c 57

unfoldable pub is_long_pure_digits : Bytes → Bool
is_long_pure_digits word = if leb (length word) 4 then false else all is_digit word

-- bitPos of the round `i` of the loop.
unfoldable pub bit_pos : ℕ × ℕ → ℕ → ℕ
bit_pos h i = u32 (h.0 + u32 (i * h.1)) % num_bits

-- b[bitPos/8] |= 1 << (bitPos % 8)
unfoldable pub set_bit : ℕ → BloomFilter → BloomFilter
set_bit p b = set b (p / 8) (bit_or (get_or b (p / 8) 0) (2 ^ (p % 8)))

-- b[bitPos/8] & (1 << (bitPos % 8)) != 0
unfoldable pub test_bit : ℕ → BloomFilter → Bool
test_bit p b = not (bit_and (get_or b (p / 8) 0) (2 ^ (p % 8)) == 0)

-- The four rounds of a loop over `i`.
unfoldable pub set_bits : ℕ × ℕ → BloomFilter → BloomFilter
set_bits h b =
    set_bit (bit_pos h 3) (set_bit (bit_pos h 2) (set_bit (bit_pos h 1) (set_bit (bit_pos h 0) b)))

unfoldable pub test_bits : ℕ × ℕ → BloomFilter → Bool
test_bits h b =
    test_bit (bit_pos h 0) b
    && test_bit (bit_pos h 1) b
    && test_bit (bit_pos h 2) b
    && test_bit (bit_pos h 3) b

abbrev pub is_empty : Bytes → Bool
is_empty [] = true
is_empty (c ∷ cs) = false

-- Empty words and long numbers are in no filter.
unfoldable pub is_skipped : Bytes → Bool
is_skipped word = is_empty word || is_long_pure_digits word

unfoldable pub add : Bytes → BloomFilter → BloomFilter
add word b = if is_skipped word then b else set_bits (hash_word word) b

unfoldable pub may_contain : Bytes → BloomFilter → Bool
may_contain word b = if is_skipped word then true else test_bits (hash_word word) b
