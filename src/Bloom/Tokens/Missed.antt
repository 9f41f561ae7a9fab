-- ===== src/Bloom/Tokens/Missed.antt =====
-- Keywords without a word: the test fails for texts that contain them.
use Prim.Native.Nat.{bit_and, bit_and-bitwise}
use distribute_storage_log_a.Prelude.{
  ℕ, zero, suc, ◌/◌, ◌%◌, ◌^◌, ◌≡◌, refl, true, false, [], ◌∷◌, ◌++◌, ltb, length, arith, any,
  replicate, get_or,
}
use distribute_storage_log_a.Bytes.{Bytes}
use distribute_storage_log_a.Bloom.{
  BloomFilter, may_contain, empty_filter, test_bit, test_bits, bit_pos, hash_word, is_skipped,
}
use distribute_storage_log_a.Bloom.Tokens.{
  is_token_char, is_keyword_char, in_range, add_token, extract_from, extract_tokens_to_bloom,
  clean_keyword, present, check_token, check_from, decide_keyword, may_contain_search_keyword,
}
use distribute_storage_log_a.Bloom.Tokens.Keyword.{words_from, words, keyword_words}

-- A text without indexed words leaves the filter as it was.
extract_wordless :
    (token text : Bytes) (b : BloomFilter)
    → any in_range (words_from is_token_char token text) ≡ false
    → extract_from token text b ≡ b
unfolding extract_from words_from add_token
extract_wordless token [] b h = ground arith
extract_wordless token (c ∷ cs) b h =
    ground (arith, extract_wordless (token ++ c ∷ []) cs b, extract_wordless [] cs b)

check_wordless :
    (token cs : Bytes) (b : BloomFilter)
    → any in_range (words_from is_keyword_char token cs) ≡ false
    → check_from token cs b (present false) ≡ present false
unfolding check_from words_from check_token
check_wordless token [] b h = ground arith
check_wordless token (c ∷ cs) b h =
    ground (arith, check_wordless (token ++ c ∷ []) cs b, check_wordless [] cs b)

get_or-zeros : (n i : ℕ) → get_or {A = ℕ} (replicate n 0) i 0 ≡ 0
get_or-zeros zero i = refl
get_or-zeros (suc n) zero = refl
get_or-zeros (suc n) (suc i) = get_or-zeros n i

zero-bit_and : (m : ℕ) → bit_and 0 m ≡ 0
zero-bit_and m = bit_and-bitwise 0 m

test_bit-empty : (p : ℕ) → test_bit p empty_filter ≡ false
unfolding test_bit
test_bit-empty p = rw (get_or-zeros 1024 (p / 8), zero-bit_and (2 ^ (p % 8)))

may_contain-empty : (word : Bytes) → is_skipped word ≡ false → may_contain word empty_filter ≡ false
unfolding may_contain test_bits
may_contain-empty word h = rw (h, test_bit-empty (bit_pos (hash_word word) 0))

in_range-long : (w : Bytes) → in_range w ≡ true → ltb (length w) 2 ≡ false
unfolding in_range
in_range-long w h = ground arith

-- A keyword of 2 to 64 bytes that holds no word in that range, such as a Chinese one, is reported
-- as absent from every text without such words, although the text may contain it.
pub wordless_keyword_missed :
    (unicode : Bytes → Bytes) (kw text : Bytes)
    → any in_range (keyword_words (clean_keyword unicode kw)) ≡ false
    → in_range (clean_keyword unicode kw) ≡ true
    → is_skipped (clean_keyword unicode kw) ≡ false
    → any in_range (words text) ≡ false
    → may_contain_search_keyword unicode kw (extract_tokens_to_bloom text empty_filter) ≡ false
unfolding may_contain_search_keyword extract_tokens_to_bloom decide_keyword
wordless_keyword_missed unicode kw text no_word fits counted wordless =
    rw
      (
        extract_wordless [] text empty_filter wordless,
        check_wordless [] (clean_keyword unicode kw) empty_filter no_word,
      )
      (ground (
        arith,
        may_contain-empty (clean_keyword unicode kw) counted,
        in_range-long (clean_keyword unicode kw),
      ))
