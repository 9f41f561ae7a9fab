-- ===== src/Bloom/Tokens.antt =====
-- The words of a text and of a search keyword: `extractTokensToBloom` and `MayContainSearchKeyword`
-- of internal/worker/bloom_index.go. What Go makes of a keyword that is not all ASCII is a parameter.
pub mod Keyword
pub mod Missed
use distribute_storage_log_a.Prelude.{
  ℕ, zero, suc, ◌+◌, Bool, true, false, not, ◌&&◌, ◌||◌, List, [], ◌∷◌, ◌++◌, if◌then◌else◌, ltb,
  leb, ◌==◌, length, map,
}
use distribute_storage_log_a.Bytes.{Bytes}
use distribute_storage_log_a.Bloom.{BloomFilter, add, may_contain}

abbrev is_lower : ℕ → Bool
is_lower c = leb b'a' c && leb c b'z'

abbrev is_upper : ℕ → Bool
is_upper c = leb b'A' c && leb c b'Z'

abbrev is_digit : ℕ → Bool
is_digit c = leb b'0' c && leb c b'9'

unfoldable pub is_token_char : ℕ → Bool
is_token_char c = is_lower c || is_upper c || is_digit c || c == b'_' || c == b'-'

-- isChar of the keyword's loop, which has lower case only.
unfoldable pub is_keyword_char : ℕ → Bool
is_keyword_char c = is_lower c || is_digit c || c == b'_' || c == b'-'

unfoldable pub to_lower : ℕ → ℕ
to_lower c = if is_upper c then c + 32 else c

unfoldable pub to_lower_ascii : Bytes → Bytes
to_lower_ascii = map to_lower

-- Words of 2 to 64 bytes are indexed.
unfoldable pub in_range : Bytes → Bool
in_range token = leb 2 (length token) && leb (length token) 64

unfoldable pub add_token : Bytes → BloomFilter → BloomFilter
add_token token b = if in_range token then add (to_lower_ascii token) b else b

-- The loop over the text; `token` is data[start:i], and empty where `start` is -1.
unfoldable pub extract_from : Bytes → Bytes → BloomFilter → BloomFilter
extract_from token [] b = add_token token b
extract_from token (c ∷ cs) b =
    let longer = extract_from (token ++ c ∷ []) cs b in
    let next = extract_from [] cs (add_token token b) in if is_token_char c then longer else next

unfoldable pub extract_tokens_to_bloom : Bytes → BloomFilter → BloomFilter
extract_tokens_to_bloom text b = extract_from [] text b

abbrev is_space : ℕ → Bool
is_space c = (leb 9 c && leb c 13) || c == 32

unfoldable pub trim_left : Bytes → Bytes
trim_left [] = []
trim_left (c ∷ cs) = let rest = trim_left cs in if is_space c then rest else c ∷ cs

abbrev is_empty : Bytes → Bool
is_empty [] = true
is_empty (c ∷ cs) = false

unfoldable pub trim_right : Bytes → Bytes
trim_right [] = []
trim_right (c ∷ cs) =
    let rest = trim_right cs in if is_space c && is_empty rest then [] else c ∷ rest

abbrev is_ascii : Bytes → Bool
is_ascii [] = true
is_ascii (c ∷ cs) = ltb c 128 && is_ascii cs

-- bytes.ToLower(bytes.TrimSpace(kw)); `unicode` is this of the keywords that are not all ASCII.
unfoldable pub clean_keyword : (Bytes → Bytes) → Bytes → Bytes
clean_keyword unicode kw =
    if is_ascii kw then to_lower_ascii (trim_right (trim_left kw)) else unicode kw

-- How the loop over the keyword leaves it: a word is missing, or none is, with `hasToken`.
pub data Verdict : Type 0 where
  missing : Verdict
  present : Bool → Verdict

unfoldable pub check_token : Bytes → BloomFilter → Verdict → Verdict
check_token token b missing = missing
check_token token b (present seen) =
    if in_range token then (if may_contain token b then present true else missing) else present seen

unfoldable pub check_from : Bytes → Bytes → BloomFilter → Verdict → Verdict
check_from token [] b v = check_token token b v
check_from token (c ∷ cs) b v =
    let longer = check_from (token ++ c ∷ []) cs b v in
    let next = check_from [] cs b (check_token token b v) in
    if is_keyword_char c then longer else next

-- A keyword with no word in range is tested as a whole.
unfoldable pub decide_keyword : Bytes → BloomFilter → Verdict → Bool
decide_keyword clean b missing = false
decide_keyword clean b (present true) = true
decide_keyword clean b (present false) = if in_range clean then may_contain clean b else true

unfoldable pub may_contain_search_keyword : (Bytes → Bytes) → Bytes → BloomFilter → Bool
may_contain_search_keyword unicode kw b =
    let clean = clean_keyword unicode kw in
    if ltb (length clean) 2
    then true
    else decide_keyword clean b (check_from [] clean b (present false))
