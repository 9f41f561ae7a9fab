-- ===== src/Bloom/Tokens/Keyword.antt =====
-- When the test of a keyword is right, and when it is not.
use mathlib.Core.List.{map-append}
use mathlib.Core.Path.{◌∙◌, sym}
use distribute_storage_log_a.Prelude.{
  ℕ, ◌≡◌, refl, ap, inl, inr, Bool, true, false, ◌||◌, List, [], ◌∷◌, ◌++◌, if◌then◌else◌, length,
  length-map, All, arith, Bool-cases, any,
}
use distribute_storage_log_a.Bytes.{Bytes}
use distribute_storage_log_a.Bloom.{BloomFilter, may_contain}
use distribute_storage_log_a.Bloom.NoFalseNegative.{
  may_contain-add, may_contain-add_other, length-add,
}
use distribute_storage_log_a.Bloom.Tokens.{
  is_token_char, is_keyword_char, to_lower, to_lower_ascii, in_range, add_token, extract_from,
  extract_tokens_to_bloom, clean_keyword, present, check_token, check_from, decide_keyword,
  may_contain_search_keyword,
}

-- The maximal runs of word characters in a text, behind a run begun.
unfoldable pub words_from : (ℕ → Bool) → Bytes → Bytes → List Bytes
words_from p token [] = token ∷ []
words_from p token (c ∷ cs) =
    let longer = words_from p (token ++ c ∷ []) cs in
    let next = token ∷ words_from p [] cs in if p c then longer else next

abbrev pub words : Bytes → List Bytes
words = words_from is_token_char []

abbrev pub keyword_words : Bytes → List Bytes
keyword_words = words_from is_keyword_char []

-- Filters of the right size.
abbrev pub IsFilter : BloomFilter → Type 0
IsFilter b = length b ≡ 1024

-- Every indexed word of a list is found.
abbrev pub Found : BloomFilter → List Bytes → Type 0
Found b = All (λ w. in_range w ≡ true → may_contain (to_lower_ascii w) b ≡ true)

add_token-keeps :
    (word token : Bytes) (b : BloomFilter)
    → may_contain word b ≡ true
    → may_contain word (add_token token b) ≡ true
unfolding add_token
add_token-keeps word token b h = ground (arith, may_contain-add_other word (to_lower_ascii token) b)

add_token-found :
    (token : Bytes) (b : BloomFilter)
    → IsFilter b
    → in_range token ≡ true
    → may_contain (to_lower_ascii token) (add_token token b) ≡ true
unfolding add_token
add_token-found token b l h = ground (arith, may_contain-add (to_lower_ascii token) b)

add_token-IsFilter : (token : Bytes) (b : BloomFilter) → IsFilter b → IsFilter (add_token token b)
unfolding add_token
add_token-IsFilter token b l = ground (arith, length-add (to_lower_ascii token) b)

extract_from-keeps :
    (token text word : Bytes) (b : BloomFilter)
    → may_contain word b ≡ true
    → may_contain word (extract_from token text b) ≡ true
unfolding extract_from
extract_from-keeps token [] word b h = add_token-keeps word token b h
extract_from-keeps token (c ∷ cs) word b h = ground (
  arith,
  extract_from-keeps (token ++ c ∷ []) cs word b,
  extract_from-keeps [] cs word (add_token token b),
  add_token-keeps word token b,
)

pub extract_from-IsFilter :
    (token text : Bytes) (b : BloomFilter) → IsFilter b → IsFilter (extract_from token text b)
unfolding extract_from
extract_from-IsFilter token [] b h = add_token-IsFilter token b h
extract_from-IsFilter token (c ∷ cs) b h = ground (
  arith,
  extract_from-IsFilter (token ++ c ∷ []) cs b,
  extract_from-IsFilter [] cs (add_token token b),
  add_token-IsFilter token b,
)

extract_from-Found :
    (token text : Bytes) (b : BloomFilter)
    → IsFilter b
    → Found (extract_from token text b) (words_from is_token_char token text)
unfolding extract_from words_from
extract_from-Found token [] b l = ((λ h. add_token-found token b l h), tt)
extract_from-Found token (c ∷ cs) b l = elim (Bool-cases (is_token_char c)) [
  | inl e ↦ rw e (extract_from-Found (token ++ c ∷ []) cs b l)
  | inr e ↦ rw e (
    (λ h.
        extract_from-keeps [] cs (to_lower_ascii token) (add_token token b)
          (add_token-found token b l h)),
    extract_from-Found [] cs (add_token token b) (add_token-IsFilter token b l),
  )
]

-- Every word of an indexed text of 2 to 64 bytes is found in the filter, in lower case.
pub extract-Found :
    (text : Bytes) (b : BloomFilter)
    → IsFilter b
    → Found (extract_tokens_to_bloom text b) (words text)
unfolding extract_tokens_to_bloom
extract-Found text b l = extract_from-Found [] text b l

or_false : (a : Bool) → a ≡ (a || false)
or_false true = refl
or_false false = refl

or_assoc : (a b c : Bool) → (a || b || c) ≡ (a || (b || c))
or_assoc true b c = refl
or_assoc false b c = refl

check_token_lem :
    (w : Bytes) (b : BloomFilter) (seen : Bool)
    → (in_range w ≡ true → may_contain w b ≡ true)
    → check_token w b (present seen) ≡ present (seen || in_range w)
unfolding check_token
check_token_lem w b true h = ground arith
check_token_lem w b false h = ground arith

-- What the keyword's loop makes of words that are all found.
check_from_lem :
    (token cs : Bytes) (b : BloomFilter) (seen : Bool)
    → All (λ w. in_range w ≡ true → may_contain w b ≡ true) (words_from is_keyword_char token cs)
    → check_from token cs b (present seen)
      ≡ present (seen || any in_range (words_from is_keyword_char token cs))
unfolding check_from words_from
check_from_lem token [] b seen (h, hs) =
    check_token_lem token b seen h
    ∙ ap present (ap (λ (x : Bool). seen || x) (or_false (in_range token)))
check_from_lem token (c ∷ cs) b seen h = elim (Bool-cases (is_keyword_char c)) [
  | inl e ↦ rw e (check_from_lem (token ++ c ∷ []) cs b seen (rw e at h))
  | inr e ↦
      let (first, rest) : All (λ w. in_range w ≡ true → may_contain w b ≡ true)
          (token ∷ keyword_words cs) =
        rw e at h in
      rw (e, check_token_lem token b seen first)
        (check_from_lem [] cs b (seen || in_range token) rest
          ∙ ap present (or_assoc seen (in_range token) (any in_range (keyword_words cs))))
]

keyword_found :
    (unicode : Bytes → Bytes) (kw : Bytes) (b : BloomFilter)
    → All
        (λ w. in_range w ≡ true → may_contain w b ≡ true)
        (keyword_words (clean_keyword unicode kw))
    → any in_range (keyword_words (clean_keyword unicode kw)) ≡ true
    → may_contain_search_keyword unicode kw b ≡ true
unfolding may_contain_search_keyword decide_keyword
keyword_found unicode kw b all_found some_word =
    let v : check_from [] (clean_keyword unicode kw) b (present false) ≡ present true =
      check_from_lem [] (clean_keyword unicode kw) b false all_found ∙ ap present some_word in
    ground arith

-- A text that may stand before, or behind, a keyword's occurrence as whole words.
abbrev pub OpenLeft : Bytes → Type 0
OpenLeft [] = Unit
OpenLeft (x ∷ []) = is_token_char x ≡ false
OpenLeft (x ∷ y ∷ r) = OpenLeft (y ∷ r)

abbrev pub OpenRight : Bytes → Type 0
OpenRight [] = Unit
OpenRight (x ∷ r) = is_token_char x ≡ false

Found-left :
    (b : BloomFilter) (token : Bytes) (x : ℕ) (left rest : Bytes)
    → OpenLeft (x ∷ left)
    → Found b (words_from is_token_char token (x ∷ left ++ rest))
    → Found b (words rest)
unfolding words_from
Found-left b token x [] rest clear h = (rw clear at h).1
Found-left b token x (y ∷ left) rest clear h = elim (Bool-cases (is_token_char x)) [
  | inl e ↦ Found-left b (token ++ x ∷ []) y left rest clear (rw e at h)
  | inr e ↦ Found-left b [] y left rest clear ((rw e at h).1)
]

Found-right :
    (b : BloomFilter) (token body right : Bytes)
    → OpenRight right
    → Found b (words_from is_token_char token (body ++ right))
    → Found b (words_from is_token_char token body)
unfolding words_from
Found-right b token [] [] clear h = h
Found-right b token [] (d ∷ q) clear h = ((rw clear at h).0, tt)
Found-right b token (c ∷ body) right clear h = elim (Bool-cases (is_token_char c)) [
  | inl e ↦ rw e (Found-right b (token ++ c ∷ []) body right clear (rw e at h))
  | inr e ↦ rw e ((rw e at h).0, Found-right b [] body right clear ((rw e at h).1))
]

char_lower : (c : ℕ) → is_keyword_char (to_lower c) ≡ is_token_char c
unfolding is_keyword_char is_token_char to_lower
char_lower c = ground arith

in_range-lower : (w : Bytes) → in_range (to_lower_ascii w) ≡ in_range w
unfolding in_range to_lower_ascii
in_range-lower w = rw (length-map w to_lower)

lower-snoc :
    (w : Bytes) (c : ℕ) → to_lower_ascii (w ++ c ∷ []) ≡ to_lower_ascii w ++ to_lower c ∷ []
unfolding to_lower_ascii
lower-snoc w c = map-append to_lower w (c ∷ [])

-- The words of a text that are found are found as the words of the text in lower case.
Found-lower :
    (b : BloomFilter) (token body : Bytes)
    → Found b (words_from is_token_char token body)
    → All
        (λ w. in_range w ≡ true → may_contain w b ≡ true)
        (words_from is_keyword_char (to_lower_ascii token) (to_lower_ascii body))
unfolding words_from to_lower_ascii
Found-lower b token [] h = ((λ r. h.0 (sym (in_range-lower token) ∙ r)), tt)
Found-lower b token (c ∷ body) h = elim (Bool-cases (is_token_char c)) [
  | inl e ↦
      rw (char_lower c, e)
        (rw (lower-snoc token c) at (Found-lower b (token ++ c ∷ []) body (rw e at h)))
  | inr e ↦
      let (first, rest) : Found b (token ∷ words body) = rw e at h in
      rw (char_lower c, e)
        ((λ r. first (sym (in_range-lower token) ∙ r)), Found-lower b [] body rest)
]

-- Indexing more text loses no word.
pub Found-more :
    (text : Bytes) (b : BloomFilter) (ws : List Bytes)
    → Found b ws
    → Found (extract_tokens_to_bloom text b) ws
unfolding extract_tokens_to_bloom
Found-more text b [] h = h
Found-more text b (w ∷ ws) (first, others) =
    ((λ r. extract_from-keeps [] text (to_lower_ascii w) b (first r)), Found-more text b ws others)

-- The words of a part of an indexed text that no word reaches out of are found.
pub part-Found :
    (left body right : Bytes) (b : BloomFilter)
    → IsFilter b
    → OpenLeft left
    → OpenRight right
    → Found (extract_tokens_to_bloom (left ++ (body ++ right)) b) (words body)
part-Found left body right b l open_left open_right =
    Found-right c [] body right open_right
      (whole left open_left (extract-Found (left ++ (body ++ right)) b l))
  where
    c : BloomFilter
    c = extract_tokens_to_bloom (left ++ (body ++ right)) b

    whole :
        (pre : Bytes)
        → OpenLeft pre
        → Found c (words (pre ++ (body ++ right)))
        → Found c (words (body ++ right))
    whole [] o f = f
    whole (x ∷ pre) o f = Found-left c [] x pre (body ++ right) o f

-- A filter that has the words of a text answers for a keyword that is the text in lower case.
pub Found-keyword :
    (unicode : Bytes → Bytes) (kw body : Bytes) (b : BloomFilter)
    → Found b (words body)
    → to_lower_ascii body ≡ clean_keyword unicode kw
    → any in_range (keyword_words (clean_keyword unicode kw)) ≡ true
    → may_contain_search_keyword unicode kw b ≡ true
unfolding to_lower_ascii
Found-keyword unicode kw body b found same some_word =
    keyword_found unicode kw b (rw same at (Found-lower b [] body found)) some_word
