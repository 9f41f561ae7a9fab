-- ===== src/LineIndex/Read/Slice.antt =====
-- Reading through the index yields the slice of the file's lines that was asked for.
use mathlib.Core.List.{append-nil, append_assoc}
use mathlib.Core.Path.{◌∙◌, sym}
use native.Mathlib.Nat.{zero-add, suc-add}
use distribute_storage_log_a.Prelude.{
  ℕ, zero, suc, ◌+◌, ◌-◌, ◌*◌, ◌/◌, ◌≤◌, ◌<◌, ◌≡◌, refl, ap, Bool, not, ◌&&◌, Option, none, some,
  List, [], ◌∷◌, ◌++◌, inl, inr, ltb, leb, ◌==◌, length, drop, take, get_or, arith, All, Bool-cases,
  map, get_elem?, length-append, lt→ltb, length-take, length-drop,
}
use distribute_storage_log_a.Prelude.Int.{ℤ, pos, negsuc}
use distribute_storage_log_a.Bytes.{Bytes, newline}
use distribute_storage_log_a.LineIndex.{SparseLineIndex}
use distribute_storage_log_a.LineIndex.Lines.{raw_lines, lines_from, line_start, lines-drop}
use distribute_storage_log_a.LineIndex.Build.{IsIndexOf}
use distribute_storage_log_a.LineIndex.Read.{
  read_at, total?, clamp_bucket, max_token, drop_cr, scan_tokens, collect, locate, locate?,
  read_from, read_file_lines_with_index, Page, clamp_limit, clamp_start, is_empty,
}

-- No line is too long for the scanner's buffer.
abbrev pub Fits : List Bytes → Type 0
Fits = All (λ l. length l < max_token)

scan_tokens_lem :
    (cur bs : Bytes)
    → Fits (lines_from cur bs)
    → scan_tokens cur bs ≡ map drop_cr (lines_from cur bs)
unfolding scan_tokens lines_from
scan_tokens_lem [] [] h = refl
scan_tokens_lem (c ∷ cs) [] h = ground arith
scan_tokens_lem cur (x ∷ xs) h = elim (Bool-cases (x == newline)) [
  | inl e ↦
      let (fits, more) : Fits (cur ∷ raw_lines xs) = rw e at h in
      rw (e, lt→ltb _ _ fits) (ap (◌∷◌ (drop_cr cur)) (scan_tokens_lem [] xs more))
  | inr e ↦ rw e (scan_tokens_lem (cur ++ x ∷ []) xs (rw e at h))
]

-- What the loop collects once it has reached `start`: the next `suc r` tokens, and the rest.
collect_taken :
    (ts : List Bytes) (c start limit r : ℕ) (acc : List Bytes)
    → start ≤ c + 1
    → length acc + suc r ≡ limit
    → collect ts c start limit acc ≡ (acc ++ take (suc r) ts, drop (suc r) ts)
unfolding collect
collect_taken [] c start limit r acc s h = ground (arith, append-nil acc)
collect_taken (t ∷ ts) c start limit zero acc s h = ground (arith, length-append {0} acc (t ∷ []))
collect_taken (t ∷ ts) c start limit (suc r) acc s h = ground (
  arith,
  length-append {0} acc (t ∷ []),
  collect_taken ts (c + 1) start limit r (acc ++ t ∷ []),
  append_assoc acc (t ∷ []) (take (suc r) ts),
)

collect_lem :
    (ts : List Bytes) (c start limit r j : ℕ) (acc : List Bytes)
    → c + suc j ≡ start
    → length acc + suc r ≡ limit
    → collect ts c start limit acc ≡ (acc ++ take (suc r) (drop j ts), drop (suc r) (drop j ts))
unfolding collect
collect_lem ts c start limit r zero acc s h = collect_taken ts c start limit r acc (omega arith) h
collect_lem [] c start limit r (suc j) acc s h = ground (arith, append-nil acc)
collect_lem (t ∷ ts) c start limit r (suc j) acc s h =
    ground (arith, collect_lem ts (c + 1) start limit r j acc)

drop-map {ℓ κ} :
    {A : Type ℓ} {B : Type κ} (f : A → B) (n : ℕ) (xs : List A)
    → drop n (map f xs) ≡ map f (drop n xs)
drop-map f zero xs = refl
drop-map f (suc n) [] = refl
drop-map f (suc n) (x ∷ xs) = drop-map f n xs

drop-nil {ℓ} : {A : Type ℓ} (n : ℕ) → drop {A = A} n [] ≡ []
drop-nil zero = refl
drop-nil (suc n) = refl

drop-drop {ℓ} : {A : Type ℓ} (m n : ℕ) (xs : List A) → drop n (drop m xs) ≡ drop (m + n) xs
drop-drop zero n xs = rw (zero-add n)
drop-drop (suc m) n [] = rw (suc-add m n) (drop-nil n)
drop-drop (suc m) n (x ∷ xs) = rw (suc-add m n) (drop-drop m n xs)

Fits-drop : (n : ℕ) (ls : List Bytes) → Fits ls → Fits (drop n ls)
Fits-drop zero ls h = h
Fits-drop (suc n) [] h = h
Fits-drop (suc n) (l ∷ ls) h = Fits-drop n ls h.1

raw_lines-drop :
    (c : ℕ) (file : Bytes) {o : ℕ}
    → line_start c file ≡ some o
    → raw_lines (drop o file) ≡ drop c (raw_lines file)
unfolding line_start
raw_lines-drop zero file {o} h = let e : o ≡ 0 = cc h in rw e
raw_lines-drop (suc m) file h = lines-drop m [] file h

line_start_zero : (file : Bytes) → line_start 0 file ≡ some 0
unfolding line_start
line_start_zero file = refl

-- The tokens behind the start of the line after the first `c` are all but the first `c`.
tokens-drop :
    (c : ℕ) (file : Bytes) {o : ℕ}
    → line_start c file ≡ some o
    → Fits (raw_lines file)
    → scan_tokens [] (drop o file) ≡ drop c (map drop_cr (raw_lines file))
tokens-drop c file {o} at fits =
    let lines : raw_lines (drop o file) ≡ drop c (raw_lines file) = raw_lines-drop c file at in
    scan_tokens_lem [] (drop o file) (rw lines (Fits-drop c (raw_lines file) fits))
    ∙ (ap (map drop_cr) lines ∙ sym (drop-map drop_cr c (raw_lines file)))

is_empty-drop : (n : ℕ) (xs : List Bytes) → is_empty (drop n xs) ≡ leb (length xs) n
is_empty-drop zero [] = refl
is_empty-drop zero (x ∷ xs) = ground arith
is_empty-drop (suc n) [] = ground arith
is_empty-drop (suc n) (x ∷ xs) = ground (arith, is_empty-drop n xs)

-- The page that was asked for: `count` lines from number `first` on, and whether there are more.
abbrev pub slice : List Bytes → ℕ → ℕ → ℕ → Page
slice all first count total = record {
  lines = take count (drop (first - 1) all);
  has_more = ltb (first - 1 + count) (length all);
  total_lines = total;
}

has_more_lem :
    (all : List Bytes) (n r : ℕ)
    → (leb (suc r) (length (take (suc r) (drop n all)))
        && not (is_empty (drop (suc r) (drop n all))))
      ≡ ltb (n + suc r) (length all)
has_more_lem all n r =
    ground (
      arith,
      length-take (suc r) (drop n all),
      length-drop n all,
      is_empty-drop (suc r) (drop n all),
    )

read_from_lem :
    (file : Bytes) (o c first count total : ℕ)
    → line_start c file ≡ some o
    → Fits (raw_lines file)
    → c < first
    → 0 < count
    → read_from file o c first count total ≡ slice (map drop_cr (raw_lines file)) first count total
unfolding read_from
read_from_lem file o c first zero total at fits lt room = elim room [ ]
read_from_lem file o c first (suc r) total at fits lt room =
    let all : List Bytes = map drop_cr (raw_lines file) in
    let j : ℕ = first - (c + 1) in
    let skip : drop j (drop c all) ≡ drop (first - 1) all =
      drop-drop c j all ∙ ap (λ (n : ℕ). drop n all) (omega arith) in
    rw
      (
        tokens-drop c file at fits,
        collect_lem (drop c all) c first (suc r) r j [] (omega arith) (omega arith),
        skip,
      )
      (ap {B = Page}
        (λ b. record {
          lines = take (suc r) (drop (first - 1) all);
          has_more = b;
          total_lines = total;
        })
        (has_more_lem all (first - 1) r))

-- An index, where there is one, is the file's.
abbrev pub Sound : Option SparseLineIndex → Bytes → Type 0
Sound none file = Unit
Sound (some idx) file = IsIndexOf file idx

get_elem?-lt {ℓ} :
    {A : Type ℓ} (xs : List A) (d : A) (i : ℕ)
    → i < length xs
    → get_elem? xs i ≡ some (get_or xs i d)
get_elem?-lt [] d i h = elim h [ ]
get_elem?-lt (x ∷ xs) d zero h = refl
get_elem?-lt (x ∷ xs) d (suc i) h = get_elem?-lt xs d i (omega arith)

-- Where the index sends the reader: to the start of a line that is not behind the first wanted one.
locate_lem :
    (idx : SparseLineIndex) (file : Bytes) (first : ℕ)
    → IsIndexOf file idx
    → 0 < first
    → (o c : ℕ) × (locate idx first ≡ some (o, c)) × (line_start c file ≡ some o) × (c < first)
unfolding locate
locate_lem idx file first i h = elim (Bool-cases (ltb 1 first && ltb 0 (length idx.offsets))) [
  | inl e ↦
      let b : ℕ = clamp_bucket (length idx.offsets) ((first - 1) / 5000) in
      let inside : b < length idx.offsets = ground arith in
      let before : b * 5000 < first = ground arith in
      let start : line_start (5000 * b) file ≡ some (get_or idx.offsets b 0) =
        sym (i.offset_lem b) ∙ get_elem?-lt idx.offsets 0 b inside in
      (
        get_or idx.offsets b 0,
        b * 5000,
        ground (arith, i.step_lem),
        (let swap : b * 5000 ≡ 5000 * b = omega arith in rw swap start),
        before,
      )
  | inr e ↦ (0, 0, rw (locate, e), line_start_zero file, h)
]

locate?_lem :
    (idx : Option SparseLineIndex) (file : Bytes) (first : ℕ)
    → Sound idx file
    → 0 < first
    → (o c : ℕ) × (locate? idx first ≡ some (o, c)) × (line_start c file ≡ some o) × (c < first)
locate?_lem none file first s h = (0, 0, refl, line_start_zero file, h)
locate?_lem (some idx) file first s h = locate_lem idx file first s h

read_at_lem :
    (file : Bytes) (o c first count total : ℕ) (seek_ok : Bool)
    → line_start c file ≡ some o
    → Fits (raw_lines file)
    → c < first
    → 0 < count
    → read_at (some (o, c)) file seek_ok first count total
      ≡ some (slice (map drop_cr (raw_lines file)) first count total)
unfolding read_at
read_at_lem file o c first count total seek_ok at fits lt room =
    elim (Bool-cases (ltb 0 o && not seek_ok)) [
      | inl e ↦ rw e (
          ap {B = Option Page} some (
            read_from_lem file 0 0 first count total (line_start_zero file) fits (omega arith)
              room))
      | inr e ↦
          rw e
            (ap {B = Option Page} some (read_from_lem file o c first count total at fits lt room))
    ]

clamp_start_pos : (s : ℤ) → 0 < clamp_start s
clamp_start_pos (pos n) = ground arith
clamp_start_pos (negsuc n) = omega arith

clamp_limit_pos : (l : ℤ) → 0 < clamp_limit l
clamp_limit_pos (pos n) = ground arith
clamp_limit_pos (negsuc n) = omega arith

-- Whatever index of the file there is, or none, and whether or not the seek succeeds, the page is
-- the slice of the file's lines from `start_line` on, `limit` of them at most, with the normalised
-- arguments, and `has_more` says whether the file has lines behind it; no line of the file may be
-- too long for the scanner.
pub read_file_lines-eq-slice :
    (idx : Option SparseLineIndex) (file : Bytes) (seek_ok : Bool) (start_line limit : ℤ)
    → Sound idx file
    → Fits (raw_lines file)
    → read_file_lines_with_index idx file seek_ok start_line limit
      ≡ some (
          slice
            (map drop_cr (raw_lines file))
            (clamp_start start_line)
            (clamp_limit limit)
            (total? idx))
read_file_lines-eq-slice idx file seek_ok start_line limit sound fits =
    let (o, c, found, at, lt) =
      locate?_lem idx file (clamp_start start_line) sound (clamp_start_pos start_line) in
    unfold read_file_lines_with_index in
    ap (λ l. read_at l file seek_ok (clamp_start start_line) (clamp_limit limit) (total? idx)) found
    ∙ read_at_lem file o c (clamp_start start_line) (clamp_limit limit) (total? idx) seek_ok at fits
        lt (clamp_limit_pos limit)
