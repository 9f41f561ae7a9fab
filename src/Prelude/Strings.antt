-- ===== src/Prelude/Strings.antt =====
-- Texts without blanks, digits in texts, and texts that are compared: `strings.TrimSpace` and
-- `strings.ToUpper`.

use Prim.Native.Char.{Char, code}
use Prim.Native.String.{String, [], ◌∷◌}
use Prim.Native.Nat.{ℕ, ◌-◌}
use mathlib.Core.Bool.{Bool, true, false, ◌&&◌, ◌||◌}
use distribute_storage_log_a.Prelude.Tests.{if◌then◌else◌, leb, ◌==◌}

-- unicode.IsSpace
abbrev is_space : ℕ → Bool
is_space c =
    leb 9 c && leb c 13
    || c == 32
    || c == 133
    || c == 160
    || c == 5760
    || leb 8192 c && leb c 8202
    || c == 8232
    || c == 8233
    || c == 8239
    || c == 8287
    || c == 12288

unfoldable pub trim_left : String → String
trim_left [] = []
trim_left (c ∷ s) = let rest = trim_left s in if is_space (code c) then rest else c ∷ s

abbrev drop_if_blank : Char → String → String
drop_if_blank c [] = if is_space (code c) then [] else c ∷ []
drop_if_blank c (d ∷ s) = c ∷ d ∷ s

unfoldable pub trim_right : String → String
trim_right [] = []
trim_right (c ∷ s) = drop_if_blank c (trim_right s)

unfoldable pub trim_space : String → String
trim_space s = trim_right (trim_left s)

-- unicode.ToUpper, where it gives an ASCII letter: of the small letters, and of dotless i and long s.
abbrev upper : ℕ → ℕ
upper c =
    if leb 97 c && leb c 122
    then c - 32
    else (if c == 305 then 73 else (if c == 383 then 83 else c))

-- Whether `strings.ToUpper` of the first text is the second, which is of capital ASCII letters.
unfoldable pub is_upper_of : String → String → Bool
is_upper_of [] [] = true
is_upper_of [] (d ∷ t) = false
is_upper_of (c ∷ s) [] = false
is_upper_of (c ∷ s) (d ∷ t) = upper (code c) == code d && is_upper_of s t

-- unicode.IsDigit on ASCII
unfoldable pub has_digit : String → Bool
has_digit [] = false
has_digit (c ∷ s) = leb 48 (code c) && leb (code c) 57 || has_digit s
