-- ===== src/Prelude/Bits.antt =====
-- What the filters need of `bit_or` and `bit_and` at variables: bits that were set stay set.
use Prim.Native.Nat.{max, bit_and, bit_or, bitwise, digits, bit_and-bitwise, bit_or-bitwise}
use Prim.Native.Nat.{ℕ, zero, suc, ◌+◌, ◌*◌, ◌/◌, ◌%◌, ◌^◌, ◌≤◌, min}
use mathlib.Core.Path.{◌≡◌, refl, ◌∙◌, sym, ap}
use mathlib.Core.Logic.{◌≢◌}
use native.Mathlib.Omega.{arith}
use native.Mathlib.Nat.{pow-suc}

-- The count of digits to go does not matter once it covers the first number.
digits_enough :
    (z : ℕ → ℕ) (f : ℕ → ℕ → ℕ) (n m a b : ℕ) → a ≤ n → a ≤ m → digits z f n a b ≡ digits z f m a b
digits_enough z f zero zero a b hn hm = refl
digits_enough z f zero (suc m) zero b hn hm = refl
digits_enough z f zero (suc m) (suc a) b hn hm = absurd (omega arith)
digits_enough z f (suc n) zero zero b hn hm = refl
digits_enough z f (suc n) zero (suc a) b hn hm = absurd (omega arith)
digits_enough z f (suc n) (suc m) zero b hn hm = refl
digits_enough z f (suc n) (suc m) (suc a) b hn hm =
    omega (arith, digits_enough z f n m (suc a / 2) (b / 2) (omega arith) (omega arith))

-- One digit, at a first number that has digits left.
bitwise_step :
    (z : ℕ → ℕ) (f : ℕ → ℕ → ℕ) (a b : ℕ)
    → bitwise z f (suc a) b ≡ bitwise z f (suc a / 2) (b / 2) * 2 + f (suc a % 2) (b % 2)
bitwise_step z f a b =
    omega (arith, digits_enough z f a (suc a / 2) (suc a / 2) (b / 2) (omega arith) (omega arith))

or_step : (a b : ℕ) → bit_or (suc a) b ≡ bit_or (suc a / 2) (b / 2) * 2 + max (suc a % 2) (b % 2)
or_step a b = omega (
  arith,
  bit_or-bitwise (suc a) b,
  bit_or-bitwise (suc a / 2) (b / 2),
  bitwise_step (λ d. d) max a b,
)

or_zero : (b : ℕ) → bit_or 0 b ≡ b
or_zero b = bit_or-bitwise 0 b

and_zero : (b : ℕ) → bit_and 0 b ≡ 0
and_zero b = bit_and-bitwise 0 b

and_step : (a b : ℕ) → bit_and a b ≡ bit_and (a / 2) (b / 2) * 2 + min (a % 2) (b % 2)
and_step zero b = omega (arith, and_zero b, and_zero (b / 2))
and_step (suc a) b = omega (
  arith,
  bit_and-bitwise (suc a) b,
  bit_and-bitwise (suc a / 2) (b / 2),
  bitwise_step (λ d. zero) min a b,
)

or_digit :
    (a b : ℕ) → (bit_or a b / 2 ≡ bit_or (a / 2) (b / 2)) × (bit_or a b % 2 ≡ max (a % 2) (b % 2))
or_digit zero b = (omega (arith, or_zero b, or_zero (b / 2)), omega (arith, or_zero b))
or_digit (suc a) b = (omega (arith, or_step a b), omega (arith, or_step a b))

or_half : (a b m : ℕ) → bit_and (bit_or a b / 2) m ≡ bit_and (bit_or (a / 2) (b / 2)) m
or_half a b m = ap (λ d. bit_and d m) (or_digit a b).0

and_or_parts :
    (a b m : ℕ)
    → bit_and (bit_or a b) m
      ≡ bit_and (bit_or (a / 2) (b / 2)) (m / 2) * 2 + min (max (a % 2) (b % 2)) (m % 2)
and_or_parts a b m = omega (arith, and_step (bit_or a b) m, or_half a b (m / 2), or_digit a b)

or_keeps_upto : (n a b m : ℕ) → a ≤ n → bit_and (bit_or a b) m ≡ 0 → bit_and a m ≡ 0
or_keeps_upto n zero b m h e = and_zero m
or_keeps_upto zero (suc a) b m h e = absurd (omega arith)
or_keeps_upto (suc n) (suc a) b m h e = omega (
  arith,
  and_step (suc a) m,
  part,
  or_keeps_upto n (suc a / 2) (b / 2) (m / 2) (omega arith) (omega (arith, part)),
)
  where
    part :
        bit_and (bit_or (suc a / 2) (b / 2)) (m / 2) * 2 + min (max (suc a % 2) (b % 2)) (m % 2) ≡ 0
    part = sym (and_or_parts (suc a) b m) ∙ e

or_sets_upto : (n a b : ℕ) → b ≤ n → bit_and (bit_or a b) b ≡ 0 → b ≡ 0
or_sets_upto n a zero h e = refl
or_sets_upto zero a (suc b) h e = absurd (omega arith)
or_sets_upto (suc n) a (suc b) h e =
    omega (arith, part, or_sets_upto n (a / 2) (suc b / 2) (omega arith) (omega (arith, part)))
  where
    part :
        bit_and (bit_or (a / 2) (suc b / 2)) (suc b / 2) * 2
          + min (max (a % 2) (suc b % 2)) (suc b % 2)
        ≡ 0
    part = sym (and_or_parts a (suc b) (suc b)) ∙ e

-- What a mask finds in a number, it finds after more digits were set.
pub or-keeps : (a b m : ℕ) → bit_and a m ≢ 0 → bit_and (bit_or a b) m ≢ 0
or-keeps a b m h e = h (or_keeps_upto a a b m (omega arith) e)

-- The digits that were set are found.
pub or-sets : (a b : ℕ) → b ≢ 0 → bit_and (bit_or a b) b ≢ 0
or-sets a b h e = h (or_sets_upto b a b (omega arith) e)

pub pow_two_pos : (k : ℕ) → 2 ^ k ≢ 0
pow_two_pos zero e = omega arith
pow_two_pos (suc k) e = pow_two_pos k (omega (arith, pow-suc 2 k))
