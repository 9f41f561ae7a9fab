-- ===== src/Bloom/NoFalseNegative.antt =====
-- A word that was added is found, whatever is added after it.
use Prim.Native.Nat.{bit_and, bit_or}
use distribute_storage_log_a.Prelude.Bits.{or-keeps, or-sets, pow_two_pos}
use distribute_storage_log_a.Prelude.{
  inl, inr, ◌⊎◌, ℕ, zero, suc, ◌/◌, ◌%◌, ◌^◌, ◌<◌, ◌≡◌, ◌≢◌, ◌↔◌, true, not, List, [], ◌∷◌, ◌==◌,
  length, get_or, set, arith, refl, length-set,
}
use distribute_storage_log_a.Bytes.{Bytes}
use distribute_storage_log_a.Bloom.{
  num_bits, BloomFilter, set_bit, test_bit, set_bits, test_bits, add, may_contain, bit_pos,
  hash_word,
}

get_or-set_self : (xs : List ℕ) (i v : ℕ) → i < length xs → get_or (set xs i v) i 0 ≡ v
get_or-set_self [] i v h = elim h [ ]
get_or-set_self (x ∷ xs) zero v h = refl
get_or-set_self (x ∷ xs) (suc i) v h = get_or-set_self xs i v (omega arith)

-- Setting bits at `i` leaves every byte as it was, or with those bits set.
set_or :
    (xs : List ℕ) (i j m : ℕ)
    → let after = get_or (set xs i (bit_or (get_or xs i 0) m)) j 0 in
      (after ≡ get_or xs j 0) ⊎ (after ≡ bit_or (get_or xs j 0) m)
set_or [] i j m = inl refl
set_or (x ∷ xs) zero zero m = inr refl
set_or (x ∷ xs) zero (suc j) m = inl refl
set_or (x ∷ xs) (suc i) zero m = inl refl
set_or (x ∷ xs) (suc i) (suc j) m = set_or xs i j m

pub length-set_bit : (p : ℕ) (b : BloomFilter) → length (set_bit p b) ≡ length b
unfolding set_bit
length-set_bit p b = length-set b (p / 8) _

not_zero : (n : ℕ) → (not (n == 0) ≡ true) ↔ (n ≢ 0)
not_zero n = ground arith

masked :
    (p : ℕ) (b : BloomFilter)
    → (test_bit p b ≡ true) ↔ (bit_and (get_or b (p / 8) 0) (2 ^ (p % 8)) ≢ 0)
unfolding test_bit
masked p b = not_zero (bit_and (get_or b (p / 8) 0) (2 ^ (p % 8)))

test-set_bit :
    (p : ℕ) (b : BloomFilter) → p < num_bits → length b ≡ 1024 → test_bit p (set_bit p b) ≡ true
test-set_bit p b h l = (masked p (set_bit p b)).1 (unfold set_bit in found)
  where
    found :
        bit_and
          (get_or (set b (p / 8) (bit_or (get_or b (p / 8) 0) (2 ^ (p % 8)))) (p / 8) 0)
          (2 ^ (p % 8))
        ≢ 0
    found =
        rw (get_or-set_self b (p / 8) (bit_or (get_or b (p / 8) 0) (2 ^ (p % 8))) (omega arith))
          (or-sets (get_or b (p / 8) 0) (2 ^ (p % 8)) (pow_two_pos (p % 8)))

set_bit-keeps : (p q : ℕ) (b : BloomFilter) → test_bit p b ≡ true → test_bit p (set_bit q b) ≡ true
set_bit-keeps p q b h = (masked p (set_bit q b)).1 (unfold set_bit in kept)
  where
    kept :
        bit_and
          (get_or (set b (q / 8) (bit_or (get_or b (q / 8) 0) (2 ^ (q % 8)))) (p / 8) 0)
          (2 ^ (p % 8))
        ≢ 0
    kept = elim (set_or b (q / 8) (p / 8) (2 ^ (q % 8))) [
      | inl e ↦ rw e ((masked p b).0 h)
      | inr e ↦ rw e (or-keeps (get_or b (p / 8) 0) (2 ^ (q % 8)) (2 ^ (p % 8)) ((masked p b).0 h))
    ]

set_bits-keeps :
    (p : ℕ) (h : ℕ × ℕ) (b : BloomFilter) → test_bit p b ≡ true → test_bit p (set_bits h b) ≡ true
unfolding set_bits
set_bits-keeps p h b t =
    set_bit-keeps p _ _ (set_bit-keeps p _ _ (set_bit-keeps p _ _ (set_bit-keeps p _ b t)))

length-set_bits : (h : ℕ × ℕ) (b : BloomFilter) → length (set_bits h b) ≡ length b
unfolding set_bits
length-set_bits h b = simp length-set_bit

test_bits-all :
    (h : ℕ × ℕ) (b : BloomFilter)
    → test_bit (bit_pos h 0) b ≡ true
    → test_bit (bit_pos h 1) b ≡ true
    → test_bit (bit_pos h 2) b ≡ true
    → test_bit (bit_pos h 3) b ≡ true
    → test_bits h b ≡ true
unfolding test_bits
test_bits-all h b t0 t1 t2 t3 = rw (t0, t1, t2, t3)

test_bits-parts :
    (h : ℕ × ℕ) (b : BloomFilter)
    → test_bits h b ≡ true
    → (test_bit (bit_pos h 0) b ≡ true)
      × (test_bit (bit_pos h 1) b ≡ true)
      × (test_bit (bit_pos h 2) b ≡ true)
      × (test_bit (bit_pos h 3) b ≡ true)
unfolding test_bits
test_bits-parts h b t = ground arith

bit_pos-lt : (h : ℕ × ℕ) (i : ℕ) → bit_pos h i < num_bits
unfolding bit_pos
bit_pos-lt h i = omega arith

test_bits-set_bits :
    (h : ℕ × ℕ) (b : BloomFilter) → length b ≡ 1024 → test_bits h (set_bits h b) ≡ true
unfolding set_bits
test_bits-set_bits h b l =
    test_bits-all h _ (set_bit-keeps _ _ _ (set_bit-keeps _ _ _ (set_bit-keeps _ _ _ (own 0 b l))))
      (set_bit-keeps _ _ _ (set_bit-keeps _ _ _ (own 1 _ (simp length-set_bit l))))
      (set_bit-keeps _ _ _ (own 2 _ (simp length-set_bit l))) (own 3 _ (simp length-set_bit l))
  where
    own :
        (i : ℕ) (c : BloomFilter)
        → length c ≡ 1024
        → test_bit (bit_pos h i) (set_bit (bit_pos h i) c) ≡ true
    own i c e = test-set_bit (bit_pos h i) c (bit_pos-lt h i) e

pub length-add : (word : Bytes) (b : BloomFilter) → length (add word b) ≡ length b
unfolding add
length-add word b = ground (arith, length-set_bits (hash_word word) b)

-- A word is found once it was added.
pub may_contain-add :
    (word : Bytes) (b : BloomFilter) → length b ≡ 1024 → may_contain word (add word b) ≡ true
unfolding add may_contain
may_contain-add word b l = ground (arith, test_bits-set_bits (hash_word word) b)

test_bits-keeps :
    (g h : ℕ × ℕ) (b : BloomFilter) → test_bits g b ≡ true → test_bits g (set_bits h b) ≡ true
test_bits-keeps g h b t =
    let (t0, t1, t2, t3) = test_bits-parts g b t in
    test_bits-all g (set_bits h b) (set_bits-keeps _ h b t0) (set_bits-keeps _ h b t1)
      (set_bits-keeps _ h b t2) (set_bits-keeps _ h b t3)

-- What is found stays found, whatever is added.
pub may_contain-add_other :
    (word other : Bytes) (b : BloomFilter)
    → may_contain word b ≡ true
    → may_contain word (add other b) ≡ true
unfolding add may_contain
may_contain-add_other word other b h =
    ground (arith, test_bits-keeps (hash_word word) (hash_word other) b)
