-- ===== src/Store/Keys.antt =====
-- Buckets hold each key once, and what that means for sums over their records.

use distribute_storage_log_a.Prelude.{
  ℕ, ◌+◌, ◌≡◌, ◌≤◌, refl, sym, ap, ◌∙◌, false, none, some, [], ◌∷◌, String, arith, Bool-cases,
  Option-cases, inl, inr,
}
use distribute_storage_log_a.Prelude.Text.{str_eq, eq_refl}
use distribute_storage_log_a.Store.Bucket.{
  Bucket, same_key, get, insert, replace, put, delete, sum, Distinct, before, get-insert_other,
  get-replace_other, get-delete_other,
}

absurd_key : (k : String) → str_eq k k ≡ false → ⊥
absurd_key k e = cc (e, eq_refl k)

pub differ : (k j : String) → str_eq k j ≡ false → str_eq j k ≡ false
differ k j e = elim (Bool-cases (str_eq j k)) [
  | inl p ↦ let same : j ≡ k = same_key j k p in elim (absurd_key k (rw same at e)) [ ]
  | inr p ↦ p
]

module _ {V : Type 0} where
  pub key_of_other :
      (k j : String) (w : V) (rest : Bucket V)
      → get k ((j, w) ∷ rest) ≡ none
      → (str_eq k j ≡ false) × (get k rest ≡ none)
  unfolding get
  key_of_other k j w rest h = ground (arith, Bool-cases (str_eq k j))

  insert-Distinct :
      (k : String) (v : V) (b : Bucket V) → get k b ≡ none → Distinct b → Distinct (insert k v b)
  unfolding Distinct insert
  insert-Distinct k v [] h d = (h, tt)
  insert-Distinct k v ((j, w) ∷ rest) h d =
      let (other, behind) = key_of_other k j w rest h in
      elim (Bool-cases (before k j)) [
        | inl e ↦ rw e (h, d)
        | inr e ↦ rw e (
          get-insert_other k j v rest (differ k j other) ∙ d.0,
          insert-Distinct k v rest behind d.1,
        )
      ]

  replace-Distinct : (k : String) (v : V) (b : Bucket V) → Distinct b → Distinct (replace k v b)
  unfolding Distinct replace
  replace-Distinct k v [] d = d
  replace-Distinct k v ((j, w) ∷ rest) d = elim (Bool-cases (str_eq k j)) [
    | inl e ↦ rw e d
    | inr e ↦
        rw e (get-replace_other k j v rest (differ k j e) ∙ d.0, replace-Distinct k v rest d.1)
  ]

  pub put-Distinct : (k : String) (v : V) (b : Bucket V) → Distinct b → Distinct (put k v b)
  unfolding put
  put-Distinct k v b d = elim (Option-cases (get k b)) [
    | inl e ↦ rw e (insert-Distinct k v b e d)
    | inr (old, e) ↦ rw e (replace-Distinct k v b d)
  ]

  pub delete-Distinct : (k : String) (b : Bucket V) → Distinct b → Distinct (delete k b)
  unfolding Distinct delete
  delete-Distinct k [] d = d
  delete-Distinct k ((j, w) ∷ rest) d = elim (Bool-cases (str_eq k j)) [
    | inl e ↦ rw e d.1
    | inr e ↦ rw e (get-delete_other k j rest (differ k j e) ∙ d.0, delete-Distinct k rest d.1)
  ]

  sum-insert :
      (f : V → ℕ) (k : String) (v : V) (b : Bucket V) → sum f (insert k v b) ≡ f v + sum f b
  unfolding sum insert
  sum-insert f k v [] = refl
  sum-insert f k v ((j, w) ∷ rest) = ground (arith, sum-insert f k v rest, Bool-cases (before k j))

  sum-replace :
      (f : V → ℕ) (k : String) (v old : V) (b : Bucket V)
      → get k b ≡ some old
      → sum f (replace k v b) + f old ≡ sum f b + f v
  unfolding sum replace get
  sum-replace f k v old [] h = cc
  sum-replace f k v old ((j, w) ∷ rest) h = elim (Bool-cases (str_eq k j)) [
    | inl e ↦ let same : w ≡ old = cc (rw e at h) in rw (e, same) (omega arith)
    | inr e ↦ rw e (omega (arith, sum-replace f k v old rest (rw e at h)))
  ]

  -- A new record adds to a sum.
  pub sum-put_new :
      (f : V → ℕ) (k : String) (v : V) (b : Bucket V)
      → get k b ≡ none
      → sum f (put k v b) ≡ f v + sum f b
  unfolding put
  sum-put_new f k v b e = rw e (sum-insert f k v b)

  -- A record takes the old one's place.
  pub sum-put_old :
      (f : V → ℕ) (k : String) (v old : V) (b : Bucket V)
      → get k b ≡ some old
      → sum f (put k v b) + f old ≡ sum f b + f v
  unfolding put
  sum-put_old f k v old b e = rw e (sum-replace f k v old b e)

  pub sum-delete :
      (f : V → ℕ) (k : String) (old : V) (b : Bucket V)
      → get k b ≡ some old
      → sum f (delete k b) + f old ≡ sum f b
  unfolding sum delete get
  sum-delete f k old [] h = cc
  sum-delete f k old ((j, w) ∷ rest) h = elim (Bool-cases (str_eq k j)) [
    | inl e ↦ let same : w ≡ old = cc (rw e at h) in rw (e, same) (omega arith)
    | inr e ↦ rw e (omega (arith, sum-delete f k old rest (rw e at h)))
  ]

  -- A record can only add its own share.
  pub sum-put_most :
      (f : V → ℕ) (k : String) (v : V) (b : Bucket V) → sum f (put k v b) ≤ f v + sum f b
  sum-put_most f k v b = elim (Option-cases (get k b)) [
    | inl e ↦ omega (arith, sum-put_new f k v b e)
    | inr (old, e) ↦ omega (arith, sum-put_old f k v old b e)
  ]

  pub sum-delete_most : (f : V → ℕ) (k : String) (b : Bucket V) → sum f (delete k b) ≤ sum f b
  unfolding sum delete
  sum-delete_most f k [] = omega arith
  sum-delete_most f k ((j, w) ∷ rest) =
      ground (arith, sum-delete_most f k rest, Bool-cases (str_eq k j))

  -- Each record stands under its own key.
  unfoldable pub KeyedBy : (V → String) → Bucket V → Type 0
  KeyedBy key [] = Unit
  KeyedBy key ((k, v) ∷ rest) = (key v ≡ k) × KeyedBy key rest

  pub KeyedBy-get :
      (key : V → String) (b : Bucket V)
      → KeyedBy key b
      → (k : String) (v : V) → get k b ≡ some v
      → key v ≡ k
  unfolding KeyedBy get
  KeyedBy-get key [] h k v e = cc
  KeyedBy-get key ((j, w) ∷ rest) h k v e = elim (Bool-cases (str_eq k j)) [
    | inl p ↦ let same : w ≡ v = cc (rw p at e) in ap key (sym same) ∙ h.0 ∙ sym (same_key k j p)
    | inr p ↦ KeyedBy-get key rest h.1 k v (rw p at e)
  ]

  insert-KeyedBy :
      (key : V → String) (k : String) (v : V) (b : Bucket V)
      → key v ≡ k
      → KeyedBy key b
      → KeyedBy key (insert k v b)
  unfolding KeyedBy insert
  insert-KeyedBy key k v [] own h = (own, tt)
  insert-KeyedBy key k v ((j, w) ∷ rest) own h = elim (Bool-cases (before k j)) [
    | inl e ↦ rw e (own, h)
    | inr e ↦ rw e (h.0, insert-KeyedBy key k v rest own h.1)
  ]

  replace-KeyedBy :
      (key : V → String) (k : String) (v : V) (b : Bucket V)
      → key v ≡ k
      → KeyedBy key b
      → KeyedBy key (replace k v b)
  unfolding KeyedBy replace
  replace-KeyedBy key k v [] own h = h
  replace-KeyedBy key k v ((j, w) ∷ rest) own h = elim (Bool-cases (str_eq k j)) [
    | inl e ↦ rw e (own ∙ same_key k j e, h.1)
    | inr e ↦ rw e (h.0, replace-KeyedBy key k v rest own h.1)
  ]

  pub put-KeyedBy :
      (key : V → String) (k : String) (v : V) (b : Bucket V)
      → key v ≡ k
      → KeyedBy key b
      → KeyedBy key (put k v b)
  unfolding put
  put-KeyedBy key k v b own h = elim (Option-cases (get k b)) [
    | inl e ↦ rw e (insert-KeyedBy key k v b own h)
    | inr (old, e) ↦ rw e (replace-KeyedBy key k v b own h)
  ]

  pub delete-KeyedBy :
      (key : V → String) (k : String) (b : Bucket V) → KeyedBy key b → KeyedBy key (delete k b)
  unfolding KeyedBy delete
  delete-KeyedBy key k [] h = h
  delete-KeyedBy key k ((j, w) ∷ rest) h = elim (Bool-cases (str_eq k j)) [
    | inl e ↦ rw e h.1
    | inr e ↦ rw e (h.0, delete-KeyedBy key k rest h.1)
  ]
