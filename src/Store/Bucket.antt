-- ===== src/Store/Bucket.antt =====
-- A bucket of bbolt: records by their keys, walked in the order of the keys. The code stores them as
-- JSON text, which decodes to the record that was encoded.
use Prim.Native.String.{compare}
use Prim.Native.Nat.{Ordering}
use distribute_storage_log_a.Prelude.{
  ℕ, ◌+◌, ◌≡◌, refl, Bool, true, false, Option, none, some, List, [], ◌∷◌, String, if◌then◌else◌,
  arith, Bool-cases, Option-cases, inl, inr,
}
use distribute_storage_log_a.Prelude.Text.{str_eq, eq_iff, eq_refl}

abbrev pub before : String → String → Bool
before a b = elim (compare a b) [ Ordering.lt ↦ true | _ ↦ false ]

abbrev pub Bucket : Type 0 → Type 0
Bucket V = List (String × V)

pub same_key : (k j : String) → str_eq k j ≡ true → k ≡ j
same_key k j e = (eq_iff k j).0 e

module _ {V : Type 0} where
  unfoldable pub get : String → Bucket V → Option V
  get k [] = none
  get k ((j, v) ∷ rest) = let behind = get k rest in if str_eq k j then some v else behind

  -- A new key goes before the first later one.
  unfoldable pub insert : String → V → Bucket V → Bucket V
  insert k v [] = (k, v) ∷ []
  insert k v ((j, w) ∷ rest) =
      let behind = insert k v rest in if before k j then (k, v) ∷ (j, w) ∷ rest else (j, w) ∷ behind

  unfoldable pub replace : String → V → Bucket V → Bucket V
  replace k v [] = []
  replace k v ((j, w) ∷ rest) =
      let behind = replace k v rest in if str_eq k j then (j, v) ∷ rest else (j, w) ∷ behind

  abbrev pub put_at : Option V → String → V → Bucket V → Bucket V
  put_at none k v b = insert k v b
  put_at (some old) k v b = replace k v b

  unfoldable pub put : String → V → Bucket V → Bucket V
  put k v b = put_at (get k b) k v b

  unfoldable pub delete : String → Bucket V → Bucket V
  delete k [] = []
  delete k ((j, w) ∷ rest) =
      let behind = delete k rest in if str_eq k j then rest else (j, w) ∷ behind

  -- `ForEach`: the records in the order of the keys.
  unfoldable pub values : Bucket V → List V
  values [] = []
  values ((j, w) ∷ rest) = w ∷ values rest

  unfoldable pub sum : (V → ℕ) → Bucket V → ℕ
  sum f [] = 0
  sum f ((j, w) ∷ rest) = f w + sum f rest

  -- No key stands twice.
  unfoldable pub Distinct : Bucket V → Type 0
  Distinct [] = Unit
  Distinct ((j, w) ∷ rest) = (get j rest ≡ none) × Distinct rest

  get-insert_self :
      (k : String) (v : V) (b : Bucket V) → get k b ≡ none → get k (insert k v b) ≡ some v
  unfolding get insert
  get-insert_self k v [] h = rw (eq_refl k) refl
  get-insert_self k v ((j, w) ∷ rest) h =
      ground (
        arith,
        eq_refl k,
        get-insert_self k v rest,
        Bool-cases (str_eq k j),
        Bool-cases (before k j),
      )

  pub get-insert_other :
      (k q : String) (v : V) (b : Bucket V) → str_eq q k ≡ false → get q (insert k v b) ≡ get q b
  unfolding get insert
  get-insert_other k q v [] h = rw h refl
  get-insert_other k q v ((j, w) ∷ rest) h =
      ground (arith, get-insert_other k q v rest, Bool-cases (str_eq q j), Bool-cases (before k j))

  get-replace_self :
      (k : String) (v old : V) (b : Bucket V) → get k b ≡ some old → get k (replace k v b) ≡ some v
  unfolding get replace
  get-replace_self k v old [] h = cc
  get-replace_self k v old ((j, w) ∷ rest) h =
      ground (arith, get-replace_self k v old rest, Bool-cases (str_eq k j))

  pub get-replace_other :
      (k q : String) (v : V) (b : Bucket V) → str_eq q k ≡ false → get q (replace k v b) ≡ get q b
  unfolding get replace
  get-replace_other k q v [] h = refl
  get-replace_other k q v ((j, w) ∷ rest) h = elim (Bool-cases (str_eq k j)) [
    | inl e ↦ let other : str_eq q j ≡ false = rw (same_key k j e) at h in rw e (rw other refl)
    | inr e ↦ rw e (ground (arith, get-replace_other k q v rest h, Bool-cases (str_eq q j)))
  ]

  pub get-put_self : (k : String) (v : V) (b : Bucket V) → get k (put k v b) ≡ some v
  unfolding put
  get-put_self k v b = elim (Option-cases (get k b)) [
    | inl e ↦ rw e (get-insert_self k v b e)
    | inr (old, e) ↦ rw e (get-replace_self k v old b e)
  ]

  pub get-put_other :
      (k q : String) (v : V) (b : Bucket V) → str_eq q k ≡ false → get q (put k v b) ≡ get q b
  unfolding put
  get-put_other k q v b h = elim (Option-cases (get k b)) [
    | inl e ↦ rw e (get-insert_other k q v b h)
    | inr (old, e) ↦ rw e (get-replace_other k q v b h)
  ]

  pub get-delete_other :
      (k q : String) (b : Bucket V) → str_eq q k ≡ false → get q (delete k b) ≡ get q b
  unfolding get delete
  get-delete_other k q [] h = refl
  get-delete_other k q ((j, w) ∷ rest) h = elim (Bool-cases (str_eq k j)) [
    | inl e ↦ let other : str_eq q j ≡ false = rw (same_key k j e) at h in rw e (rw other refl)
    | inr e ↦ rw e (ground (arith, get-delete_other k q rest h, Bool-cases (str_eq q j)))
  ]

  pub get-delete_self : (k : String) (b : Bucket V) → Distinct b → get k (delete k b) ≡ none
  unfolding get delete Distinct
  get-delete_self k [] h = refl
  get-delete_self k ((j, w) ∷ rest) h = elim (Bool-cases (str_eq k j)) [
    | inl e ↦ rw (e, same_key k j e) h.0
    | inr e ↦ rw (e, e) (get-delete_self k rest h.1)
  ]
