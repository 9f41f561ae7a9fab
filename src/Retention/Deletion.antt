-- ===== src/Retention/Deletion.antt =====
-- What the deletions of Retention.antt do to an archive's record.
use distribute_storage_log_a.Prelude.{
  ℕ, ◌≡◌, ◌⊎◌, refl, sym, ap, ◌∙◌, Bool, true, false, not, ◌&&◌, none, List, [], ◌∷◌, any, String,
  arith, Bool-cases, Option-cases, inl, inr,
}
use distribute_storage_log_a.Prelude.Text.{str_eq}
use distribute_storage_log_a.Model.{LogArchive, RetentionConfig}
use distribute_storage_log_a.Store.Bucket.{
  same_key, get, delete, Distinct, get-delete_self, get-delete_other,
}
use distribute_storage_log_a.Store.Keys.{KeyedBy, delete-Distinct, delete-KeyedBy}
use distribute_storage_log_a.Store.Db.{Db}
use distribute_storage_log_a.Store.Archives.{delete_archive}
use distribute_storage_log_a.Store.Reports.{removed}
use distribute_storage_log_a.Retention.{
  Runtime, is_archive_exempt_from_auto_clean, delete_archive_storage_and_meta, is_expired,
  clean_if_expired, clean_expired, clean_until, used_after,
}

module _ {ℓ} {A : Type ℓ} where
  pub any_head : (p : A → Bool) (x : A) (l : List A) → any p (x ∷ l) ≡ false → p x ≡ false
  any_head p x l h = ground (arith, Bool-cases (p x))

  pub any_rest : (p : A → Bool) (x : A) (l : List A) → any p (x ∷ l) ≡ false → any p l ≡ false
  any_rest p x l h = ground (arith, Bool-cases (p x))

  pub any_behind :
      (p : A → Bool) (x : A) (l : List A) → any p (x ∷ l) ≡ true → p x ≡ false → any p l ≡ true
  any_behind p x l h e = ground (arith, Bool-cases (p x))

and_left : (a b : Bool) → (a && b) ≡ true → a ≡ true
and_left true b h = refl
and_left false b h = h

-- The archives stand under their ids, each id once.
unfoldable pub ArchivesKept : Db → Type 0
ArchivesKept db = Distinct db.archives × KeyedBy (λ a. a.id) db.archives

-- A deletion takes the record of the archive's id, where there is one, and no other.
pub deletion_archives :
    (now : ℕ) (x : LogArchive) (db : Db)
    → let after = (delete_archive_storage_and_meta now x db).1.archives in
      (after ≡ delete x.id db.archives) ⊎ ((get x.id db.archives ≡ none) × (after ≡ db.archives))
unfolding delete_archive_storage_and_meta delete_archive
deletion_archives now x db = elim (Option-cases (get x.id db.archives)) [
  | inl e ↦ inr (e, (rw e refl))
  | inr (a, e) ↦ inl (rw e (removed now a x.id db).0)
]

pub deletion_Kept :
    (now : ℕ) (x : LogArchive) (db : Db)
    → ArchivesKept db
    → ArchivesKept (delete_archive_storage_and_meta now x db).1
unfolding ArchivesKept
deletion_Kept now x db (d, h) = elim (deletion_archives now x db) [
  | inl e ↦ rw e (delete-Distinct x.id db.archives d, delete-KeyedBy (λ a. a.id) x.id db.archives h)
  | inr (_, e) ↦ rw e (d, h)
]

pub deletion_other :
    (now : ℕ) (x : LogArchive) (id : String) (db : Db)
    → str_eq id x.id ≡ false
    → get id (delete_archive_storage_and_meta now x db).1.archives ≡ get id db.archives
deletion_other now x id db h = elim (deletion_archives now x db) [
  | inl e ↦ ap (get id) e ∙ get-delete_other x.id id db.archives h
  | inr (_, e) ↦ ap (get id) e
]

pub deletion_self :
    (now : ℕ) (x : LogArchive) (id : String) (db : Db)
    → ArchivesKept db
    → str_eq id x.id ≡ true
    → get id (delete_archive_storage_and_meta now x db).1.archives ≡ none
unfolding ArchivesKept
deletion_self now x id db (d, _) h =
    let same : id ≡ x.id = same_key id x.id h in
    rw same (elim (deletion_archives now x db) [
      | inl e ↦ ap (get x.id) e ∙ get-delete_self x.id db.archives d
      | inr (gone, e) ↦ ap (get x.id) e ∙ gone
    ])

pub deletion_gone :
    (now : ℕ) (x : LogArchive) (id : String) (db : Db)
    → ArchivesKept db
    → get id db.archives ≡ none
    → get id (delete_archive_storage_and_meta now x db).1.archives ≡ none
deletion_gone now x id db kept h = elim (Bool-cases (str_eq id x.id)) [
  | inl e ↦ deletion_self now x id db kept e
  | inr e ↦ deletion_other now x id db e ∙ h
]

module _ (go : Runtime) where
  -- An archive that may be deleted and has the id.
  abbrev pub is_victim : RetentionConfig → String → LogArchive → Bool
  is_victim cfg id x = str_eq id x.id && not (is_archive_exempt_from_auto_clean go x cfg)

  abbrev pub is_due : ℕ → RetentionConfig → String → LogArchive → Bool
  is_due now cfg id x =
      str_eq id x.id
      && (not (is_archive_exempt_from_auto_clean go x cfg) && is_expired go now cfg x)

  spared_id :
      (cfg : RetentionConfig) (id : String) (x : LogArchive)
      → is_victim cfg id x ≡ false
      → not (is_archive_exempt_from_auto_clean go x cfg) ≡ true
      → str_eq id x.id ≡ false
  spared_id cfg id x h e = elim (Bool-cases (str_eq id x.id)) [
    | inl p ↦ let absurd : true ≡ false = sym e ∙ (rw p at h) in cc absurd
    | inr p ↦ p
  ]

  pub clean_until_Kept :
      (now target total used : ℕ) (l : List LogArchive) (db : Db)
      → ArchivesKept db
      → ArchivesKept (clean_until go now target total used l db).1
  unfolding clean_until
  clean_until_Kept now target total used [] db kept = kept
  clean_until_Kept now target total used (x ∷ rest) db kept =
      elim (Bool-cases (go.at_most used total target)) [
        | inl e ↦ rw e kept
        | inr e ↦ rw e (
            clean_until_Kept now target total
              (used_after (delete_archive_storage_and_meta now x db).0 x used) rest
              (delete_archive_storage_and_meta now x db).1 (deletion_Kept now x db kept))
      ]

  pub clean_until_gone :
      (now target total used : ℕ) (l : List LogArchive) (id : String) (db : Db)
      → ArchivesKept db
      → get id db.archives ≡ none
      → get id (clean_until go now target total used l db).1.archives ≡ none
  unfolding clean_until
  clean_until_gone now target total used [] id db kept h = h
  clean_until_gone now target total used (x ∷ rest) id db kept h =
      elim (Bool-cases (go.at_most used total target)) [
        | inl e ↦ rw e h
        | inr e ↦ rw e (
            clean_until_gone now target total
              (used_after (delete_archive_storage_and_meta now x db).0 x used) rest id
              (delete_archive_storage_and_meta now x db).1 (deletion_Kept now x db kept)
              (deletion_gone now x id db kept h))
      ]

  -- An id that no candidate has keeps its record.
  pub clean_until_other :
      (now target total used : ℕ) (l : List LogArchive) (id : String) (db : Db)
      → any (λ x. str_eq id x.id) l ≡ false
      → get id (clean_until go now target total used l db).1.archives ≡ get id db.archives
  unfolding clean_until
  clean_until_other now target total used [] id db h = refl
  clean_until_other now target total used (x ∷ rest) id db h = elim (Bool-cases (str_eq id x.id)) [
    | inl p ↦ cc (rw p at h)
    | inr p ↦ elim (Bool-cases (go.at_most used total target)) [
      | inl e ↦ rw e refl
      | inr e ↦ rw e (
          clean_until_other now target total
            (used_after (delete_archive_storage_and_meta now x db).0 x used) rest id
            (delete_archive_storage_and_meta now x db).1 (rw p at h)
          ∙ deletion_other now x id db p)
    ]
  ]

  step_Kept :
      (now : ℕ) (cfg : RetentionConfig) (x : LogArchive) (db : Db)
      → ArchivesKept db
      → ArchivesKept (clean_if_expired go now cfg x db)
  unfolding clean_if_expired
  step_Kept now cfg x db kept =
      elim (Bool-cases
        (not (is_archive_exempt_from_auto_clean go x cfg) && is_expired go now cfg x)) [
          | inl e ↦ rw e (deletion_Kept now x db kept)
          | inr e ↦ rw e kept
        ]

  step_other :
      (now : ℕ) (cfg : RetentionConfig) (x : LogArchive) (id : String) (db : Db)
      → is_victim cfg id x ≡ false
      → get id (clean_if_expired go now cfg x db).archives ≡ get id db.archives
  unfolding clean_if_expired
  step_other now cfg x id db h =
      elim (Bool-cases
        (not (is_archive_exempt_from_auto_clean go x cfg) && is_expired go now cfg x)) [
          | inl e ↦ rw e (deletion_other now x id db (spared_id cfg id x h (and_left _ _ e)))
          | inr e ↦ rw e refl
        ]

  step_none :
      (now : ℕ) (cfg : RetentionConfig) (x : LogArchive) (id : String) (db : Db)
      → ArchivesKept db
      → get id db.archives ≡ none
      → get id (clean_if_expired go now cfg x db).archives ≡ none
  unfolding clean_if_expired
  step_none now cfg x id db kept h =
      elim (Bool-cases
        (not (is_archive_exempt_from_auto_clean go x cfg) && is_expired go now cfg x)) [
          | inl e ↦ rw e (deletion_gone now x id db kept h)
          | inr e ↦ rw e h
        ]

  step_due :
      (now : ℕ) (cfg : RetentionConfig) (x : LogArchive) (id : String) (db : Db)
      → ArchivesKept db
      → is_due now cfg id x ≡ true
      → get id (clean_if_expired go now cfg x db).archives ≡ none
  unfolding clean_if_expired
  step_due now cfg x id db kept h =
      let mine : str_eq id x.id ≡ true = and_left _ _ h in
      let due : (not (is_archive_exempt_from_auto_clean go x cfg) && is_expired go now cfg x)
          ≡ true =
        rw mine at h in
      rw due (deletion_self now x id db kept mine)

  pub clean_expired_Kept :
      (now : ℕ) (cfg : RetentionConfig) (l : List LogArchive) (db : Db)
      → ArchivesKept db
      → ArchivesKept (clean_expired go now cfg l db)
  unfolding clean_expired
  clean_expired_Kept now cfg [] db kept = kept
  clean_expired_Kept now cfg (x ∷ rest) db kept =
      clean_expired_Kept now cfg rest (clean_if_expired go now cfg x db)
        (step_Kept now cfg x db kept)

  pub clean_expired_other :
      (now : ℕ) (cfg : RetentionConfig) (l : List LogArchive) (id : String) (db : Db)
      → any (is_victim cfg id) l ≡ false
      → get id (clean_expired go now cfg l db).archives ≡ get id db.archives
  unfolding clean_expired
  clean_expired_other now cfg [] id db h = refl
  clean_expired_other now cfg (x ∷ rest) id db h =
      clean_expired_other now cfg rest id (clean_if_expired go now cfg x db)
        (any_rest (is_victim cfg id) x rest h)
      ∙ step_other now cfg x id db (any_head (is_victim cfg id) x rest h)

  -- Once it is gone, an archive does not come back.
  pub clean_expired-none :
      (now : ℕ) (cfg : RetentionConfig) (l : List LogArchive) (id : String) (db : Db)
      → ArchivesKept db
      → get id db.archives ≡ none
      → get id (clean_expired go now cfg l db).archives ≡ none
  unfolding clean_expired
  clean_expired-none now cfg [] id db kept h = h
  clean_expired-none now cfg (x ∷ rest) id db kept h =
      clean_expired-none now cfg rest id (clean_if_expired go now cfg x db)
        (step_Kept now cfg x db kept) (step_none now cfg x id db kept h)

  pub clean_expired_gone :
      (now : ℕ) (cfg : RetentionConfig) (l : List LogArchive) (id : String) (db : Db)
      → ArchivesKept db
      → any (is_due now cfg id) l ≡ true
      → get id (clean_expired go now cfg l db).archives ≡ none
  unfolding clean_expired
  clean_expired_gone now cfg [] id db kept h = cc
  clean_expired_gone now cfg (x ∷ rest) id db kept h = elim (Bool-cases (is_due now cfg id x)) [
    | inl e ↦
        clean_expired-none now cfg rest id (clean_if_expired go now cfg x db)
          (step_Kept now cfg x db kept) (step_due now cfg x id db kept e)
    | inr e ↦
        clean_expired_gone now cfg rest id (clean_if_expired go now cfg x db)
          (step_Kept now cfg x db kept) (any_behind (is_due now cfg id) x rest h e)
  ]
