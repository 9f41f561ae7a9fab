-- ===== src/IndexCache/Soundness.antt =====
-- What the lookup returns, whatever the cache and the index file hold.
use distribute_storage_log_a.Prelude.{
  ℕ, ◌≡◌, refl, inl, inr, Option, none, some, String, ltb, arith, Bool-cases,
}
use distribute_storage_log_a.Bytes.{Bytes, Reader}
use distribute_storage_log_a.IndexCache.{
  after_scan, second_look, after_load, first_look, Lru, IndexKind, FileInfo, Outcome, stat_failed,
  too_small, found, build_failed, fresh?, load?, build_locked, get_or_build,
}

-- The laws of one kind of index: what is loaded or built carries the size and time asked for.
pub record KindLaws {V : Type 0} (kind : IndexKind V) : Type 0 where
  pub load_fresh :
      (file : Bytes) (size mod_time : ℕ) (v : V)
      → kind.load file size mod_time ≡ some v
      → (kind.size_of v ≡ size) × (kind.time_of v ≡ mod_time)
  pub build_fresh :
      (r : Reader) (size mod_time : ℕ) (v : V)
      → kind.build r size mod_time ≡ some v
      → (kind.size_of v ≡ size) × (kind.time_of v ≡ mod_time)

-- Every index that the cache holds satisfies `P` at its path.
abbrev pub Holds : {V : Type 0} (lru : Lru V) → (String → V → Type 0) → lru.State → Type 0
Holds {V} lru P s = (path : String) (v : V) → lru.peek s path ≡ some v → P path v

-- An outcome is good where an index in it satisfies `P`.
abbrev pub Good : {V : Type 0} → (V → Type 0) → Outcome V → Type 0
Good P stat_failed = Unit
Good P too_small = Unit
Good P (found v) = P v
Good P build_failed = Unit

pub Good-map :
    {V : Type 0} {P Q : V → Type 0} (o : Outcome V) → ((v : V) → P v → Q v) → Good P o → Good Q o
Good-map stat_failed f h = h
Good-map too_small f h = h
Good-map (found v) f h = f v h
Good-map build_failed f h = h

module _ {V : Type 0} (lru : Lru V) (kind : IndexKind V) (laws : KindLaws kind) where
  abbrev pub Carries : FileInfo → V → Type 0
  Carries fi v = (kind.size_of v ≡ fi.size) × (kind.time_of v ≡ fi.mod_time)

  fresh?-Carries :
      (o : Option V) (fi : FileInfo) (v : V)
      → fresh? lru kind o fi ≡ some v
      → (o ≡ some v) × Carries fi v
  fresh?-Carries none fi v h = cc
  fresh?-Carries (some w) fi v h = ground arith

  load?-fresh :
      (o : Option Bytes) (fi : FileInfo) (v : V) → load? lru kind o fi ≡ some v → Carries fi v
  load?-fresh none fi v h = cc
  load?-fresh (some file) fi v h = laws.load_fresh file fi.size fi.mod_time v h

  module _ (P : String → V → Type 0) where
    Holds-touch : (s : lru.State) (k : String) → Holds lru P s → Holds lru P (lru.touch s k)
    Holds-touch s k h path v e = h path v (rw lru.peek-touch at e)

    Holds-add :
        (s : lru.State) (k : String) (v : V) → Holds lru P s → P k v → Holds lru P (lru.add s k v)
    Holds-add s k v h p path w e = elim (lru.peek-add s k path v e) [
      | inl (same, value) ↦ rw (same, value) p
      | inr old ↦ h path w old
    ]

    module _ (path : String) (fi : FileInfo) (r : Reader)
        (built : (v : V) → kind.build r fi.size fi.mod_time ≡ some v → P path v) where
      Answer : Outcome V × lru.State → Type 0
      Answer a = Good (λ v. P path v × Carries fi v) a.0 × Holds lru P a.1

      after_scan-Answer :
          (o : Option V) (cache : lru.State)
          → kind.build r fi.size fi.mod_time ≡ o
          → Holds lru P cache
          → Answer (after_scan lru kind o path cache)
      unfolding after_scan Answer
      after_scan-Answer none cache e h = (tt, h)
      after_scan-Answer (some v) cache e h = (
        (built v e, laws.build_fresh r fi.size fi.mod_time v e),
        Holds-add cache path v h (built v e),
      )

      second_look-Answer :
          (o : Option V) (cache : lru.State)
          → ((v : V) → o ≡ some v → P path v × Carries fi v)
          → Holds lru P cache
          → Answer (second_look lru kind o path fi r cache)
      unfolding second_look Answer
      second_look-Answer (some v) cache good h = (good v refl, h)
      second_look-Answer none cache good h = after_scan-Answer _ cache refl h

      cached :
          (s : lru.State)
          → Holds lru P s
          → (v : V) → fresh? lru kind (lru.peek s path) fi ≡ some v
          → P path v × Carries fi v
      cached s h v e =
          let (at, fresh) = fresh?-Carries (lru.peek s path) fi v e in (h path v at, fresh)

      build_locked-Answer :
          (cache : lru.State) → Holds lru P cache → Answer (build_locked lru kind path fi r cache)
      unfolding build_locked Answer
      build_locked-Answer cache h =
          second_look-Answer (fresh? lru kind (lru.peek cache path) fi) (lru.touch cache path)
            (cached cache h) (Holds-touch cache path h)

      module _ (index_file : Option Bytes) (cache locked : lru.State)
          (loaded : (v : V) → load? lru kind index_file fi ≡ some v → P path v)
          (holds_locked : Holds lru P locked) where
        after_load-Answer :
            (o : Option V) (s : lru.State)
            → load? lru kind index_file fi ≡ o
            → Holds lru P s
            → Answer (after_load lru kind o path fi r s locked)
        unfolding after_load Answer
        after_load-Answer (some v) s e h =
            ((loaded v e, load?-fresh index_file fi v e), Holds-add s path v h (loaded v e))
        after_load-Answer none s e h = build_locked-Answer locked holds_locked

        first_look-Answer :
            (o : Option V) (s : lru.State)
            → ((v : V) → o ≡ some v → P path v × Carries fi v)
            → Holds lru P s
            → Answer (first_look lru kind o path fi index_file r s locked)
        unfolding first_look Answer
        first_look-Answer (some v) s good h = (good v refl, h)
        first_look-Answer none s good h = after_load-Answer _ s refl h

        pub get_or_build_lem :
            Holds lru P cache
            → let a = get_or_build lru kind (some fi) path index_file r cache locked in
              Good (λ v. P path v × Carries fi v) a.0 × Holds lru P a.1
        unfolding get_or_build Answer
        get_or_build_lem h = elim (Bool-cases (ltb fi.size kind.min_file_size)) [
          | inl e ↦ rw e (tt, h)
          | inr e ↦ rw e (
              first_look-Answer (fresh? lru kind (lru.peek cache path) fi) (lru.touch cache path)
                (cached cache h) (Holds-touch cache path h))
        ]
