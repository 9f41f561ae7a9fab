-- ===== src/Store/Accounts.antt =====
-- The storage that a user is charged with is what the user's archives take.
use mathlib.Core.Path.{subst}
use distribute_storage_log_a.Prelude.{
  ℕ, ◌+◌, ◌≡◌, ◌≤◌, refl, sym, ap, ◌∙◌, Bool, true, false, not, ◌&&◌, Option, none, some, String,
  if◌then◌else◌, ltb, arith, Bool-cases, Option-cases, inl, inr,
}
use distribute_storage_log_a.Prelude.Int.{ℤ, pos, negsuc, ◌+ℤ◌, ◌-ℤ◌, ◌≤ℤ◌, pos_part, ltb_ℤ, leb_ℤ}
use distribute_storage_log_a.Prelude.Text.{str_eq, eq_refl}
use distribute_storage_log_a.Model.{LogArchive}
use distribute_storage_log_a.Store.Bucket.{
  Bucket, same_key, get, put, delete, sum, get-put_self, get-put_other,
}
use distribute_storage_log_a.Store.Keys.{
  differ, KeyedBy, KeyedBy-get, sum-put_new, sum-put_old, sum-delete,
}
use distribute_storage_log_a.Store.Db.{Db, User}
use distribute_storage_log_a.Store.Archives.{
  save_user, adjusted, adjust_user_storage_usage, get_archive, save_archive, delete_report,
  remove_archive, delete_archive, quota_ok, usage_of, fits, check_user_quota,
}

-- What an archive takes of the user's storage.
abbrev pub share : String → LogArchive → ℕ
share name a = if str_eq a.username name then a.size else 0

unfoldable pub owned : String → Db → ℕ
owned name db = sum (share name) db.archives

abbrev pub used_or : Option User → ℕ → ℕ
used_or none d = d
used_or (some u) d = u.used_storage_bytes

-- The user, if there is one, is charged with what the user's archives take.
unfoldable pub Balanced : String → Db → Type 0
Balanced name db = used_or (get name db.users) (owned name db) ≡ owned name db

pub adjust-archives :
    (now : ℕ) (name : String) (delta : ℤ) (db : Db)
    → (adjust_user_storage_usage now name delta db).archives ≡ db.archives
unfolding adjust_user_storage_usage save_user
adjust-archives now name delta db = elim (Option-cases (get name db.users)) [
  | inl e ↦ rw e refl
  | inr (u, e) ↦ rw e refl
]

adjust-other :
    (now : ℕ) (name other : String) (delta : ℤ) (db : Db)
    → str_eq other name ≡ false
    → (keyed : (u : User) → get name db.users ≡ some u → u.username ≡ name)
    → get other (adjust_user_storage_usage now name delta db).users ≡ get other db.users
unfolding adjust_user_storage_usage save_user
adjust-other now name other delta db h keyed = elim (Option-cases (get name db.users)) [
  | inl e ↦ rw e refl
  | inr (u, e) ↦
      let same : u.username ≡ name = keyed u e in
      rw e (rw same (get-put_other name other _ db.users h))
]

adjust-none :
    (now : ℕ) (name : String) (delta : ℤ) (db : Db)
    → get name db.users ≡ none
    → adjust_user_storage_usage now name delta db ≡ db
unfolding adjust_user_storage_usage
adjust-none now name delta db e = rw e refl

adjust-some :
    (now : ℕ) (name : String) (delta : ℤ) (db : Db) (u : User) (d : ℕ)
    → get name db.users ≡ some u
    → u.username ≡ name
    → used_or (get name (adjust_user_storage_usage now name delta db).users) d
      ≡ pos_part (pos u.used_storage_bytes +ℤ delta)
unfolding adjust_user_storage_usage save_user
adjust-some now name delta db u d e same =
    let stored : User = record (adjusted delta u) { updated_at = now } in
    rw e (
      ap (λ k. used_or (get name (put k stored db.users)) d) same
      ∙ ap (λ o. used_or o d) (get-put_self name stored db.users))

-- What a change of the archives owes the user is what adjusting adds.
adjusted_Balanced :
    (now : ℕ) (name : String) (delta : ℤ) (before after : Db)
    → (keyed : (u : User) → get name before.users ≡ some u → u.username ≡ name)
    → after.users ≡ before.users
    → pos_part (pos (owned name before) +ℤ delta) ≡ owned name after
    → Balanced name before
    → Balanced name (adjust_user_storage_usage now name delta after)
unfolding Balanced owned
adjusted_Balanced now name delta before after keyed same gain h =
    elim (Option-cases (get name before.users)) [
      | inl e ↦
          let there : get name after.users ≡ none = rw same e in
          rw (adjust-none now name delta after there, there) refl
      | inr (u, e) ↦
          let there : get name after.users ≡ some u = rw same e in
          let charged : u.used_storage_bytes ≡ owned name before = rw e at h in
          rw (adjust-archives now name delta after) (
            adjust-some now name delta after u (owned name after) there (keyed u e)
            ∙ (rw charged gain))
    ]

-- Each user stands under the user's name.
abbrev pub Keyed : Bucket User → Type 0
Keyed users = KeyedBy (λ u. u.username) users

-- Nothing that is another's changes.
other_Balanced :
    (now : ℕ) (owner name : String) (delta : ℤ) (before after : Db)
    → Keyed before.users
    → str_eq name owner ≡ false
    → after.users ≡ before.users
    → owned name before ≡ owned name after
    → Balanced name before
    → Balanced name (adjust_user_storage_usage now owner delta after)
unfolding Balanced owned
other_Balanced now owner name delta before after keyed other same gain h =
    let users =
      adjust-other now owner name delta after other
        (λ u e. KeyedBy-get (λ u. u.username) before.users keyed owner u (rw same at e)) in
    rw (adjust-archives now owner delta after, users, same, sym gain) h

charge_gain : (x size : ℕ) → pos_part (pos x +ℤ pos size) ≡ size + x
unfolding ◌+ℤ◌
charge_gain x size = ground arith

credit_gain : (x y size : ℕ) → y + size ≡ x → pos_part (pos x +ℤ (pos 0 -ℤ pos size)) ≡ y
unfolding ◌+ℤ◌ ◌-ℤ◌
credit_gain x y size h = ground (arith, h)

-- The archive that a new one takes the place of has its owner and size.
abbrev pub Unchanged : Option LogArchive → LogArchive → Type 0
Unchanged none a = Unit
Unchanged (some old) a = (old.username ≡ a.username) × (old.size ≡ a.size)

abbrev counts : LogArchive → Bool
counts a = ltb 0 a.size && not (str_eq a.username "")

-- An archive that does not count takes nothing of anyone.
share_none :
    (name : String) (a : LogArchive) → str_eq name "" ≡ false → counts a ≡ false → share name a ≡ 0
share_none name a named h = elim (Bool-cases (str_eq a.username name)) [
  | inl e ↦
      let anonymous : str_eq a.username "" ≡ false = rw (same_key a.username name e) named in
      let empty : (ltb 0 a.size && true) ≡ false = rw anonymous at h in rw e (ground (arith, empty))
  | inr e ↦ rw e refl
]

share_other : (name : String) (a : LogArchive) → str_eq name a.username ≡ false → share name a ≡ 0
share_other name a h = rw (differ name a.username h) refl

share_mine :
    (name : String) (a : LogArchive) → str_eq name a.username ≡ true → share name a ≡ a.size
share_mine name a h =
    let same : name ≡ a.username = same_key name a.username h in rw (same, eq_refl a.username) refl

same_users :
    (name : String) (before after : Db)
    → after.users ≡ before.users
    → owned name after ≡ owned name before
    → Balanced name before
    → Balanced name after
unfolding Balanced get owned
same_users name before after same gain h = rw (same, gain) h

-- The two cases of an archive's owner.
settled_Balanced :
    (now : ℕ) (name : String) (a : LogArchive) (delta : ℤ) (before after : Db)
    → Keyed before.users
    → after.users ≡ before.users
    → (mine : share name a ≡ a.size
        → pos_part (pos (owned name before) +ℤ delta) ≡ owned name after)
    → (theirs : share name a ≡ 0 → owned name before ≡ owned name after) → Balanced name before
    → Balanced name (adjust_user_storage_usage now a.username delta after)
settled_Balanced now name a delta before after keyed same mine theirs h =
    elim (Bool-cases (str_eq name a.username)) [
      | inl e ↦
          let owner : name ≡ a.username = same_key name a.username e in
          let own =
            adjusted_Balanced now name delta before after
              (KeyedBy-get (λ u. u.username) before.users keyed name) same
              (mine (share_mine name a e)) h in
          subst (λ k. Balanced name (adjust_user_storage_usage now k delta after)) owner own
      | inr e ↦
          other_Balanced now a.username name delta before after keyed e same
            (theirs (share_other name a e)) h
    ]

-- If a user's cached use is the size of the user's archives, it is so behind a save of any archive that
-- is new or has the owner and the size of the one it takes the place of.
pub save_archive-Balanced :
    (now : ℕ) (name : String) (a : LogArchive) (db : Db)
    → str_eq name "" ≡ false
    → Keyed db.users
    → Unchanged (get_archive a.id db) a
    → Balanced name db
    → Balanced name (save_archive now a db)
unfolding save_archive owned
save_archive-Balanced now name a db named keyed same h =
    elim (Option-cases (get a.id db.archives)) [
      | inl e ↦
          let gain = sum-put_new (share name) a.id a db.archives e in
          elim (Bool-cases (counts a)) [
            | inl c ↦
                rw (e, c)
                  (settled_Balanced now name a (pos a.size) db _ keyed refl
                    (λ m.
                      charge_gain (sum (share name) db.archives) a.size ∙ (omega (arith, gain, m)))
                    (λ z. omega (arith, gain, z)) h)
            | inr c ↦
                rw (e, c)
                  (same_users name db _ refl (omega (arith, gain, share_none name a named c)) h)
          ]
      | inr (old, e) ↦
          let gain = sum-put_old (share name) a.id a old db.archives e in
          let (owner, size) : (old.username ≡ a.username) × (old.size ≡ a.size) = rw e at same in
          let shares : share name old ≡ share name a = rw (owner, size) refl in
          rw e (same_users name db _ refl (omega (arith, gain, shares)) h)
    ]

-- The archive's record may go before or after its user's credit.
adjust_then_archives :
    (now : ℕ) (name : String) (delta : ℤ) (id : String) (db : Db)
    → adjust_user_storage_usage now name delta (record db { archives = delete id db.archives }) ≡ (
        let credited = adjust_user_storage_usage now name delta db in
        record credited { archives = delete id credited.archives })
unfolding adjust_user_storage_usage save_user
adjust_then_archives now name delta id db = elim (Option-cases (get name db.users)) [
  | inl e ↦ rw e refl
  | inr (u, e) ↦ rw e refl
]

removed_Balanced :
    (now : ℕ) (name : String) (a : LogArchive) (id : String) (db : Db)
    → get id db.archives ≡ some a
    → str_eq name "" ≡ false
    → Keyed db.users
    → Balanced name db
    → Balanced name (remove_archive now a id db)
unfolding remove_archive delete_report owned
removed_Balanced now name a id db e named keyed h =
    let gain = sum-delete (share name) id a db.archives e in
    elim (Bool-cases (counts a)) [
      | inl c ↦
          let debt = pos 0 -ℤ pos a.size in
          rw c (
            subst (Balanced name)
              (adjust_then_archives now a.username debt id (delete_report id db))
              (settled_Balanced now name a debt db _ keyed refl
                (λ m. credit_gain (sum (share name) db.archives) _ a.size (omega (arith, gain, m)))
                (λ z. omega (arith, gain, z)) h))
      | inr c ↦ rw c (same_users name db _ refl (omega (arith, gain, share_none name a named c)) h)
    ]

-- If a user's cached use is the size of the user's archives, it is so behind any deletion of an archive,
-- whoever asks for it and whether or not it is done.
pub delete_archive-Balanced :
    (now : ℕ) (id username : String) (is_admin : Bool) (name : String) (db : Db)
    → str_eq name "" ≡ false
    → Keyed db.users
    → Balanced name db
    → Balanced name (delete_archive now id username is_admin db).1
unfolding delete_archive
delete_archive-Balanced now id username is_admin name db named keyed h =
    elim (Option-cases (get id db.archives)) [
      | inl e ↦ rw e h
      | inr (a, e) ↦ rw e (elim (Bool-cases (not is_admin && not (str_eq a.username username))) [
        | inl c ↦ rw c h
        | inr c ↦ rw c (removed_Balanced now name a id db e named keyed h)
      ])
    ]

-- The cached usage is what an account's check starts from.
least_usage : (disk : Option ℕ) (u : User) → u.used_storage_bytes ≤ usage_of disk u
least_usage none u = omega arith
least_usage (some d) u = ground arith

check-archives :
    (disk : Option ℕ) (now : ℕ) (name : String) (incoming : ℕ) (db : Db)
    → (check_user_quota disk now name incoming db).1.archives ≡ db.archives
unfolding check_user_quota save_user
check-archives disk now name incoming db = elim (Option-cases (get name db.users)) [
  | inl e ↦ rw e refl
  | inr (u, e) ↦ rw e (ground (arith, Bool-cases (leb_ℤ u.space_quota_bytes (pos 0))))
]

new_share :
    (now : ℕ) (a : LogArchive) (db : Db)
    → get a.id db.archives ≡ none
    → owned a.username (save_archive now a db) ≡ a.size + owned a.username db
unfolding save_archive owned
new_share now a db e =
    let gain = sum-put_new (share a.username) a.id a db.archives e in
    let mine = share_mine a.username a (eq_refl a.username) in
    elim (Bool-cases (counts a)) [
      | inl c ↦
          rw (e, c) (rw (adjust-archives now a.username (pos a.size)) (omega (arith, gain, mine)))
      | inr c ↦ rw (e, c) (omega (arith, gain, mine))
    ]

fits_ok :
    (usage : ℕ) (quota : ℤ) (incoming : ℕ)
    → fits usage quota incoming ≡ quota_ok
    → pos (usage + incoming) ≤ℤ quota
fits_ok usage (pos q) incoming h = ground (arith, h)
fits_ok usage (negsuc q) incoming h = ground (arith, h)

checked_fits :
    (disk : Option ℕ) (now : ℕ) (name : String) (incoming : ℕ) (u : User) (db : Db)
    → get name db.users ≡ some u
    → ltb_ℤ (pos 0) u.space_quota_bytes ≡ true
    → (check_user_quota disk now name incoming db).0 ≡ quota_ok
    → fits (usage_of disk u) u.space_quota_bytes incoming ≡ quota_ok
unfolding check_user_quota
checked_fits disk now name incoming u db e limited ok =
    let some_quota : leb_ℤ u.space_quota_bytes (pos 0) ≡ false = ground (arith, limited) in
    rw (e, some_quota) at ok

-- If a user with a positive quota is charged with what the user's archives take, and the check lets a
-- new archive pass, the user's archives are within the quota when that archive is saved.
pub quota_kept :
    (disk : Option ℕ) (now : ℕ) (a : LogArchive) (u : User) (db : Db)
    → get a.username db.users ≡ some u
    → ltb_ℤ (pos 0) u.space_quota_bytes ≡ true
    → Balanced a.username db
    → get a.id db.archives ≡ none
    → (check_user_quota disk now a.username a.size db).0 ≡ quota_ok
    → pos (owned a.username (save_archive now a (check_user_quota disk now a.username a.size db).1))
      ≤ℤ u.space_quota_bytes
unfolding Balanced owned
quota_kept disk now a u db e limited h fresh ok =
    let after : Db = (check_user_quota disk now a.username a.size db).1 in
    let same : after.archives ≡ db.archives = check-archives disk now a.username a.size db in
    let total = new_share now a after (ap (get a.id) same ∙ fresh) in
    let before : owned a.username after ≡ owned a.username db = ap (sum (share a.username)) same in
    let charged : u.used_storage_bytes ≡ owned a.username db = rw e at h in
    let room =
      fits_ok (usage_of disk u) u.space_quota_bytes a.size
        (checked_fits disk now a.username a.size u db e limited ok) in
    omega (arith, total, before, charged, room, least_usage disk u)
