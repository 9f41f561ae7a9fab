-- ===== src/Sessions/Disabled.antt =====
-- What becomes of a session when its user is disabled: Sessions.antt.
use mathlib.Core.Path.{subst}
use distribute_storage_log_a.Prelude.{ℕ, ◌≡◌, refl, sym, ap, ◌∙◌, true, false, Option, some, String}
use distribute_storage_log_a.Prelude.Text.{str_eq}
use distribute_storage_log_a.Store.Bucket.{get, put, get-put_self}
use distribute_storage_log_a.Store.Db.{User}
use distribute_storage_log_a.Store.Archives.{save_user}
use distribute_storage_log_a.Sessions.{
  Bcrypt, Server, Credentials, token_of, authenticated, authenticate, disabled, handle_login,
  UserChange, changed, update_user,
}

-- The user behind a change.
abbrev changed_at : Bcrypt → ℕ → UserChange → User → User
changed_at bcrypt now req u = record (changed bcrypt req u) { updated_at = now }

abbrev with_change : Bcrypt → ℕ → UserChange → User → Server → Server
with_change bcrypt now req u s = record s { db = save_user now (changed bcrypt req u) s.db }

update_result :
    (bcrypt : Bcrypt) (now : ℕ) (admin : Credentials) (name : String) (req : UserChange)
    (boss u : User) (s : Server)
    → authenticate admin s ≡ authenticated boss
    → str_eq boss.role "admin" ≡ true
    → str_eq name "" ≡ false
    → get name s.db.users ≡ some u
    → (update_user bcrypt now admin name req s).1 ≡ with_change bcrypt now req u s
unfolding update_user
update_result bcrypt now admin name req boss u s is_boss is_admin named there =
    rw is_boss (rw is_admin (rw named (rw there refl)))

changed_stored :
    (bcrypt : Bcrypt) (now : ℕ) (name : String) (req : UserChange) (u : User) (s : Server)
    → u.username ≡ name
    → get name (with_change bcrypt now req u s).db.users ≡ some (changed_at bcrypt now req u)
unfolding save_user changed
changed_stored bcrypt now name req u s own =
    ap (λ k. get name (put k (changed_at bcrypt now req u) s.db.users)) own
    ∙ get-put_self name (changed_at bcrypt now req u) s.db.users

login_disabled :
    (bcrypt : Bcrypt) (name password token : String) (usage : Option ℕ) (v : User) (s : Server)
    → get name s.db.users ≡ some v
    → bcrypt.matches v.password_hash password ≡ true
    → v.status ≡ "disabled"
    → handle_login bcrypt token usage name password s ≡ (disabled, s)
unfolding handle_login
login_disabled bcrypt name password token usage v s there right off =
    let refused : str_eq v.status "active" ≡ false = ap (λ t. str_eq t "active") off in
    rw there (rw right (rw refused refl))

session_kept :
    (mine : Credentials) (name : String) (v : User) (s : Server)
    → str_eq (token_of mine) "" ≡ false
    → get (token_of mine) s.sessions ≡ some name
    → get name s.db.users ≡ some v
    → authenticate mine s ≡ authenticated v
unfolding authenticate
session_kept mine name v s carried session there = rw carried (rw session (rw there refl))

changed_status :
    (bcrypt : Bcrypt) (req : UserChange) (u : User)
    → req.status ≡ "disabled"
    → (changed bcrypt req u).status ≡ "disabled"
unfolding changed
changed_status bcrypt req u off = rw off refl

same_hash :
    (bcrypt : Bcrypt) (req : UserChange) (u : User)
    → req.password ≡ ""
    → (changed bcrypt req u).password_hash ≡ u.password_hash
unfolding changed
same_hash bcrypt req u h = rw h refl

-- An administrator disables a user that is logged in, and leaves the password: a new login with the
-- right password is refused, but the user's session is still the user's.
pub disabled_user_stays :
    (bcrypt : Bcrypt) (now : ℕ) (admin mine : Credentials) (name password token : String)
    (usage : Option ℕ) (req : UserChange)
    → (boss u : User) (s : Server) → authenticate admin s ≡ authenticated boss
    → str_eq boss.role "admin" ≡ true
    → str_eq name "" ≡ false
    → str_eq (token_of mine) "" ≡ false
    → get (token_of mine) s.sessions ≡ some name
    → get name s.db.users ≡ some u
    → u.username ≡ name
    → bcrypt.matches u.password_hash password ≡ true
    → req.status ≡ "disabled"
    → req.password ≡ ""
    → let after = (update_user bcrypt now admin name req s).1 in
      (handle_login bcrypt token usage name password after ≡ (disabled, after))
      × (authenticate mine after
          ≡ authenticated (record (changed bcrypt req u) { updated_at = now }))
disabled_user_stays bcrypt now admin mine name password token usage req boss u s is_boss is_admin
      named carried session there own right off same_password =
    let updated = update_result bcrypt now admin name req boss u s is_boss is_admin named there in
    let stored = changed_stored bcrypt now name req u s own in
    let hash_right =
      ap (λ h. bcrypt.matches h password) (same_hash bcrypt req u same_password) ∙ right in
    subst
      (λ after.
        (handle_login bcrypt token usage name password after ≡ (disabled, after))
        × (authenticate mine after ≡ authenticated (changed_at bcrypt now req u)))
      (sym updated)
      (
        login_disabled bcrypt name password token usage (changed_at bcrypt now req u)
            (with_change bcrypt now req u s) stored hash_right (changed_status bcrypt req u off),
        session_kept mine name (changed_at bcrypt now req u) (with_change bcrypt now req u s)
            carried session stored,
      )
