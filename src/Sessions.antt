-- ===== src/Sessions.antt =====
-- Logins, sessions and users: handlers of internal/manager/api.go. bcrypt is a parameter; a request's
-- body comes decoded, its header without the prefix "Bearer ".
pub mod Disabled
use distribute_storage_log_a.Prelude.{
  ℕ, ◌≡◌, Bool, true, false, not, ◌&&◌, ◌||◌, Option, none, some, List, [], ◌∷◌, String,
  if◌then◌else◌,
}
use distribute_storage_log_a.Prelude.Int.{ℤ}
use distribute_storage_log_a.Prelude.Text.{str_eq}
use distribute_storage_log_a.Store.Bucket.{Bucket, get, put, delete}
use distribute_storage_log_a.Store.Db.{Db, User}
use distribute_storage_log_a.Store.Archives.{save_user, get_user_by_username, delete_user}
use distribute_storage_log_a.Store.Alarms.{or_text}

-- golang.org/x/crypto/bcrypt
pub record Bcrypt : Type 0 where
  pub hash : String → Option String
  pub matches : String → String → Bool

pub record Server : Type 0 where
  pub db : Db
  pub sessions : Bucket String

-- Where a request may carry its token.
pub record Credentials : Type 0 where
  pub bearer : String
  pub cookie : Option String
  pub query : String

abbrev pub cookie_or_empty : Option String → String
cookie_or_empty none = ""
cookie_or_empty (some token) = token

unfoldable pub token_of : Credentials → String
token_of c = or_text (or_text c.bearer (cookie_or_empty c.cookie)) c.query

pub data AuthResult : Type 0 where
  no_token : AuthResult
  no_session : AuthResult
  no_account : AuthResult
  authenticated : User → AuthResult

abbrev pub account_of : Option User → AuthResult
account_of none = no_account
account_of (some u) = authenticated u

abbrev pub session_of : Option String → Db → AuthResult
session_of none db = no_session
session_of (some username) db = account_of (get_user_by_username username db)

unfoldable pub authenticate : Credentials → Server → AuthResult
authenticate c s =
    if str_eq (token_of c) "" then no_token else session_of (get (token_of c) s.sessions) s.db

pub data LoginReply : Type 0 where
  bad_login : LoginReply
  disabled : LoginReply
  logged_in : String → User → LoginReply

abbrev pub used_now : Option ℕ → User → User
used_now none u = u
used_now (some usage) u = record u { used_storage_bytes = usage }

abbrev pub login_of :
    Option User → Bcrypt → String → Option ℕ → String → Server → LoginReply × Server
login_of none bcrypt token usage password s = (bad_login, s)
login_of (some u) bcrypt token usage password s =
    if bcrypt.matches u.password_hash password
    then (if str_eq u.status "active"
        then (
          logged_in token (record (used_now usage u) { password_hash = "" }),
          record s { sessions = put token u.username s.sessions },
        )
        else (disabled, s))
    else (bad_login, s)

-- `token` is the random one, `usage` what the user's files take.
unfoldable pub handle_login :
    Bcrypt → String → Option ℕ → String → String → Server → LoginReply × Server
handle_login bcrypt token usage username password s =
    login_of (get_user_by_username username s.db) bcrypt token usage password s

-- The cookie and the query are not looked at.
unfoldable pub handle_logout : Credentials → Server → Server
handle_logout c s =
    if str_eq c.bearer "" then s else record s { sessions = delete c.bearer s.sessions }

pub data UserReply : Type 0 where
  not_logged_in : UserReply
  forbidden : UserReply
  invalid : UserReply
  no_user : UserReply
  done : UserReply

pub record NewUser : Type 0 where
  pub username : String
  pub password : String
  pub role : String
  pub space_quota_bytes : ℤ

abbrev pub guard_admin : AuthResult → UserReply × Server → Server → UserReply × Server
guard_admin no_token next s = (not_logged_in, s)
guard_admin no_session next s = (not_logged_in, s)
guard_admin no_account next s = (not_logged_in, s)
guard_admin (authenticated u) next s = if str_eq u.role "admin" then next else (forbidden, s)

abbrev pub save_new : Option String → ℕ → NewUser → Server → UserReply × Server
save_new none now req s = (invalid, s)
save_new (some hash) now req s = (
  done,
  record s {
    db =
        save_user now
          (record {
            username = req.username;
            password_hash = hash;
            role = or_text req.role "user";
            space_quota_bytes = req.space_quota_bytes;
            used_storage_bytes = 0;
            status = "active";
            updated_at = now;
          })
          s.db;
  },
)

-- handleUsers with POST.
unfoldable pub create_user : Bcrypt → ℕ → Credentials → NewUser → Server → UserReply × Server
create_user bcrypt now c req s =
    guard_admin (authenticate c s)
      (if str_eq req.username "" || str_eq req.password ""
        then (invalid, s)
        else save_new (bcrypt.hash req.password) now req s)
      s

pub record UserChange : Type 0 where
  pub password : String
  pub role : String
  pub space_quota_bytes : Option ℤ
  pub status : String

abbrev pub quota_or : Option ℤ → ℤ → ℤ
quota_or none old = old
quota_or (some new) old = new

-- An error of the hash is ignored, and the hash is empty then.
abbrev pub hash_or_empty : Option String → String
hash_or_empty none = ""
hash_or_empty (some h) = h

unfoldable pub changed : Bcrypt → UserChange → User → User
changed bcrypt req u = record u {
  password_hash =
      if str_eq req.password "" then u.password_hash else hash_or_empty (bcrypt.hash req.password);
  role = or_text req.role u.role;
  space_quota_bytes = quota_or req.space_quota_bytes u.space_quota_bytes;
  status = or_text req.status u.status;
}

abbrev pub change_found : Option User → Bcrypt → ℕ → UserChange → Server → UserReply × Server
change_found none bcrypt now req s = (no_user, s)
change_found (some u) bcrypt now req s =
    (done, record s { db = save_user now (changed bcrypt req u) s.db })

-- handleUserItem with PUT.
unfoldable pub update_user :
    Bcrypt → ℕ → Credentials → String → UserChange → Server → UserReply × Server
update_user bcrypt now c username req s =
    guard_admin (authenticate c s)
      (if str_eq username ""
        then (invalid, s)
        else change_found (get_user_by_username username s.db) bcrypt now req s)
      s

abbrev pub deleted_of : Option Db → Server → UserReply × Server
deleted_of none s = (invalid, s)
deleted_of (some db) s = (done, record s { db = db })

-- handleUserItem with DELETE.
unfoldable pub remove_user : Credentials → String → Server → UserReply × Server
remove_user c username s =
    guard_admin (authenticate c s)
      (if str_eq username "" then (invalid, s) else deleted_of (delete_user username s.db) s) s
