-- ===== src/Examples/Access.antt =====
-- An administrator disables a user that is logged in: internal/manager/api.go.
use distribute_storage_log_a.Prelude.{◌≡◌, refl, none, some, [], ◌∷◌, String}
use distribute_storage_log_a.Prelude.Int.{pos}
use distribute_storage_log_a.Prelude.Text.{str_eq}
use distribute_storage_log_a.Store.Bucket.{get}
use distribute_storage_log_a.Store.Db.{User}
use distribute_storage_log_a.Sessions.{
  Bcrypt, Server, Credentials, authenticated, authenticate, disabled, handle_login, UserChange,
  changed, update_user, token_of,
}
use distribute_storage_log_a.Sessions.Disabled.{disabled_user_stays}

-- A hash that hides nothing.
abbrev plain : Bcrypt
plain = record { hash = λ p. some p; matches = λ h p. str_eq h p }

abbrev user_of : String → String → User
user_of name role = record {
  username = name;
  password_hash = "secret";
  role = role;
  space_quota_bytes = pos 0;
  used_storage_bytes = 0;
  status = "active";
  updated_at = 0;
}

abbrev office : Server
office = record {
  db = record {
    users = ("admin", user_of "admin" "admin") ∷ ("bob", user_of "bob" "user") ∷ [];
    archives = [];
    nodes = [];
    decommissioned = [];
    alarms = [];
    report_files = [];
    reports = [];
    retention_config = none;
  };
  sessions = ("t1", "admin") ∷ ("t2", "bob") ∷ [];
}

abbrev bearer_of : String → Credentials
bearer_of token = record { bearer = token; cookie = none; query = "" }

abbrev disabling : UserChange
disabling = record { password = ""; role = ""; space_quota_bytes = none; status = "disabled" }

disabled_user_stays_example :
    let after = (update_user plain 9 (bearer_of "t1") "bob" disabling office).1 in
    (handle_login plain "t3" none "bob" "secret" after ≡ (disabled, after))
    × (authenticate (bearer_of "t2") after
        ≡ authenticated
            (record (changed plain disabling (user_of "bob" "user")) { updated_at = 9 }))
unfolding authenticate token_of get
disabled_user_stays_example =
    disabled_user_stays plain 9 (bearer_of "t1") (bearer_of "t2") "bob" "secret" "t3" none disabling
      (user_of "admin" "admin") (user_of "bob" "user") office refl refl refl refl refl refl refl
      refl refl refl
