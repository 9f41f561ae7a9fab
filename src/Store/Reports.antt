-- ===== src/Store/Reports.antt =====
-- Removed archives and their reports are not found again: internal/store/store.go.
use distribute_storage_log_a.Prelude.{
  ℕ, ◌≡◌, ◌⊎◌, refl, ap, ◌∙◌, Bool, true, false, not, ◌&&◌, ◌||◌, none, some, String, ltb,
  Bool-cases, Option-cases, inl, inr,
}
use distribute_storage_log_a.Prelude.Int.{ℤ, pos, ◌-ℤ◌}
use distribute_storage_log_a.Prelude.Text.{str_eq}
use distribute_storage_log_a.Model.{LogArchive}
use distribute_storage_log_a.Store.Bucket.{get, delete, Distinct, get-delete_self, get-delete_other}
use distribute_storage_log_a.Store.Db.{Db}
use distribute_storage_log_a.Store.Archives.{
  save_user, adjust_user_storage_usage, get_archive, get_report, delete_report, deleted,
  permission_denied, remove_archive, delete_archive,
}
use distribute_storage_log_a.Store.Accounts.{adjust-archives}

adjust-reports :
    (now : ℕ) (name : String) (delta : ℤ) (db : Db)
    → ((adjust_user_storage_usage now name delta db).report_files ≡ db.report_files)
      × ((adjust_user_storage_usage now name delta db).reports ≡ db.reports)
unfolding adjust_user_storage_usage save_user
adjust-reports now name delta db = elim (Option-cases (get name db.users)) [
  | inl e ↦ rw e (refl, refl)
  | inr (u, e) ↦ rw e (refl, refl)
]

-- What the removal of an archive does to archives and reports.
pub removed :
    (now : ℕ) (a : LogArchive) (id : String) (db : Db)
    → let after = remove_archive now a id db in
      (after.archives ≡ delete id db.archives)
      × ((after.report_files ≡ delete id db.report_files) × (after.reports ≡ delete id db.reports))
unfolding remove_archive delete_report
removed now a id db = elim (Bool-cases (ltb 0 a.size && not (str_eq a.username ""))) [
  | inl e ↦
      let debt = pos 0 -ℤ pos a.size in
      rw e (
        ap (delete id) (adjust-archives now a.username debt (delete_report id db)),
        adjust-reports now a.username debt (delete_report id db),
      )
  | inr e ↦ rw e (refl, (refl, refl))
]

removed_gone :
    (now : ℕ) (a : LogArchive) (id other : String) (db : Db)
    → Distinct db.archives
    → Distinct db.report_files
    → Distinct db.reports
    → str_eq other id ≡ false
    → let after = remove_archive now a id db in
      (get_archive id after ≡ none)
      × ((get_report id after ≡ none) × (get_archive other after ≡ get_archive other db))
unfolding get_report
removed_gone now a id other db archives files summaries h =
    let (rest, reports) = removed now a id db in
    (
      ap (get id) rest ∙ get-delete_self id db.archives archives,
      (
        rw
            (
              reports.0,
              reports.1,
              get-delete_self id db.report_files files,
              get-delete_self id db.reports summaries,
            )
            refl,
        ap (get other) rest ∙ get-delete_other id other db.archives h,
      ),
    )

abbrev pub may_delete : LogArchive → String → Bool → Bool
may_delete a username is_admin = is_admin || str_eq a.username username

-- An administrator or the owner deletes an archive: neither it nor its report is found then, and other
-- archives are as before. Anyone else is refused, and the database stays as it is.
pub delete_archive_lem :
    (now : ℕ) (id username : String) (is_admin : Bool) (other : String) (a : LogArchive) (db : Db)
    → Distinct db.archives
    → Distinct db.report_files
    → Distinct db.reports
    → str_eq other id ≡ false
    → get_archive id db ≡ some a
    → let (result, after) = delete_archive now id username is_admin db in
      ((may_delete a username is_admin ≡ true)
        × ((result ≡ deleted)
            × ((get_archive id after ≡ none)
                × ((get_report id after ≡ none)
                    × (get_archive other after ≡ get_archive other db)))))
      ⊎ ((may_delete a username is_admin ≡ false) × ((result ≡ permission_denied) × (after ≡ db)))
unfolding delete_archive
delete_archive_lem now id username true other a db archives files summaries h e =
    rw e (inl (refl, (refl, removed_gone now a id other db archives files summaries h)))
delete_archive_lem now id username false other a db archives files summaries h e =
    rw e (elim (Bool-cases (str_eq a.username username)) [
      | inl o ↦ rw o (inl (refl, (refl, removed_gone now a id other db archives files summaries h)))
      | inr o ↦ rw o (inr (refl, (refl, refl)))
    ])
