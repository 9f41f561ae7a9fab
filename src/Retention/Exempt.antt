-- ===== src/Retention/Exempt.antt =====
-- Which archives survive the cycle of Retention.antt, and which do not.
use distribute_storage_log_a.Prelude.{
  ℕ, ◌≡◌, refl, ap, ◌∙◌, Bool, true, false, not, ◌&&◌, ◌||◌, none, some, List, [], ◌∷◌, any, filter,
  String, ltb, arith, Bool-cases, inl, inr,
}
use distribute_storage_log_a.Prelude.Int.{pos, ltb_ℤ}
use distribute_storage_log_a.Prelude.Text.{str_eq}
use distribute_storage_log_a.Model.{LogArchive, RetentionConfig}
use distribute_storage_log_a.Store.Bucket.{Bucket, same_key, get, values, Distinct}
use distribute_storage_log_a.Store.Keys.{KeyedBy, key_of_other}
use distribute_storage_log_a.Store.Db.{Db, StoredNode}
use distribute_storage_log_a.Store.Archives.{get_archive, list_archives, list_archives_by_node}
use distribute_storage_log_a.Store.Settings.{get_retention_config}
use distribute_storage_log_a.Store.Nodes.{list_nodes}
use distribute_storage_log_a.Retention.{
  Runtime, is_archive_exempt_from_auto_clean, is_expired, insert_oldest, sort_oldest, is_full,
  candidates, heal_node, heal_nodes, clean_by_age, run_retention_cycle,
}
use distribute_storage_log_a.Retention.Deletion.{
  ArchivesKept, is_victim, is_due, clean_until_Kept, clean_until_gone, clean_until_other,
  clean_expired_Kept, clean_expired_other, clean_expired_gone,
}

module _ {ℓ} {A : Type ℓ} where
  any-filter : (p q : A → Bool) (l : List A) → any p (filter q l) ≡ any (λ x. p x && q x) l
  any-filter p q [] = refl
  any-filter p q (x ∷ rest) =
      ground (arith, any-filter p q rest, Bool-cases (q x), Bool-cases (p x))

  any_fewer : (p q : A → Bool) (l : List A) → any p l ≡ false → any p (filter q l) ≡ false
  any_fewer p q [] h = refl
  any_fewer p q (x ∷ rest) h =
      ground (arith, any_fewer p q rest, Bool-cases (q x), Bool-cases (p x))

  filter_all : (l : List A) → filter (λ x. true) l ≡ l
  filter_all [] = refl
  filter_all (x ∷ rest) = ap (λ r. x ∷ r) (filter_all rest)

any-insert_oldest :
    (p : LogArchive → Bool) (a : LogArchive) (l : List LogArchive)
    → any p (insert_oldest a l) ≡ (p a || any p l)
unfolding insert_oldest
any-insert_oldest p a [] = refl
any-insert_oldest p a (b ∷ rest) = ground (
  arith,
  any-insert_oldest p a rest,
  Bool-cases (ltb b.upload_time a.upload_time),
  Bool-cases (p a),
  Bool-cases (p b),
)

any-sort_oldest : (p : LogArchive → Bool) (l : List LogArchive) → any p (sort_oldest l) ≡ any p l
unfolding sort_oldest
any-sort_oldest p [] = refl
any-sort_oldest p (a ∷ rest) =
    any-insert_oldest p a (sort_oldest rest) ∙ ap (λ b. p a || b) (any-sort_oldest p rest)

module _ (go : Runtime) where
  -- No other record has the id of a record.
  no_victim :
      (cfg : RetentionConfig) (id : String) (b : Bucket LogArchive)
      → KeyedBy (λ a. a.id) b
      → get id b ≡ none
      → any (is_victim go cfg id) (values b) ≡ false
  unfolding KeyedBy values
  no_victim cfg id [] h e = refl
  no_victim cfg id ((k, x) ∷ rest) h e =
      let (other, behind) = key_of_other id k x rest e in
      let off : str_eq id x.id ≡ false = ap (str_eq id) h.0 ∙ other in
      rw off (no_victim cfg id rest h.1 behind)

  -- An exempt archive is no victim.
  exempt_no_victim :
      (cfg : RetentionConfig) (id : String) (a : LogArchive) (b : Bucket LogArchive)
      → Distinct b
      → KeyedBy (λ x. x.id) b
      → get id b ≡ some a
      → is_archive_exempt_from_auto_clean go a cfg ≡ true
      → any (is_victim go cfg id) (values b) ≡ false
  unfolding Distinct KeyedBy values get
  exempt_no_victim cfg id a [] d h e ex = refl
  exempt_no_victim cfg id a ((k, x) ∷ rest) d h e ex = elim (Bool-cases (str_eq id k)) [
    | inl p ↦
        let same : x ≡ a = cc (rw p at e) in
        let gone : get id rest ≡ none = ap (λ j. get j rest) (same_key id k p) ∙ d.0 in
        let spared : is_archive_exempt_from_auto_clean go x cfg ≡ true =
          ap (λ y. is_archive_exempt_from_auto_clean go y cfg) same ∙ ex in
        rw spared (ground (arith, no_victim cfg id rest h.1 gone, Bool-cases (str_eq id x.id)))
    | inr p ↦
        let off : str_eq id x.id ≡ false = ap (str_eq id) h.0 ∙ p in
        rw off (exempt_no_victim cfg id a rest d.1 h.1 (rw p at e) ex)
  ]

  due_in_values :
      (now : ℕ) (cfg : RetentionConfig) (id : String) (a : LogArchive) (b : Bucket LogArchive)
      → KeyedBy (λ x. x.id) b
      → get id b ≡ some a
      → is_archive_exempt_from_auto_clean go a cfg ≡ false
      → is_expired go now cfg a ≡ true
      → any (is_due go now cfg id) (values b) ≡ true
  unfolding KeyedBy values get is_archive_exempt_from_auto_clean is_expired
  due_in_values now cfg id a [] h e ex old = cc
  due_in_values now cfg id a ((k, x) ∷ rest) h e ex old = elim (Bool-cases (str_eq id k)) [
    | inl p ↦
        let same : x ≡ a = cc (rw p at e) in
        let hit : is_due go now cfg id x ≡ true = rw (h.0, p, same, ex, old) refl in rw hit refl
    | inr p ↦
        let behind = due_in_values now cfg id a rest h.1 (rw p at e) ex old in
        rw behind (ground (arith, Bool-cases (is_due go now cfg id x)))
  ]

  candidates_spared :
      (cfg : RetentionConfig) (node_id id : String) (db : Db)
      → any (is_victim go cfg id) (values db.archives) ≡ false
      → any (λ x. str_eq id x.id) (candidates go cfg node_id db) ≡ false
  unfolding candidates list_archives_by_node
  candidates_spared cfg node_id id db h =
      let stored : List LogArchive =
        filter (λ a. str_eq a.storage_node_id node_id) (values db.archives) in
      any-sort_oldest (λ x. str_eq id x.id)
        (filter (λ a. not (is_archive_exempt_from_auto_clean go a cfg)) stored)
      ∙ (any-filter (λ x. str_eq id x.id) (λ a. not (is_archive_exempt_from_auto_clean go a cfg))
            stored
          ∙ any_fewer (is_victim go cfg id) (λ a. str_eq a.storage_node_id node_id)
              (values db.archives) h)

  heal_node_Kept :
      (now : ℕ) (cfg : RetentionConfig) (node : StoredNode) (db : Db)
      → ArchivesKept db
      → ArchivesKept (heal_node go now cfg node db)
  unfolding heal_node
  heal_node_Kept now cfg node db kept =
      elim (Bool-cases (is_full cfg node && ltb 0 node.disk_total_mb)) [
        | inl e ↦ rw e (
            clean_until_Kept go now _ node.disk_total_mb node.disk_used_mb
              (candidates go cfg node.id db) db kept)
        | inr e ↦ rw e kept
      ]

  heal_node-none :
      (now : ℕ) (cfg : RetentionConfig) (node : StoredNode) (id : String) (db : Db)
      → ArchivesKept db
      → get id db.archives ≡ none
      → get id (heal_node go now cfg node db).archives ≡ none
  unfolding heal_node
  heal_node-none now cfg node id db kept h =
      elim (Bool-cases (is_full cfg node && ltb 0 node.disk_total_mb)) [
        | inl e ↦ rw e (
            clean_until_gone go now _ node.disk_total_mb node.disk_used_mb
              (candidates go cfg node.id db) id db kept h)
        | inr e ↦ rw e h
      ]

  heal_node_exempt :
      (now : ℕ) (cfg : RetentionConfig) (node : StoredNode) (id : String) (a : LogArchive) (db : Db)
      → ArchivesKept db
      → get id db.archives ≡ some a
      → is_archive_exempt_from_auto_clean go a cfg ≡ true
      → get id (heal_node go now cfg node db).archives ≡ some a
  unfolding heal_node ArchivesKept
  heal_node_exempt now cfg node id a db (d, h) e ex =
      elim (Bool-cases (is_full cfg node && ltb 0 node.disk_total_mb)) [
        | inl f ↦ rw f (
            clean_until_other go now _ node.disk_total_mb node.disk_used_mb
              (candidates go cfg node.id db) id db
              (candidates_spared cfg node.id id db (exempt_no_victim cfg id a db.archives d h e ex))
            ∙ e)
        | inr f ↦ rw f e
      ]

  heal_nodes-none :
      (now : ℕ) (cfg : RetentionConfig) (l : List StoredNode) (id : String) (db : Db)
      → ArchivesKept db
      → get id db.archives ≡ none
      → get id (heal_nodes go now cfg l db).archives ≡ none
  unfolding heal_nodes
  heal_nodes-none now cfg [] id db kept h = h
  heal_nodes-none now cfg (n ∷ rest) id db kept h =
      heal_nodes-none now cfg rest id (heal_node go now cfg n db) (heal_node_Kept now cfg n db kept)
        (heal_node-none now cfg n id db kept h)

  heal_nodes_exempt :
      (now : ℕ) (cfg : RetentionConfig) (l : List StoredNode) (id : String) (a : LogArchive)
      (db : Db)
      → ArchivesKept db
      → get id db.archives ≡ some a
      → is_archive_exempt_from_auto_clean go a cfg ≡ true
      → get id (heal_nodes go now cfg l db).archives ≡ some a
  unfolding heal_nodes
  heal_nodes_exempt now cfg [] id a db kept h ex = h
  heal_nodes_exempt now cfg (n ∷ rest) id a db kept h ex =
      heal_nodes_exempt now cfg rest id a (heal_node go now cfg n db)
        (heal_node_Kept now cfg n db kept) (heal_node_exempt now cfg n id a db kept h ex) ex

  aged_Kept :
      (now : ℕ) (cfg : RetentionConfig) (db : Db)
      → ArchivesKept db
      → ArchivesKept (clean_by_age go now cfg db)
  unfolding clean_by_age
  aged_Kept now cfg db kept = elim (Bool-cases (ltb_ℤ (pos 0) cfg.retention_days)) [
    | inl e ↦ rw e (clean_expired_Kept go now cfg (list_archives "" true db) db kept)
    | inr e ↦ rw e kept
  ]

  aged_exempt :
      (now : ℕ) (cfg : RetentionConfig) (id : String) (a : LogArchive) (db : Db)
      → ArchivesKept db
      → get id db.archives ≡ some a
      → is_archive_exempt_from_auto_clean go a cfg ≡ true
      → get id (clean_by_age go now cfg db).archives ≡ some a
  unfolding clean_by_age ArchivesKept list_archives
  aged_exempt now cfg id a db (d, h) e ex = elim (Bool-cases (ltb_ℤ (pos 0) cfg.retention_days)) [
    | inl f ↦
        let none_there = exempt_no_victim cfg id a db.archives d h e ex in
        rw f (
          clean_expired_other go now cfg (list_archives "" true db) id db
            (any_fewer (is_victim go cfg id) (λ x. true) (values db.archives) none_there)
          ∙ e)
    | inr f ↦ rw f e
  ]

  -- An archive that is pinned or has one of the exempt tags is found as it was behind the cycle, however
  -- old it is and however full its node.
  pub run_retention_cycle_exempt :
      (now : ℕ) (id : String) (a : LogArchive) (db : Db)
      → ArchivesKept db
      → get_archive id db ≡ some a
      → is_archive_exempt_from_auto_clean go a (get_retention_config db) ≡ true
      → get_archive id (run_retention_cycle go now db) ≡ some a
  unfolding run_retention_cycle get_retention_config
  run_retention_cycle_exempt now id a db kept h ex =
      let cfg : RetentionConfig = get_retention_config db in
      let aged : Db = clean_by_age go now cfg db in
      elim (Bool-cases cfg.auto_clean_enabled) [
        | inl e ↦ rw e (
            heal_nodes_exempt now cfg (list_nodes aged) id a aged (aged_Kept now cfg db kept)
              (aged_exempt now cfg id a db kept h ex) ex)
        | inr e ↦ rw e h
      ]

  aged_gone :
      (now : ℕ) (cfg : RetentionConfig) (id : String) (a : LogArchive) (db : Db)
      → ArchivesKept db
      → get id db.archives ≡ some a
      → ltb_ℤ (pos 0) cfg.retention_days ≡ true
      → is_archive_exempt_from_auto_clean go a cfg ≡ false
      → is_expired go now cfg a ≡ true
      → get id (clean_by_age go now cfg db).archives ≡ none
  unfolding clean_by_age ArchivesKept list_archives
  aged_gone now cfg id a db (d, h) e days ex old =
      let due : any (is_due go now cfg id) (filter (λ x. true) (values db.archives)) ≡ true =
        ap (any (is_due go now cfg id)) (filter_all (values db.archives))
        ∙ due_in_values now cfg id a db.archives h e ex old in
      rw days (clean_expired_gone go now cfg (list_archives "" true db) id db (d, h) due)

  -- If cleaning is on and a retention is set, an archive that is older and not exempt is not found behind
  -- the cycle.
  pub run_retention_cycle_expired :
      (now : ℕ) (id : String) (a : LogArchive) (db : Db)
      → ArchivesKept db
      → get_archive id db ≡ some a
      → (get_retention_config db).auto_clean_enabled ≡ true
      → ltb_ℤ (pos 0) (get_retention_config db).retention_days ≡ true
      → is_archive_exempt_from_auto_clean go a (get_retention_config db) ≡ false
      → is_expired go now (get_retention_config db) a ≡ true
      → get_archive id (run_retention_cycle go now db) ≡ none
  unfolding run_retention_cycle get_retention_config
  run_retention_cycle_expired now id a db kept h on days ex old =
      let cfg : RetentionConfig = get_retention_config db in
      let aged : Db = clean_by_age go now cfg db in
      rw on (
        heal_nodes-none now cfg (list_nodes aged) id aged (aged_Kept now cfg db kept)
          (aged_gone now cfg id a db kept h days ex old))
