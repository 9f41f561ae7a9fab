-- ===== src/Store/Settings.antt =====
-- The settings of the retention and the pin of an archive: internal/store/store.go.
use distribute_storage_log_a.Prelude.{Bool, true, Option, none, some, List, [], ◌∷◌, String}
use distribute_storage_log_a.Prelude.Int.{pos}
use distribute_storage_log_a.Model.{LogArchive, RetentionConfig}
use distribute_storage_log_a.Store.Bucket.{get, put}
use distribute_storage_log_a.Store.Db.{Db}

unfoldable pub save_retention_config : RetentionConfig → Db → Db
save_retention_config cfg db = record db { retention_config = some cfg }

abbrev pub default_exempt_tags : List String
default_exempt_tags = "永久保留" ∷ "重要故障" ∷ []

abbrev pub default_retention : RetentionConfig
default_retention = record {
  retention_days = pos 180;
  high_watermark_percent = pos 85;
  emergency_watermark_percent = pos 92;
  target_watermark_percent = pos 75;
  auto_clean_enabled = true;
  exempt_tags = default_exempt_tags;
}

-- The text of the settings leaves out an empty list of tags (`omitempty`), so reading the text keeps
-- the default ones then.
abbrev pub tags_or_default : List String → List String
tags_or_default [] = default_exempt_tags
tags_or_default (t ∷ ts) = t ∷ ts

abbrev pub decoded : Option RetentionConfig → RetentionConfig
decoded none = default_retention
decoded (some cfg) = record cfg { exempt_tags = tags_or_default cfg.exempt_tags }

unfoldable pub get_retention_config : Db → RetentionConfig
get_retention_config db = decoded db.retention_config

abbrev pub pinned_found : Option LogArchive → String → Bool → Db → Option (LogArchive × Db)
pinned_found none id pinned db = none
pinned_found (some a) id pinned db = some (
  record a { pinned = pinned },
  record db { archives = put id (record a { pinned = pinned }) db.archives },
)

unfoldable pub set_archive_pinned : String → Bool → Db → Option (LogArchive × Db)
set_archive_pinned id pinned db = pinned_found (get id db.archives) id pinned db
