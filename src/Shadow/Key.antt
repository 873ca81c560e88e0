-- ===== src/Shadow/Key.antt =====
-- The keys of the table `shadow_meta` (src/shadow/meta.py).
use matryca_plumber.Prelude.Text.{Text, text}

abbrev pub schema_version : Text
schema_version = text "schema_version"

abbrev pub generation : Text
generation = text "generation"

abbrev pub last_full_sync_at : Text
last_full_sync_at = text "last_full_sync_at"

abbrev pub last_full_sync_completed : Text
last_full_sync_completed = text "last_full_sync_completed"

abbrev pub source_page_count : Text
source_page_count = text "source_page_count"

abbrev pub indexed_page_count : Text
indexed_page_count = text "indexed_page_count"

abbrev pub quarantined_page_count : Text
quarantined_page_count = text "quarantined_page_count"

abbrev pub last_sync_error : Text
last_sync_error = text "last_sync_error"

abbrev pub last_incremental_sync_at : Text
last_incremental_sync_at = text "last_incremental_sync_at"
