-- ===== src/Shadow/Database.antt =====
-- The tables of `shadow.sqlite` that reads and synchronisation use (src/shadow/schema.py).
-- A row is a record, a table a list of rows in
-- insertion order, and an SQL statement of the source is the list operation that it denotes.
use matryca_plumber.Prelude.{ℕ, Bool, Option, List, nat_eq}
use matryca_plumber.Prelude.Text.{Text, text_eq}
use matryca_plumber.Prelude.Dict.{Dict}

pub record PageRow : Type 0 where
  pub page_id : ℕ
  pub title : Text
  pub file_path : Text
  pub file_mtime_ns : ℕ
  pub file_size : ℕ
  pub is_journal : Bool
  pub properties_json : Text
  pub synced_at : Text

pub record BlockRow : Type 0 where
  pub rowid : ℕ
  pub block_uuid : Text
  pub page_id : ℕ
  pub parent_rowid : Option ℕ
  pub sort_order : ℕ
  pub indent_level : ℕ
  pub content : Text
  pub properties_json : Text
  pub synced_at : Text

pub data QuarantineReason : Type 0 where
  parse_timeout parse_error : QuarantineReason

-- The primary key `file_path` is the key of the table.
pub record QuarantineRow : Type 0 where
  pub reason : QuarantineReason
  pub byte_count : ℕ
  pub line_count : ℕ
  pub attempt_count : ℕ
  pub first_quarantined_at : Text
  pub last_attempt_at : Text

-- `quarantined_pages` is `none` in a file written before the table existed.
pub record Db : Type 0 where
  pub shadow_meta : Dict Text Text
  pub pages : List PageRow
  pub blocks : List BlockRow
  pub quarantined_pages : Option (Dict Text QuarantineRow)

abbrev pub shadow_schema_version : ℕ
shadow_schema_version = 1
