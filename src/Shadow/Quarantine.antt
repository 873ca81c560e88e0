-- ===== src/Shadow/Quarantine.antt =====
-- The pages that are parked outside the cache (src/shadow/quarantine.py).
use matryca_plumber.Prelude.{
  ℕ, ◌+◌, ◌≡◌, Bool, true, false, Option, none, some, List, [], ◌==◌, ==_refl, length,
  if◌then◌else◌,
}
use matryca_plumber.Prelude.Text.{Text, text, strip, lower, text_eq}
use matryca_plumber.Prelude.Sort.{sorted, text_leb}
use matryca_plumber.Prelude.Dict
use matryca_plumber.Prelude.Dict.{Dict}
use matryca_plumber.Shadow.Database.{
  Db, QuarantineReason, parse_timeout, parse_error, QuarantineRow,
}

abbrev pub text_or_empty : Option Text → Text
text_or_empty none = []
text_or_empty (some t) = t

unfoldable pub normalize_quarantine_reason : Option Text → QuarantineReason
normalize_quarantine_reason raw =
    let reason = lower (strip (text_or_empty raw)) in
    if reason == text "timeout"
    then parse_timeout
    else if reason == text "parse_timeout"
    then parse_timeout
    else parse_error

-- The table; a statement on a missing table raises, which the callers of the models exclude.
abbrev pub quarantine_rows : Db → Dict Text QuarantineRow
quarantine_rows db = elim db.quarantined_pages [ none ↦ [] | some rows ↦ rows ]

-- `ON CONFLICT`: another attempt keeps `first_quarantined_at`.
attempted : QuarantineReason → ℕ → ℕ → Text → Option QuarantineRow → QuarantineRow
attempted reason byte_count line_count now none = record {
  reason = reason;
  byte_count = byte_count;
  line_count = line_count;
  attempt_count = 1;
  first_quarantined_at = now;
  last_attempt_at = now;
}
attempted reason byte_count line_count now (some row) = record row {
  reason = reason;
  byte_count = byte_count;
  line_count = line_count;
  attempt_count = row.attempt_count + 1;
  last_attempt_at = now;
}

unfoldable pub record_quarantined_page : Text → QuarantineReason → ℕ → ℕ → Text → Db → Db
unfolding attempted
record_quarantined_page file_path reason byte_count line_count now db =
    let rows = quarantine_rows db in
    let row = attempted reason byte_count line_count now (Dict.get file_path rows) in
    record db { quarantined_pages = some (Dict.insert file_path row rows) }

unfoldable pub clear_quarantined_page : Text → Db → Db
clear_quarantined_page file_path db = record db {
  quarantined_pages = some (Dict.remove file_path (quarantine_rows db));
}

unfoldable pub is_page_quarantined : Db → Text → Bool
is_page_quarantined db file_path = elim (Dict.get file_path (quarantine_rows db)) [
  | none ↦ false
  | some _ ↦ true
]

unfoldable pub quarantined_page_count : Db → ℕ
quarantined_page_count db = length (quarantine_rows db)

unfoldable pub quarantined_file_paths : Db → List Text
quarantined_file_paths db = sorted text_leb (Dict.keys (quarantine_rows db))

-- Parking twice a page that was not parked keeps one row, which counts both attempts and keeps the
-- first time.
pub park_twice :
    (path : Text) (r r' : QuarantineReason) (b l b' l' : ℕ) (now now' : Text) (db : Db)
    → Dict.get path (quarantine_rows db) ≡ none
    → Dict.get path (
        quarantine_rows
          (record_quarantined_page path r' b' l' now' (record_quarantined_page path r b l now db)))
      ≡ some (record {
        reason = r';
        byte_count = b';
        line_count = l';
        attempt_count = 2;
        first_quarantined_at = now;
        last_attempt_at = now';
      })
unfolding record_quarantined_page
park_twice path r r' b l b' l' now now' db h = simp (Dict.get-insert, ==_refl, h)
