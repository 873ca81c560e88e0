-- ===== src/Shadow/Sync.antt =====
-- One page of Markdown into an open connection (src/shadow/sync.py). The caller rolls back when an
-- exception leaves these functions, so an error carries no database.
use matryca_plumber.Prelude.{
  ℕ, ◌≡◌, refl, Bool, true, false, Option, none, some, List, [], ◌∷◌, ◌++◌, ◌==◌, ◌&&◌, ◌||◌, not,
  contains, if◌then◌else◌, nat_eq,
}
use matryca_plumber.Prelude.Text.{Text, text, text_eq, is_empty}
use matryca_plumber.Prelude.Sets
use matryca_plumber.Prelude.Sort.{sorted, text_leb}
use matryca_plumber.Prelude.Dict
use matryca_plumber.Prelude.Dict.{Dict}
use matryca_plumber.Graph.PagePath.{page_title_from_graph_relpath, is_markdown}
use matryca_plumber.Shadow.Database.{Db, PageRow, BlockRow}
use matryca_plumber.Shadow.Tables.{
  delete_pages, at_path, at_path_or_title, insert_page, insert_block, owners,
}
use matryca_plumber.Shadow.Errors.{
  SyncError, shadow_page_parse_error, shadow_sync_error, integrity_error,
  format_duplicate_block_uuid_error, format_bounded_page_parse_error,
}
use matryca_plumber.Shadow.Outline.{
  FlatBlock, walk_blocks, ParseFailure, ParsedPage, ParseResult, parsed, failed, SourceFile,
}
use matryca_plumber.Shadow.Quarantine.{
  normalize_quarantine_reason, record_quarantined_page, clear_quarantined_page,
}

-- The error that is raised, or the value that is returned.
pub data Result {ℓ} (A : Type ℓ) : Type ℓ where
  err : SyncError → Result A
  ok : A → Result A

pub ok_inj {ℓ} : {A : Type ℓ} {a b : A} → ok a ≡ ok b → a ≡ b
ok_inj h = cc

module _ {ℓ κ} {A : Type ℓ} {B : Type κ} where
  infixl 10 ◌>>=◌
  abbrev pub ◌>>=◌ : Result A → (A → Result B) → Result B
  err raised_error >>= next = err raised_error
  ok value >>= next = next value

  -- What a sequence returns was returned by its second part, from a value of the first.
  pub >>=-ok :
      (first : Result A) (next : A → Result B) {out : B}
      → (first >>= next) ≡ ok out
      → (value : A) × (first ≡ ok value) × (next value ≡ ok out)
  >>=-ok (err raised_error) next h = cc
  >>=-ok (ok value) next h = (value, refl, h)

-- The files below `pages/` and `journals/`, by their graph-relative paths.
abbrev pub Graph : Type 0
Graph = Dict Text SourceFile

abbrev pub is_file : Graph → Text → Bool
is_file graph rel = elim (Dict.get rel graph) [ none ↦ false | some _ ↦ true ]

-- `rel.startswith("journals/") or "/journals/" in rel`
starts_with : Text → Text → Bool
starts_with [] s = true
starts_with (c ∷ p) [] = false
starts_with (c ∷ p) (d ∷ s) = (c == d) && starts_with p s

has_infix : Text → Text → Bool
has_infix p [] = starts_with p []
has_infix p (c ∷ s) = starts_with p (c ∷ s) || has_infix p s

unfoldable pub is_journal_relpath : Text → Bool
unfolding starts_with has_infix
is_journal_relpath rel = starts_with (text "journals/") rel || has_infix (text "/journals/") rel

-- The uuids of the page, or the first that comes twice.
unfoldable pub seen_on_page : Text → List Text → List FlatBlock → Result (List Text)
seen_on_page rel seen [] = ok seen
seen_on_page rel seen (b ∷ more) =
    let next = seen_on_page rel (seen ++ b.block_uuid ∷ []) more in
    if contains seen b.block_uuid
    then err (shadow_sync_error (format_duplicate_block_uuid_error b.block_uuid (rel ∷ [])))
    else next

-- The paths that own a uuid of the page and have no file any more.
unfoldable pub stale_owners : Graph → Text → List Text → List (Text × Text) → Result (List Text)
stale_owners graph rel stale [] = ok stale
stale_owners graph rel stale ((block_uuid, other) ∷ more) =
    let skip = stale_owners graph rel stale more in
    let found = stale_owners graph rel (Sets.add other stale) more in
    if other == rel
    then skip
    else if is_file graph other
    then err (
        shadow_sync_error
          (format_duplicate_block_uuid_error block_uuid (sorted text_leb (rel ∷ other ∷ []))))
    else found

unfoldable pub delete_paths : List Text → Db → Db
delete_paths [] db = db
delete_paths (rel ∷ more) db = delete_paths more (delete_pages (at_path rel) db)

unfoldable pub preflight_block_uuids : Graph → List FlatBlock → Text → Db → Result Db
preflight_block_uuids graph [] rel db = ok db
preflight_block_uuids graph (b ∷ flat) rel db = seen_on_page rel [] (b ∷ flat) >>= λ seen.
    stale_owners graph rel [] (owners seen db) >>= λ stale.
    ok (delete_paths (sorted text_leb stale) db)

unfoldable pub parent_rowid_of : Dict Text ℕ → Option Text → Option ℕ
parent_rowid_of uuid_to_rowid none = none
parent_rowid_of uuid_to_rowid (some parent) =
    if is_empty parent then none else Dict.get parent uuid_to_rowid

unfoldable pub block_row : ℕ → Text → FlatBlock → Option ℕ → ℕ → BlockRow
block_row page_id synced_at b parent rowid = record {
  rowid = rowid;
  block_uuid = b.block_uuid;
  page_id = page_id;
  parent_rowid = parent;
  sort_order = b.sort_order;
  indent_level = b.indent;
  content = b.content;
  properties_json = b.properties_json;
  synced_at = synced_at;
}

-- The loop over the flat blocks, with the row of each uuid so far.
unfoldable pub insert_blocks : ℕ → Text → Dict Text ℕ → List FlatBlock → Db → Result Db
insert_blocks page_id synced_at uuid_to_rowid [] db = ok db
insert_blocks page_id synced_at uuid_to_rowid (b ∷ more) db =
    elim (insert_block (block_row page_id synced_at b (parent_rowid_of uuid_to_rowid b.parent_uuid))
      db) [
        | none ↦ err integrity_error
        | some (db', rowid) ↦
            insert_blocks page_id synced_at (Dict.insert b.block_uuid rowid uuid_to_rowid) more db'
      ]

unfoldable pub page_row : Text → SourceFile → ParsedPage → Text → ℕ → PageRow
page_row rel file page synced_at page_id = record {
  page_id = page_id;
  title = page_title_from_graph_relpath rel;
  file_path = rel;
  file_mtime_ns = file.mtime_ns;
  file_size = file.size;
  is_journal = is_journal_relpath rel;
  properties_json = page.properties_json;
  synced_at = synced_at;
}

-- The upsert of a page that was parsed.
unfoldable pub upsert_page : Graph → Text → Text → SourceFile → ParsedPage → Db → Result Db
upsert_page graph now rel file page db =
    let flat = walk_blocks page.root_nodes none 0 in
    preflight_block_uuids graph flat rel (clear_quarantined_page rel db) >>= λ checked.
    let title = page_title_from_graph_relpath rel in
    let (inserted, page_id) =
      insert_page (page_row rel file page now)
        (delete_pages (at_path_or_title rel title) checked) in
    insert_blocks page_id now [] flat inserted

unfoldable pub failure_error : Option ParseFailure → Option Text
failure_error none = none
failure_error (some f) = some f.error

unfoldable pub failure_hash : Option ParseFailure → Text
failure_hash none = []
failure_hash (some f) = f.content_hash

unfoldable pub failure_bytes : Option ParseFailure → ℕ
failure_bytes none = 0
failure_bytes (some f) = f.byte_count

unfoldable pub failure_lines : Option ParseFailure → ℕ
failure_lines none = 0
failure_lines (some f) = f.line_count

-- The category of the message: `failure.error if failure else "parse_error"`.
unfoldable pub failure_category : Option ParseFailure → Option Text
failure_category none = some (text "parse_error")
failure_category (some f) = some f.error

unfoldable pub park_page : Text → Text → Option ParseFailure → Db → Db
unfolding failure_error failure_bytes failure_lines
park_page now rel failure db =
    record_quarantined_page rel (normalize_quarantine_reason (failure_error failure))
      (failure_bytes failure) (failure_lines failure) now (delete_pages (at_path rel) db)

unfoldable pub sync_file :
    Bool → Graph → Text → Text → SourceFile → ParseResult → Db → Result (Bool × Db)
sync_file quarantine graph now rel file (parsed page) db =
    upsert_page graph now rel file page db >>= λ db'. ok (true, db')
sync_file quarantine graph now rel file (failed failure) db =
    if quarantine
    then ok (false, park_page now rel failure db)
    else err (
        shadow_page_parse_error (
          format_bounded_page_parse_error (failure_category failure) (failure_hash failure)
            (failure_bytes failure) (failure_lines failure)))

-- Whether the page is now in `pages`, and the database. `rel` is the resolved path, inside the graph.
unfoldable pub sync_page_into_connection : Bool → Graph → Text → Text → Db → Result (Bool × Db)
sync_page_into_connection quarantine graph now rel db =
    if not (is_markdown rel) then ok (false, db) else elim (Dict.get rel graph) [
      | none ↦ ok (false, clear_quarantined_page rel (delete_pages (at_path rel) db))
      | some file ↦ sync_file quarantine graph now rel file file.parse_result db
    ]
