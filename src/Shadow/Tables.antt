-- ===== src/Shadow/Tables.antt =====
-- The statements on `pages` and `blocks` that synchronisation executes (src/shadow/sync.py,
-- src/shadow/schema.py). `page_id` and `rowid` are SQLite's `INTEGER PRIMARY KEY`: the next one is
-- one more than the largest. Deleting a page deletes its blocks; a parent stands on the page of its
-- block, so the cascade on `parent_rowid` finds nothing more.
use matryca_plumber.Prelude.{
  ℕ, suc, Bool, Option, none, some, List, [], ◌∷◌, ◌++◌, max, ◌==◌, ◌||◌, not, contains,
  if◌then◌else◌, nat_eq, keep,
}
use matryca_plumber.Prelude.Text.{Text, text_eq}
use matryca_plumber.Shadow.Database.{Db, PageRow, BlockRow}

abbrev pub page_ids : List PageRow → List ℕ
page_ids [] = []
page_ids (p ∷ ps) = p.page_id ∷ page_ids ps

abbrev pub rowids : List BlockRow → List ℕ
rowids [] = []
rowids (b ∷ bs) = b.rowid ∷ rowids bs

abbrev pub block_uuids : List BlockRow → List Text
block_uuids [] = []
block_uuids (b ∷ bs) = b.block_uuid ∷ block_uuids bs

unfoldable pub next_id : List ℕ → ℕ
next_id [] = 1
next_id (n ∷ ns) = max (suc n) (next_id ns)

-- The blocks whose page is among `ids`: those that the cascade leaves.
unfoldable pub blocks_of : List ℕ → List BlockRow → List BlockRow
blocks_of ids = keep (λ b. contains ids b.page_id)

-- `DELETE FROM pages WHERE …`
unfoldable pub delete_pages : (PageRow → Bool) → Db → Db
delete_pages selected db =
    let kept = keep (λ p. not (selected p)) db.pages in
    record db { pages = kept; blocks = blocks_of (page_ids kept) db.blocks }

abbrev pub at_path : Text → PageRow → Bool
at_path rel p = p.file_path == rel

abbrev pub at_path_or_title : Text → Text → PageRow → Bool
at_path_or_title rel title p = (p.file_path == rel) || (p.title == title)

-- The columns of a new page; the second result is `lastrowid`.
unfoldable pub insert_page : (ℕ → PageRow) → Db → Db × ℕ
insert_page row db =
    let page_id = next_id (page_ids db.pages) in
    (record db { pages = db.pages ++ row page_id ∷ [] }, page_id)

-- `none` is the `IntegrityError` of a `block_uuid` that is there.
unfoldable pub insert_block : (ℕ → BlockRow) → Db → Option (Db × ℕ)
insert_block row db =
    let rowid = next_id (rowids db.blocks) in
    if contains (block_uuids db.blocks) (row rowid).block_uuid
    then none
    else some (record db { blocks = db.blocks ++ row rowid ∷ [] }, rowid)

-- `SELECT b.block_uuid, p.file_path FROM blocks b JOIN pages p …` over the given uuids.
unfoldable pub path_of_page : ℕ → List PageRow → Option Text
path_of_page page_id [] = none
path_of_page page_id (p ∷ ps) =
    if p.page_id == page_id then some p.file_path else path_of_page page_id ps

unfoldable pub owners_from : List PageRow → List Text → List BlockRow → List (Text × Text)
owners_from pages uuids [] = []
owners_from pages uuids (b ∷ bs) =
    let rest = owners_from pages uuids bs in
    if contains uuids b.block_uuid
    then elim (path_of_page b.page_id pages) [
      | none ↦ rest
      | some path ↦ (b.block_uuid, path) ∷ rest
    ]
    else rest

unfoldable pub owners : List Text → Db → List (Text × Text)
unfolding owners_from path_of_page
owners uuids db = owners_from db.pages uuids db.blocks
