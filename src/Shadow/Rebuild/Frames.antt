-- ===== src/Shadow/Rebuild/Frames.antt =====
-- What the steps of one page's synchronisation leave alone (src/shadow/sync.py).
use matryca_plumber.Prelude.{
  ℕ, ◌≡◌, refl, sym, ap, ◌∙◌, Bool, true, false, not, Option, none, some, List, [], ◌∷◌, ◌==◌, All,
  keep-All, contains, arith, if◌then◌else◌, Bool-cases, Option-cases, inl, inr, subst, some_inj,
  nat_eq,
}
use matryca_plumber.Prelude.Text.{Text, text_eq}
use matryca_plumber.Prelude.Dict
use matryca_plumber.Prelude.Sort.{sorted, text_leb}
use matryca_plumber.Prelude.Dict.{Dict}
use matryca_plumber.Shadow.Database.{Db, PageRow, BlockRow}
use matryca_plumber.Shadow.Outline.{FlatBlock}
use matryca_plumber.Shadow.Tables.{insert_block, delete_pages, owners, path_of_page, owners_from}
use matryca_plumber.Shadow.Sync.{
  Graph, is_file, ok, insert_blocks, stale_owners, preflight_block_uuids, seen_on_page,
  delete_paths, ok_inj, block_row, parent_rowid_of, >>=-ok,
}

-- The tables other than `blocks` are the same.
pub record SameFrame (a b : Db) : Type 0 where
  pub meta : b.shadow_meta ≡ a.shadow_meta
  pub pages : b.pages ≡ a.pages
  pub parked : b.quarantined_pages ≡ a.quarantined_pages

pub SameFrame-refl : (a : Db) → SameFrame a a
SameFrame-refl a = record { meta = refl; pages = refl; parked = refl }

SameFrame-trans : {a b c : Db} → SameFrame a b → SameFrame b c → SameFrame a c
SameFrame-trans h k = record {
  meta = k.meta ∙ h.meta;
  pages = k.pages ∙ h.pages;
  parked = k.parked ∙ h.parked;
}

insert_block-SameFrame :
    (row : ℕ → BlockRow) (db : Db) {db' : Db} {rowid : ℕ}
    → insert_block row db ≡ some (db', rowid)
    → SameFrame db db'
unfolding insert_block
insert_block-SameFrame row db h = ground arith

-- Inserting the blocks changes no other table.
pub insert_blocks-SameFrame :
    (page_id : ℕ) (synced_at : Text) (seen : Dict Text ℕ) (flat : List FlatBlock) (db : Db)
    (db' : Db)
    → insert_blocks page_id synced_at seen flat db ≡ ok db'
    → SameFrame db db'
unfolding insert_blocks
insert_blocks-SameFrame page_id synced_at seen [] db db' h =
    subst (SameFrame db) (ok_inj h) (SameFrame-refl db)
insert_blocks-SameFrame page_id synced_at seen (b ∷ more) db db' h =
    let row = block_row page_id synced_at b (parent_rowid_of seen b.parent_uuid) in
    elim (Option-cases (insert_block row db)) [
      | inl refused ↦ cc (refused, h)
      | inr ((db1, rowid), e) ↦ SameFrame-trans (insert_block-SameFrame row db e) (
          insert_blocks-SameFrame page_id synced_at (Dict.insert b.block_uuid rowid seen) more db1
            db' (rw (e, insert_blocks) at h))
    ]

-- Every page has a file.
abbrev pub HasFiles : Graph → List PageRow → Type 0
HasFiles graph = All (λ p. is_file graph p.file_path ≡ true)

path_of_page-HasFiles :
    (graph : Graph) (id : ℕ) (pages : List PageRow) (path : Text)
    → HasFiles graph pages
    → path_of_page id pages ≡ some path
    → is_file graph path ≡ true
unfolding path_of_page
path_of_page-HasFiles graph id [] path h e = cc
path_of_page-HasFiles graph id (p ∷ ps) path h e = elim (Bool-cases (p.page_id == id)) [
  | inl same ↦ subst (λ t. is_file graph t ≡ true) (some_inj (rw same at e)) h.0
  | inr other ↦ path_of_page-HasFiles graph id ps path h.1 (rw other at e)
]

-- An owner of a uuid is the path of a page.
owners_from-HasFiles :
    (graph : Graph) (pages : List PageRow) (uuids : List Text) (bs : List BlockRow)
    → HasFiles graph pages
    → All (λ o. is_file graph o.1 ≡ true) (owners_from pages uuids bs)
unfolding owners_from
owners_from-HasFiles graph pages uuids [] h = tt
owners_from-HasFiles graph pages uuids (b ∷ bs) h =
    split (contains uuids b.block_uuid) (path_of_page b.page_id pages) refl
      (owners_from-HasFiles graph pages uuids bs h)
  where
    split :
        (wanted : Bool) (found : Option Text)
        → path_of_page b.page_id pages ≡ found
        → All (λ o. is_file graph o.1 ≡ true) (owners_from pages uuids bs)
        → All
            (λ o. is_file graph o.1 ≡ true)
            (if wanted
              then elim found [
                | none ↦ owners_from pages uuids bs
                | some path ↦ (b.block_uuid, path) ∷ owners_from pages uuids bs
              ]
              else owners_from pages uuids bs)
    split false found e ih = ih
    split true none e ih = ih
    split true (some path) e ih = (path_of_page-HasFiles graph b.page_id pages path h e, ih)

-- An owner with a file is an error or the page itself: none is stale.
stale_owners-nil :
    (graph : Graph) (rel : Text) (os : List (Text × Text)) (stale : List Text)
    → All (λ o. is_file graph o.1 ≡ true) os
    → stale_owners graph rel [] os ≡ ok stale
    → stale ≡ []
unfolding stale_owners
stale_owners-nil graph rel [] stale h e = sym (ok_inj e)
stale_owners-nil graph rel ((uuid, other) ∷ os) stale h e = elim (Bool-cases (other == rel)) [
  | inl same ↦ stale_owners-nil graph rel os stale h.1 (rw (same, stale_owners) at e)
  | inr differs ↦ cc (rw (differs, h.0, stale_owners) at e)
]

-- Where every page has a file, the preflight changes nothing.
pub preflight-HasFiles :
    (graph : Graph) (flat : List FlatBlock) (rel : Text) (db : Db) (db' : Db)
    → HasFiles graph db.pages
    → preflight_block_uuids graph flat rel db ≡ ok db'
    → db' ≡ db
unfolding preflight_block_uuids owners delete_paths sorted
preflight-HasFiles graph [] rel db db' h e = sym (ok_inj e)
preflight-HasFiles graph (b ∷ flat) rel db db' h e =
    let (seen, _, e1) = >>=-ok (seen_on_page rel [] (b ∷ flat)) _ e in
    let (stale, e2, e3) = >>=-ok (stale_owners graph rel [] (owners seen db)) _ e1 in
    let none_stale : stale ≡ [] =
      stale_owners-nil graph rel (owners seen db) stale
        (owners_from-HasFiles graph db.pages seen db.blocks h) e2 in
    sym (ok_inj e3) ∙ ap (λ l. delete_paths (sorted text_leb l) db) none_stale

-- A title and path that no page has: the deletion before the insertion keeps every page.
abbrev pub IsOther : Text → Text → PageRow → Type 0
IsOther rel title p = ((p.file_path == rel) ≡ false) × ((p.title == title) ≡ false)

pub delete_pages-none :
    (selected : PageRow → Bool) (db : Db)
    → All (λ p. not (selected p) ≡ true) db.pages
    → (delete_pages selected db).pages ≡ db.pages
unfolding delete_pages
delete_pages-none selected db h = keep-All (λ p. not (selected p)) db.pages h

pub delete_pages-frame :
    (selected : PageRow → Bool) (db : Db)
    → ((delete_pages selected db).shadow_meta ≡ db.shadow_meta)
      × ((delete_pages selected db).quarantined_pages ≡ db.quarantined_pages)
unfolding delete_pages
delete_pages-frame selected db = (refl, refl)
