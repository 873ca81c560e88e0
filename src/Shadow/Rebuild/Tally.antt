-- ===== src/Shadow/Rebuild/Tally.antt =====
-- The account of a rebuild: every source path that was handled is a page or is parked.
use matryca_plumber.Prelude.{
  ℕ, ◌+◌, ◌≡◌, refl, ap, ◌∙◌, Bool, true, false, not, none, some, List, [], ◌∷◌, ◌++◌, ◌==◌, All,
  All-map, contains, contains-map, length, arith, map, Bool-cases, inl, inr, subst, ==_iff,
}
use matryca_plumber.Prelude.Text.{Text, text_eq}
use matryca_plumber.Prelude.Dict
use matryca_plumber.Prelude.Dict.{Dict}
use matryca_plumber.Graph.PagePath.{page_title_from_graph_relpath}
use matryca_plumber.Shadow.Database.{Db, PageRow}
use matryca_plumber.Shadow.Outline.{FlatBlock, walk_blocks, ParsedPage, SourceFile}
use matryca_plumber.Shadow.Quarantine.{quarantine_rows, clear_quarantined_page}
use matryca_plumber.Shadow.Tables.{delete_pages, insert_page, at_path, at_path_or_title}
use matryca_plumber.Shadow.Sync.{
  Graph, is_file, ok, >>=-ok, insert_blocks, preflight_block_uuids, page_row, upsert_page,
}
use matryca_plumber.Shadow.Rebuild.Frames.{
  insert_blocks-SameFrame, preflight-HasFiles, delete_pages-none, delete_pages-frame,
}

abbrev pub title_of : Text → Text
title_of = page_title_from_graph_relpath

-- A page of a path that was handled, under its title, with a file.
pub record IsKnown (graph : Graph) (done : List Text) (p : PageRow) : Type 0 where
  pub handled : contains done p.file_path ≡ true
  pub titled : p.title ≡ title_of p.file_path
  pub on_disk : is_file graph p.file_path ≡ true

pub record Tally (graph : Graph) (done : List Text) (indexed : ℕ) (db : Db) : Type 0 where
  pub counted : length db.pages ≡ indexed
  pub accounted : length (quarantine_rows db) + indexed ≡ length done
  pub known : All (IsKnown graph done) db.pages
  pub parked : All (λ k. contains done k ≡ true) (Dict.keys (quarantine_rows db))
  pub tabled : db.quarantined_pages ≡ some (quarantine_rows db)

-- A path whose turn has come: not handled before, and no handled path has its title.
pub record IsFresh (done : List Text) (rel : Text) : Type 0 where
  pub new_path : contains done rel ≡ false
  pub new_title : contains (map title_of done) (title_of rel) ≡ false

-- The insertion of a page and its blocks behind a deletion that selects no page.
module _ (selected : PageRow → Bool) (row : ℕ → PageRow) (now : Text) (flat : List FlatBlock)
    (db db' : Db) where
  abbrev after_insert : Db × ℕ
  after_insert = insert_page row (delete_pages selected db)

  insert_effect :
      All (λ p. not (selected p) ≡ true) db.pages
      → insert_blocks after_insert.1 now [] flat after_insert.0 ≡ ok db'
      → (id : ℕ) × (db'.pages ≡ db.pages ++ row id ∷ [])
        × (db'.quarantined_pages ≡ db.quarantined_pages)
        × (db'.shadow_meta ≡ db.shadow_meta)
  unfolding insert_page
  insert_effect none_selected e =
      let frame = insert_blocks-SameFrame after_insert.1 now [] flat after_insert.0 db' e in
      let kept = delete_pages-none selected db none_selected in
      let same = delete_pages-frame selected db in
      (
        after_insert.1,
        frame.pages ∙ ap (λ ps. ps ++ row after_insert.1 ∷ []) kept,
        frame.parked ∙ same.1,
        frame.meta ∙ same.0,
      )

module _ (graph : Graph) (done : List Text) (rel : Text) (fresh : IsFresh done rel) where
  differs_path : (path : Text) → contains done path ≡ true → (path == rel) ≡ false
  differs_path path h = elim (Bool-cases (path == rel)) [
    | inl same ↦
        let e : path ≡ rel = (==_iff path rel).0 same in
        cc (subst (λ t. contains done t ≡ true) e h, fresh.new_path)
    | inr other ↦ other
  ]

  differs_title :
      (path : Text) → contains done path ≡ true → (title_of path == title_of rel) ≡ false
  differs_title path h = elim (Bool-cases (title_of path == title_of rel)) [
    | inl same ↦
        let e : title_of path ≡ title_of rel = (==_iff (title_of path) (title_of rel)).0 same in
        cc (
          subst (λ t. contains (map title_of done) t ≡ true) e (contains-map title_of done path h),
          fresh.new_title,
        )
    | inr other ↦ other
  ]

  pub kept_at_path : (p : PageRow) → IsKnown graph done p → not (at_path rel p) ≡ true
  kept_at_path p k = rw (differs_path p.file_path k.handled)

  pub kept_at_title :
      (p : PageRow) → IsKnown graph done p → not (at_path_or_title rel (title_of rel) p) ≡ true
  kept_at_title p k =
      rw (differs_path p.file_path k.handled, k.titled, differs_title p.file_path k.handled)

  pub parked_later : (k : Text) → contains done k ≡ true → contains (rel ∷ done) k ≡ true
  parked_later k h = ground arith

  pub IsKnown-later : (p : PageRow) → IsKnown graph done p → IsKnown graph (rel ∷ done) p
  IsKnown-later p k = record {
    handled = parked_later p.file_path k.handled;
    titled = k.titled;
    on_disk = k.on_disk;
  }

  pub not_parked :
      {indexed : ℕ} (db : Db)
      → Tally graph done indexed db
      → contains (Dict.keys (quarantine_rows db)) rel ≡ false
  not_parked db t = absent (Dict.keys (quarantine_rows db)) t.parked
    where
      absent : (ks : List Text) → All (λ k. contains done k ≡ true) ks → contains ks rel ≡ false
      absent [] h = refl
      absent (k ∷ ks) h = rw (differs_path k h.0) (absent ks h.1)

  -- A page that was parsed: one more row of `pages`, the others and the parked ones as before.
  module _ (now : Text) (file : SourceFile) (page : ParsedPage) {indexed : ℕ} (db db' : Db)
      (t : Tally graph done indexed db)
      (done_ok : upsert_page graph now rel file page db ≡ ok db') where
    pub upsert_effect :
        (id : ℕ) × (db'.pages ≡ db.pages ++ page_row rel file page now id ∷ [])
        × (db'.quarantined_pages ≡ some (quarantine_rows db))
        × (db'.shadow_meta ≡ db.shadow_meta)
    unfolding upsert_page clear_quarantined_page
    upsert_effect =
        let flat = walk_blocks page.root_nodes none 0 in
        let cleared = clear_quarantined_page rel db in
        let selected = at_path_or_title rel (title_of rel) in
        let row = page_row rel file page now in
        let (checked, e1, e2) = >>=-ok (preflight_block_uuids graph flat rel cleared) _ done_ok in
        let same : checked ≡ cleared =
          preflight-HasFiles graph flat rel cleared checked
            (All-map (IsKnown graph done) (λ p. is_file graph p.file_path ≡ true) db.pages
              (λ p k. k.on_disk) t.known)
            e1 in
        let (id, pages, parked, meta) =
          insert_effect selected row now flat cleared db'
            (All-map (IsKnown graph done) (λ p. not (selected p) ≡ true) db.pages kept_at_title
              t.known)
            (subst
              (λ c.
                insert_blocks (after_insert selected row now flat c db').1 now [] flat
                  (after_insert selected row now flat c db').0
                ≡ ok db')
              same e2) in
        (
          id,
          pages,
          parked ∙ ap some (Dict.remove-absent rel (quarantine_rows db) (not_parked db t)),
          meta,
        )
