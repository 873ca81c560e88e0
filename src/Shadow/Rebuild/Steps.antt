-- ===== src/Shadow/Rebuild/Steps.antt =====
-- Each source path adds one to the account, and the loop over them adds all.
use matryca_plumber.Prelude.{
  ℕ, ◌+◌, ◌≡◌, refl, sym, ap, ◌∙◌, Bool, true, false, not, Option, none, some, List, [], ◌∷◌, ◌++◌,
  All, All-append, All-map, contains, length, length-append, arith, Option-cases, inl, inr, subst,
  ==_refl,
}
use matryca_plumber.Prelude.Text.{Text, text_eq}
use matryca_plumber.Prelude.Dict
use matryca_plumber.Prelude.Dict.{Dict}
use matryca_plumber.Graph.PagePath.{is_markdown}
use matryca_plumber.Shadow.Database.{Db, QuarantineRow}
use matryca_plumber.Shadow.Outline.{
  ParseFailure, ParsedPage, ParseResult, parsed, failed, SourceFile,
}
use matryca_plumber.Shadow.Quarantine.{quarantine_rows, record_quarantined_page}
use matryca_plumber.Shadow.Tables.{delete_pages, at_path}
use matryca_plumber.Shadow.Sync.{
  Graph, is_file, ok, ok_inj, >>=-ok, page_row, upsert_page, park_page, sync_file,
  sync_page_into_connection,
}
use matryca_plumber.Shadow.Bootstrap.{count_if, index_pages}
use matryca_plumber.Shadow.Rebuild.Frames.{delete_pages-none}
use matryca_plumber.Shadow.Rebuild.Tally.{
  IsKnown, Tally, IsFresh, IsKnown-later, parked_later, kept_at_path, not_parked, upsert_effect,
}

-- The account after one more path, and the metadata as before.
abbrev pub Advanced : Graph → List Text → Text → ℕ → Db → Bool × Db → Type 0
Advanced graph done rel indexed db (present, db') =
    Tally graph (rel ∷ done) (count_if present indexed) db' × (db'.shadow_meta ≡ db.shadow_meta)

module _ (graph : Graph) (done : List Text) (rel : Text) (fresh : IsFresh done rel)
    (found : is_file graph rel ≡ true) {indexed : ℕ} (db : Db)
    (t : Tally graph done indexed db) where
  IsKnown-then : All (IsKnown graph (rel ∷ done)) db.pages
  IsKnown-then =
      All-map (IsKnown graph done) (IsKnown graph (rel ∷ done)) db.pages
        (IsKnown-later graph done rel fresh) t.known

  parked_then : All (λ k. contains (rel ∷ done) k ≡ true) (Dict.keys (quarantine_rows db))
  parked_then =
      All-map (λ k. contains done k ≡ true) (λ k. contains (rel ∷ done) k ≡ true)
        (Dict.keys (quarantine_rows db)) (parked_later graph done rel fresh) t.parked

  here : contains (rel ∷ done) rel ≡ true
  here = rw (==_refl rel)

  parsed_advances :
      (now : Text) (file : SourceFile) (page : ParsedPage) (db' : Db)
      → upsert_page graph now rel file page db ≡ ok db'
      → Advanced graph done rel indexed db (true, db')
  unfolding page_row
  parsed_advances now file page db' e =
      let (id, pages, table, meta) = upsert_effect graph done rel fresh now file page db db' t e in
      let parked : quarantine_rows db' ≡ quarantine_rows db =
        ap (λ q. elim q [ none ↦ [] | some rows ↦ rows ]) table in
      let row = page_row rel file page now id in
      let new : IsKnown graph (rel ∷ done) row = record {
        handled = here;
        titled = refl;
        on_disk = found;
      } in
      (
        record {
          counted = ap length pages ∙ length-append db.pages (row ∷ []) ∙ ap (λ n. n + 1) t.counted;
          accounted = omega (arith, t.accounted, ap length parked);
          known =
              subst (All (IsKnown graph (rel ∷ done))) (sym pages) (
                All-append (IsKnown graph (rel ∷ done)) db.pages (row ∷ []) IsKnown-then (new, tt));
          parked =
              subst (λ q. All (λ k. contains (rel ∷ done) k ≡ true) (Dict.keys q)) (sym parked)
                parked_then;
          tabled = table ∙ ap some (sym parked);
        },
        meta,
      )

  park_effect :
      (now : Text) (failure : Option ParseFailure)
      → (row : QuarantineRow) × (quarantine_rows (park_page now rel failure db)
          ≡ quarantine_rows db ++ (rel, row) ∷ [])
        × ((park_page now rel failure db).shadow_meta ≡ db.shadow_meta)
        × ((park_page now rel failure db).quarantined_pages
            ≡ some (quarantine_rows (park_page now rel failure db)))
  unfolding park_page record_quarantined_page delete_pages
  park_effect now failure = (
    _,
    Dict.insert-absent rel _ (quarantine_rows db) (not_parked graph done rel fresh db t),
    refl,
    refl,
  )

  park_pages :
      (now : Text) (failure : Option ParseFailure) → (park_page now rel failure db).pages ≡ db.pages
  unfolding park_page record_quarantined_page
  park_pages now failure = delete_pages-none (at_path rel) db (
      All-map (IsKnown graph done) (λ p. not (at_path rel p) ≡ true) db.pages
        (kept_at_path graph done rel fresh) t.known)

  parked_advances :
      (now : Text) (failure : Option ParseFailure)
      → Advanced graph done rel indexed db (false, park_page now rel failure db)
  parked_advances now failure =
      let (row, rows, meta, table) = park_effect now failure in
      let pages = park_pages now failure in
      (
        record {
          counted = ap length pages ∙ t.counted;
          accounted = omega (
            arith,
            t.accounted,
            ap length rows,
            length-append (quarantine_rows db) ((rel, row) ∷ []),
          );
          known = subst (All (IsKnown graph (rel ∷ done))) (sym pages) IsKnown-then;
          parked =
              subst (λ q. All (λ k. contains (rel ∷ done) k ≡ true) (Dict.keys q)) (sym rows)
                (subst (All (λ k. contains (rel ∷ done) k ≡ true))
                  (sym (Dict.keys-append (quarantine_rows db) ((rel, row) ∷ [])))
                  (unfold Dict.keys in
                    All-append (λ k. contains (rel ∷ done) k ≡ true)
                      (Dict.keys (quarantine_rows db)) (rel ∷ []) parked_then (here, tt)));
          tabled = table;
        },
        meta,
      )

  file_advances :
      (quarantine : Bool) (now : Text) (file : SourceFile) (result : ParseResult) (out : Bool × Db)
      → sync_file quarantine graph now rel file result db ≡ ok out
      → Advanced graph done rel indexed db out
  unfolding sync_file
  file_advances quarantine now file (parsed page) out e =
      let (db', e1, e2) = >>=-ok (upsert_page graph now rel file page db) _ e in
      subst (Advanced graph done rel indexed db) (ok_inj e2) (parsed_advances now file page db' e1)
  file_advances true now file (failed failure) out e =
      subst (Advanced graph done rel indexed db) (ok_inj e) (parked_advances now failure)
  file_advances false now file (failed failure) out e = cc

  -- One Markdown file of the graph: it becomes a page or is parked.
  pub sync_advances :
      (quarantine : Bool) (now : Text) (out : Bool × Db)
      → is_markdown rel ≡ true
      → sync_page_into_connection quarantine graph now rel db ≡ ok out
      → Advanced graph done rel indexed db out
  unfolding sync_page_into_connection
  sync_advances quarantine now out markdown e = elim (Option-cases (Dict.get rel graph)) [
    | inl missing ↦ cc (rw (missing, is_file) at found)
    | inr (file, has) ↦
        file_advances quarantine now file file.parse_result out
          (rw (markdown, has, sync_page_into_connection) at e)
  ]

-- The paths of a listing, each with a file, and no two of one path or title.
abbrev pub IsListing : Graph → List Text → List Text → Type 0
IsListing graph done [] = Unit {0}
IsListing graph done (rel ∷ more) =
    (is_markdown rel ≡ true)
    × (is_file graph rel ≡ true)
    × IsFresh done rel
    × IsListing graph (rel ∷ done) more

-- The loop accounts for every path.
pub index_pages-Tally :
    (quarantine : Bool) (graph : Graph) (now : Text) (more done : List Text) (indexed : ℕ) (db : Db)
    (out : ℕ × Db)
    → IsListing graph done more
    → Tally graph done indexed db
    → index_pages quarantine graph now more indexed db ≡ ok out
    → (out.0 ≡ length out.1.pages)
      × (length (quarantine_rows out.1) + out.0 ≡ length done + length more)
      × (out.1.shadow_meta ≡ db.shadow_meta)
      × (out.1.quarantined_pages ≡ some (quarantine_rows out.1))
unfolding index_pages
index_pages-Tally quarantine graph now [] done indexed db out listing t e =
    subst
      (λ (o : ℕ × Db).
        (o.0 ≡ length o.1.pages)
        × (length (quarantine_rows o.1) + o.0 ≡ length done + 0)
        × (o.1.shadow_meta ≡ db.shadow_meta)
        × (o.1.quarantined_pages ≡ some (quarantine_rows o.1)))
      (ok_inj e) (sym t.counted, omega (arith, t.accounted), refl, t.tabled)
index_pages-Tally quarantine graph now (rel ∷ more) done indexed db out listing t e =
    let ((present, db'), e1, e2) =
      >>=-ok (sync_page_into_connection quarantine graph now rel db) _ e in
    let (t', meta) =
      sync_advances graph done rel listing.2 listing.1 db t quarantine now (present, db') listing.0
        e1 in
    let (counted, accounted, meta', table) =
      index_pages-Tally quarantine graph now more (rel ∷ done) (count_if present indexed) db' out
        listing.3 t' e2 in
    (counted, omega (arith, accounted), meta' ∙ meta, table)
