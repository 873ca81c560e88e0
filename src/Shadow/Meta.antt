-- ===== src/Shadow/Meta.antt =====
-- The statements on `shadow_meta` (src/shadow/meta.py).
use matryca_plumber.Prelude.{
  ℕ, ◌+◌, ◌≡◌, refl, ◌∙◌, Option, none, some, List, [], ◌∷◌, ◌==◌, arith, if◌then◌else◌,
}
use matryca_plumber.Prelude.Text.{Text, is_empty, text_eq}
use matryca_plumber.Prelude.Dict
use matryca_plumber.Prelude.Dict.{Dict}
use matryca_plumber.Prelude.Decimal.{int_of, str, clamp_zero}
use matryca_plumber.Shadow.Database.{Db, shadow_schema_version}
use matryca_plumber.Shadow.Key

abbrev pub required_meta_keys : List Text
required_meta_keys =
    Key.schema_version ∷ Key.generation ∷ Key.last_full_sync_at ∷ Key.last_full_sync_completed
    ∷ Key.source_page_count ∷ Key.indexed_page_count ∷ Key.quarantined_page_count
    ∷ Key.last_sync_error ∷ Key.last_incremental_sync_at ∷ []

unfoldable pub get_meta : Text → Db → Option Text
get_meta key db = Dict.get key db.shadow_meta

-- The upsert.
unfoldable pub set_meta : Text → Text → Db → Db
set_meta key value db = record db { shadow_meta = Dict.insert key value db.shadow_meta }

-- `INSERT OR IGNORE` of the empty text.
insert_or_ignore : Text → Db → Db
insert_or_ignore key db = elim (Dict.get key db.shadow_meta) [
  | none ↦ record db { shadow_meta = Dict.insert key [] db.shadow_meta }
  | some _ ↦ db
]

insert_defaults : List Text → Db → Db
insert_defaults [] db = db
insert_defaults (key ∷ more) db = insert_defaults more (insert_or_ignore key db)

unfoldable pub ensure_meta_defaults : Db → Db
unfolding insert_defaults insert_or_ignore
ensure_meta_defaults db =
    set_meta Key.schema_version (str shadow_schema_version) (insert_defaults required_meta_keys db)

unfoldable pub current_generation : Db → ℕ
current_generation db = elim (get_meta Key.generation db) [
  | none ↦ 0
  | some raw ↦ if is_empty raw then 0 else elim (int_of raw) [ none ↦ 0 | some z ↦ clamp_zero z ]
]

-- The new database and the generation that is returned.
unfoldable pub bump_generation : Db → Db × ℕ
bump_generation db =
    let generation = current_generation db + 1 in
    (set_meta Key.generation (str generation) db, generation)

pub get_meta-set_meta :
    (key other value : Text) (db : Db)
    → get_meta other (set_meta key value db)
      ≡ (if key == other then some value else get_meta other db)
unfolding get_meta set_meta
get_meta-set_meta key other value db = Dict.get-insert key other value db.shadow_meta

ignore-tables :
    (key : Text) (db : Db)
    → ((insert_or_ignore key db).pages ≡ db.pages) × ((insert_or_ignore key db).blocks ≡ db.blocks)
unfolding insert_or_ignore
ignore-tables key db = ground arith

defaults-tables :
    (keys : List Text) (db : Db)
    → ((insert_defaults keys db).pages ≡ db.pages) × ((insert_defaults keys db).blocks ≡ db.blocks)
unfolding insert_defaults
defaults-tables [] db = (refl, refl)
defaults-tables (key ∷ more) db =
    let seeded = ignore-tables key db in
    let rest = defaults-tables more (insert_or_ignore key db) in
    (rest.0 ∙ seeded.0, rest.1 ∙ seeded.1)

-- The seeds of the metadata leave the tables alone.
pub ensure-tables :
    (db : Db)
    → ((ensure_meta_defaults db).pages ≡ db.pages) × ((ensure_meta_defaults db).blocks ≡ db.blocks)
unfolding ensure_meta_defaults set_meta
ensure-tables db = defaults-tables required_meta_keys db
