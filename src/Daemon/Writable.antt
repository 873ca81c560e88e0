-- ===== src/Daemon/Writable.antt =====
-- The migration of the keys keeps a state that can be written as JSON and read back.
use matryca_plumber.Prelude.{
  ◌≡◌, refl, inl, inr, Bool, true, false, Option, none, some, [], ◌∷◌, All, ◌==◌, Bool-cases,
  some_inj, subst, ltb, if◌then◌else◌,
}
use matryca_plumber.Prelude.Text.{Text, text_eq, is_empty}
use matryca_plumber.Prelude.Dict
use matryca_plumber.Prelude.Sort.{text_leb}
use matryca_plumber.Prelude.Dict.{Dict}
use matryca_plumber.Prelude.Unique.{IsUnique, insert-IsUnique}
use matryca_plumber.Daemon.Ledger.{
  priority, FileState, DaemonState, merge_file_state, merged_with, migrate,
  normalize_daemon_state_file_keys,
}
use matryca_plumber.Daemon.RoundTrip.{IsWritable, IsWritableRecord}

if-both {ℓ κ} :
    {A : Type ℓ} (P : A → Type κ) (b : Bool) {x y : A} → P x → P y → P (if b then x else y)
if-both P true h k = h
if-both P false h k = k

merge-IsWritableRecord :
    (a b : FileState)
    → IsWritableRecord a
    → IsWritableRecord b
    → IsWritableRecord (merge_file_state a b)
unfolding merge_file_state
merge-IsWritableRecord a b h k =
    if-both IsWritableRecord (ltb (priority a.status) (priority b.status)) k (
      if-both IsWritableRecord (ltb (priority b.status) (priority a.status)) h (
        if-both IsWritableRecord (ltb a.mtime b.mtime) k (
          if-both IsWritableRecord (ltb b.mtime a.mtime) h
            (if-both IsWritableRecord (text_leb a.processed_at b.processed_at) k h))))

abbrev AllWritable : Dict Text FileState → Type 0
AllWritable = All (λ (entry : Text × FileState). IsWritableRecord entry.1)

get-IsWritableRecord :
    (key : Text) (d : Dict Text FileState) {rec : FileState}
    → AllWritable d
    → Dict.get key d ≡ some rec
    → IsWritableRecord rec
unfolding Dict.get
get-IsWritableRecord key [] all h = absurd (cc h)
get-IsWritableRecord key ((k, r) ∷ d) all h = elim (Bool-cases (k == key)) [
  | inl same ↦ subst IsWritableRecord (some_inj (simp same at h)) all.0
  | inr other ↦ get-IsWritableRecord key d all.1 (simp other at h)
]

insert-AllWritable :
    (key : Text) (rec : FileState) (d : Dict Text FileState)
    → IsWritableRecord rec
    → AllWritable d
    → AllWritable (Dict.insert key rec d)
unfolding Dict.insert
insert-AllWritable key rec [] w all = (w, tt)
insert-AllWritable key rec ((k, r) ∷ d) w all =
    if-both AllWritable (k == key) (w, all.1) (all.0, insert-AllWritable key rec d w all.1)

merged-IsWritableRecord :
    (known : Option FileState) (rec : FileState)
    → ((old : FileState) → known ≡ some old → IsWritableRecord old)
    → IsWritableRecord rec
    → IsWritableRecord (merged_with known rec)
merged-IsWritableRecord none rec h w = w
merged-IsWritableRecord (some old) rec h w = merge-IsWritableRecord old rec (h old refl) w

module _ (normalize : Text → Text) where
  migrate-IsUnique :
      (more migrated : Dict Text FileState) (changed : Bool)
      → IsUnique migrated
      → IsUnique (migrate normalize migrated changed more).0
  unfolding migrate
  migrate-IsUnique [] migrated changed u = u
  migrate-IsUnique ((key, rec) ∷ more) migrated changed u =
      if-both (λ (r : Dict Text FileState × Bool). IsUnique r.0) (is_empty (normalize key))
        (migrate-IsUnique more migrated true u)
        (migrate-IsUnique more _ _ (insert-IsUnique (normalize key) _ migrated u))

  migrate-AllWritable :
      (more migrated : Dict Text FileState) (changed : Bool)
      → AllWritable migrated
      → AllWritable more
      → AllWritable (migrate normalize migrated changed more).0
  unfolding migrate
  migrate-AllWritable [] migrated changed all rest = all
  migrate-AllWritable ((key, rec) ∷ more) migrated changed all rest =
      if-both (λ (r : Dict Text FileState × Bool). AllWritable r.0) (is_empty (normalize key))
        (migrate-AllWritable more migrated true all rest.1)
        (migrate-AllWritable more _ _
          (insert-AllWritable (normalize key) _ migrated
            (merged-IsWritableRecord (Dict.get (normalize key) migrated) rec
              (λ old e. get-IsWritableRecord (normalize key) migrated all e) rest.0)
            all)
          rest.1)

  pub normalize-IsWritable :
      (state : DaemonState)
      → IsWritable state
      → IsWritable (normalize_daemon_state_file_keys normalize state).0
  unfolding normalize_daemon_state_file_keys
  normalize-IsWritable state w =
      if-both IsWritable (migrate normalize [] false state.files).1
        (record {
          files = migrate-IsUnique state.files [] false tt;
          records = migrate-AllWritable state.files [] false tt w.records;
          recent = w.recent;
          reason = w.reason;
          cluster = w.cluster;
        })
        w
