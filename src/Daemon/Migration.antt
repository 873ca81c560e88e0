-- ===== src/Daemon/Migration.antt =====
-- The migration of the ledger's keys loses no record that has a place.
use matryca_plumber.Prelude.{
  ◌≡◌, refl, ap, ◌∙◌, Bool, true, false, Option, none, some, ◌==◌, arith, if◌then◌else◌, [], ◌∷◌,
  ==_refl, ==_iff, Bool-cases, inl, inr, some_inj, subst,
}
use matryca_plumber.Prelude.Text.{Text, text_eq, is_empty}
use matryca_plumber.Prelude.Dict
use matryca_plumber.Prelude.Dict.{Dict}
use matryca_plumber.Daemon.Ledger.{
  FileState, DaemonState, merge_file_state, merged_with, is_some, migrate,
  normalize_daemon_state_file_keys,
}
use matryca_plumber.Daemon.Merge.{outranks, outranks_refl, outranks_trans, merge-greatest}

-- A record at the key that is at least as good.
pub record Keeps (d : Dict Text FileState) (key : Text) (rec : FileState) : Type 0 where
  pub kept : FileState
  pub found : Dict.get key d ≡ some kept
  pub as_good : outranks kept rec ≡ true

Keeps-better :
    {d : Dict Text FileState} {key : Text} (rec better : FileState)
    → outranks better rec ≡ true
    → Keeps d key better
    → Keeps d key rec
Keeps-better rec better h k = record {
  kept = k.kept;
  found = k.found;
  as_good = outranks_trans k.kept better rec k.as_good h;
}

merged-as_good :
    (known : Option FileState) (old rec : FileState)
    → known ≡ some old
    → outranks (merged_with known rec) old ≡ true
merged-as_good none old rec h = cc
merged-as_good (some older) old rec h =
    subst (λ o. outranks (merge_file_state older rec) o ≡ true) (some_inj h)
      (merge-greatest older rec).1

merged-new :
    (known : Option FileState) (rec : FileState) → outranks (merged_with known rec) rec ≡ true
merged-new none rec = outranks_refl rec
merged-new (some old) rec = (merge-greatest old rec).2

normal_if :
    (known normal changed : Bool)
    → (if known then true else (if normal then changed else true)) ≡ false
    → normal ≡ true
normal_if known normal changed h = ground arith

module _ (normalize : Text → Text) where
  -- What the loop has collected is kept.
  collected-Keeps :
      (more migrated : Dict Text FileState) (changed : Bool) (key : Text) (old : FileState)
      → Dict.get key migrated ≡ some old
      → Keeps (migrate normalize migrated changed more).0 key old
  unfolding migrate
  collected-Keeps [] migrated changed key old h = record {
    kept = old;
    found = h;
    as_good = outranks_refl old;
  }
  collected-Keeps ((k, rec) ∷ more) migrated changed key old h =
      elim (Bool-cases (is_empty (normalize k))) [
        | inl empty ↦ simp empty (collected-Keeps more migrated true key old h)
        | inr place ↦ simp place (elim (Bool-cases (normalize k == key)) [
          | inl same ↦
              let known = Dict.get (normalize k) migrated in
              let is_old : known ≡ some old =
                ap (λ j. Dict.get j migrated) ((==_iff (normalize k) key).0 same) ∙ h in
              Keeps-better old (merged_with known rec) (merged-as_good known old rec is_old) (
                collected-Keeps more _ _ key (merged_with known rec) (
                  Dict.get-insert (normalize k) key (merged_with known rec) migrated
                  ∙ simp same refl))
          | inr other ↦
              collected-Keeps more _ _ key old
                (Dict.get-insert (normalize k) key _ migrated ∙ simp other h)
        ])
      ]

  -- What the loop meets is kept at its new key.
  handled-Keeps :
      (more migrated : Dict Text FileState) (changed : Bool) (key : Text) (rec : FileState)
      → Dict.get key more ≡ some rec
      → is_empty (normalize key) ≡ false
      → Keeps (migrate normalize migrated changed more).0 (normalize key) rec
  unfolding migrate Dict.get
  handled-Keeps [] migrated changed key rec h place = cc
  handled-Keeps ((k, r) ∷ more) migrated changed key rec h place = elim (Bool-cases (k == key)) [
    | inl same ↦
        let e : k ≡ key = (==_iff k key).0 same in
        let known = Dict.get (normalize k) migrated in
        let better : outranks (merged_with known r) rec ≡ true =
          subst (λ x. outranks (merged_with known r) x ≡ true) (some_inj (simp same at h))
            (merged-new known r) in
        let kept : is_empty (normalize k) ≡ false = ap (λ j. is_empty (normalize j)) e ∙ place in
        subst (λ j. Keeps (migrate normalize migrated changed ((k, r) ∷ more)).0 (normalize j) rec)
          e
          (simp kept (
            Keeps-better rec (merged_with known r) better (
              collected-Keeps more _ _ (normalize k) (merged_with known r) (
                Dict.get-insert (normalize k) (normalize k) (merged_with known r) migrated
                ∙ simp (==_refl (normalize k)) refl))))
    | inr other ↦
        let later : Dict.get key more ≡ some rec = simp other at h in
        elim (Bool-cases (is_empty (normalize k))) [
          | inl empty ↦ simp empty (handled-Keeps more migrated true key rec later place)
          | inr kept ↦ simp kept (handled-Keeps more _ _ key rec later place)
        ]
  ]

  unchanged_before :
      (more migrated : Dict Text FileState) (changed : Bool)
      → (migrate normalize migrated changed more).1 ≡ false
      → changed ≡ false
  unfolding migrate
  unchanged_before [] migrated changed e = e
  unchanged_before ((k, r) ∷ more) migrated changed e = elim (Bool-cases (is_empty (normalize k))) [
    | inl empty ↦ cc (unchanged_before more migrated true (simp empty at e))
    | inr kept ↦ ground (arith, unchanged_before more _ _ (simp kept at e))
  ]

  -- Without a change every key is normal.
  unchanged-normal :
      (more migrated : Dict Text FileState) (changed : Bool) (key : Text) (rec : FileState)
      → (migrate normalize migrated changed more).1 ≡ false
      → Dict.get key more ≡ some rec
      → normalize key ≡ key
  unfolding migrate Dict.get
  unchanged-normal [] migrated changed key rec e h = cc
  unchanged-normal ((k, r) ∷ more) migrated changed key rec e h =
      elim (Bool-cases (is_empty (normalize k))) [
        | inl empty ↦ cc (unchanged_before more migrated true (simp empty at e))
        | inr kept ↦ elim (Bool-cases (k == key)) [
          | inl same ↦
              let normal =
                normal_if (is_some (Dict.get (normalize k) migrated)) (normalize k == k) changed
                  (unchanged_before more _ _ (simp kept at e)) in
              subst (λ j. normalize j ≡ j) ((==_iff k key).0 same)
                ((==_iff (normalize k) k).0 normal)
          | inr other ↦ unchanged-normal more _ _ key rec (simp kept at e) (simp other at h)
        ]
      ]

  -- Every record whose key has a normal form is kept at that form: the record there is it, or one
  -- of a higher status priority, or of the same priority and not older.
  pub migration-Keeps :
      (state : DaemonState) (key : Text) (rec : FileState)
      → Dict.get key state.files ≡ some rec
      → is_empty (normalize key) ≡ false
      → Keeps (normalize_daemon_state_file_keys normalize state).0.files (normalize key) rec
  unfolding normalize_daemon_state_file_keys
  migration-Keeps state key rec h place =
      elim (Bool-cases (migrate normalize [] false state.files).1) [
        | inl changed ↦ simp changed (handled-Keeps state.files [] false key rec h place)
        | inr same ↦ simp same (record {
          kept = rec;
          found =
              ap (λ k. Dict.get k state.files)
                (unchanged-normal state.files [] false key rec same h)
              ∙ h;
          as_good = outranks_refl rec;
        })
      ]
