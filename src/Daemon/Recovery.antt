-- ===== src/Daemon/Recovery.antt =====
-- What is loaded after a save, also one that was interrupted or whose primary file was damaged
-- since.
use matryca_plumber.Prelude.{
  ℕ, ◌≡◌, ◌⊎◌, inl, inr, refl, ◌∙◌, Bool, true, false, not, ◌&&◌, Option, none, some, ltb,
  Bool-cases, if◌then◌else◌,
}
use matryca_plumber.Prelude.Text.{text}
use matryca_plumber.Graph.WritePolicy.{
  Outcome, returned, raised, read_only_error, bad_token, guard_graph_mutation, is_graph_read_only,
}
use matryca_plumber.Daemon.Json.{Fields}
use matryca_plumber.Daemon.Ledger.{DaemonState, normalize_daemon_state_file_keys}
use matryca_plumber.Daemon.Checkpoint.{to_json, fields_to_json}
use matryca_plumber.Daemon.RoundTrip.{IsWritable, from_json-to_json}
use matryca_plumber.Daemon.Writable.{normalize-IsWritable}
use matryca_plumber.Daemon.Storage.{
  is_file, Codec, Disk, Answers, Setup, SaveResult, saved, state_of, read_bounded_json,
  read_daemon_state_payload, load_daemon_state, save_daemon_state, guarded_save, recovered,
  from_backup, from_primary,
}

failed-ne-saved : SaveResult.failed ≡ saved → ⊥
failed-ne-saved h = cc h

if-same {ℓ κ} :
    {A : Type ℓ} {B : Type κ} (b : Bool) (x y : A) (z : B) (p q : A × B)
    → p.1 ≡ q.1
    → (if b then (x, z) else p).1 ≡ (if b then (y, z) else q).1
if-same true x y z p q h = refl
if-same false x y z p q h = h

and-false : (b : Bool) → (b && false) ≡ false
and-false true = refl
and-false false = refl

-- What a disk is after a save on answers `a`, when it is loaded on answers `l`: the primary file
-- is as saved and one of two reads of it succeeds; or it cannot be read for a payload, whatever
-- happened to it, and the backup is as saved, by a copy that did not fail, is readable, and the
-- setting is no bad token.
pub data Aftermath {C : Type 0} (codec : Codec C) (setup : Setup) (a l : Answers C)
    (after disk : Disk C) : Type 0 where
  primary_kept :
      disk.primary ≡ after.primary
      → l.primary_fails 0 && l.primary_fails 1 ≡ false
      → Aftermath codec setup a l after disk
  backup_kept :
      (read_only : Bool)
      → read_daemon_state_payload codec setup l.primary_fails disk.primary ≡ none
      → a.failed_copy ≡ none
      → disk.backup ≡ after.backup
      → l.backup_fails 0 && l.backup_fails 1 ≡ false
      → is_graph_read_only setup.env ≡ returned read_only
      → Aftermath codec setup a l after disk

-- The disk at any moment of a save of `c` that began at `before`; a file that is being written
-- holds any content.
pub data Interrupted {C : Type 0} (c : C) (before : Disk C) : Disk C → Type 0 where
  not_begun : Interrupted c before before
  writing : (part : Option C) → Interrupted c before (record before { temporary = part })
  copying :
      (part : Option C)
      → Interrupted c before (record { primary = some c; backup = part; temporary = none })

module _ {C : Type 0} (codec : Codec C) (setup : Setup) (state : DaemonState) where
  -- The state that a save writes.
  abbrev pub normal : DaemonState
  normal = (normalize_daemon_state_file_keys setup.normalize state).0

  abbrev pub content : C
  content = codec.dumps (to_json normal)

  -- What a load makes of it: the model of the process, and the keys once more.
  abbrev pub reloaded : DaemonState
  reloaded =
      (normalize_daemon_state_file_keys setup.normalize
        (record normal { model = setup.model_name })).0

  -- The content is decoded as it was encoded, it is within the bound, and the state is of the
  -- types of the source.
  pub record IsStorable : Type 0 where
    pub decodes : codec.loads content ≡ some (to_json normal)
    pub fits : ltb setup.cap (codec.size content) ≡ false
    pub writable : IsWritable state

  module _ (s : IsStorable) where
    read-content :
        (fails : Bool)
        → fails ≡ false
        → read_bounded_json codec setup fails (some content) ≡ some (to_json normal)
    unfolding read_bounded_json
    read-content fails h = simp (h, s.fits, s.decodes) refl

    -- One of the two attempts finds the file readable.
    payload-content :
        (fails : ℕ → Bool)
        → fails 0 && fails 1 ≡ false
        → read_daemon_state_payload codec setup fails (some content) ≡ some (fields_to_json normal)
    unfolding read_daemon_state_payload to_json
    payload-content fails h = elim (Bool-cases (fails 0)) [
      | inl again ↦
          let second : fails 1 ≡ false = simp again at h in
          simp (again, second, s.fits, s.decodes) refl
      | inr first ↦ simp (first, s.fits, s.decodes) refl
    ]

    state_of-content : state_of codec setup (fields_to_json normal) ≡ some reloaded
    state_of-content =
        simp
          (from_json-to_json setup.py setup.default_model normal
            (normalize-IsWritable setup.normalize state s.writable))
          refl

    load-content :
        (answers : Answers C) (disk : Disk C)
        → disk.primary ≡ some content
        → answers.primary_fails 0 && answers.primary_fails 1 ≡ false
        → (load_daemon_state codec setup answers disk).1 ≡ some reloaded
    unfolding load_daemon_state
    load-content answers disk there readable =
        simp (there, payload-content answers.primary_fails readable, state_of-content) refl

    load-backup :
        (answers : Answers C) (disk : Disk C) (read_only : Bool)
        → read_daemon_state_payload codec setup answers.primary_fails disk.primary ≡ none
        → disk.backup ≡ some content
        → answers.backup_fails 0 && answers.backup_fails 1 ≡ false
        → is_graph_read_only setup.env ≡ returned read_only
        → (load_daemon_state codec setup answers disk).1 ≡ some reloaded
    unfolding load_daemon_state
    load-backup answers disk read_only damaged there readable set =
        simp
          (
            there,
            damaged,
            payload-content answers.backup_fails readable,
            set,
            state_of-content,
            and-false (not (is_file disk.primary)),
          )
          refl

  saved-content :
      (a : Answers C) (disk : Disk C)
      → (save_daemon_state codec setup a state disk).1 ≡ saved
      → ((save_daemon_state codec setup a state disk).0.primary ≡ some content)
        × (a.failed_copy ≡ none
            → (save_daemon_state codec setup a state disk).0.backup ≡ some content)
  unfolding save_daemon_state
  saved-content a disk h =
      guard-content
        (guard_graph_mutation setup.paths setup.graph_root setup.state_path
          (text "save_daemon_state") setup.env)
        h
    where
      guard-content :
          (guard : Outcome (Unit {0}))
          → (guarded_save codec setup a guard state disk).1 ≡ saved
          → ((guarded_save codec setup a guard state disk).0.primary ≡ some content)
            × (a.failed_copy ≡ none
                → (guarded_save codec setup a guard state disk).0.backup ≡ some content)
      guard-content (returned u) h = elim (Bool-cases a.write_fails) [
        | inl fails ↦ absurd (failed-ne-saved (simp fails at h))
        | inr done ↦ simp done (refl, λ e. simp e refl)
      ]
      guard-content (raised (read_only_error e)) h = absurd (cc h)
      guard-content (raised (bad_token key)) h = absurd (cc h)

  -- A state of the types of the source, whose content is decoded as it was encoded and is within
  -- the bound: after a save that succeeds, and any damage to one of the two files that the
  -- aftermath allows, a load answers that state with its keys normalised, the model of the
  -- process, and the keys normalised again.
  pub load-save :
      (s : IsStorable) (a l : Answers C) (before disk : Disk C)
      → (save_daemon_state codec setup a state before).1 ≡ saved
      → Aftermath codec setup a l (save_daemon_state codec setup a state before).0 disk
      → (load_daemon_state codec setup l disk).1 ≡ some reloaded
  load-save s a l before disk h (primary_kept same readable) =
      load-content s l disk (same ∙ (saved-content a before h).0) readable
  load-save s a l before disk h (backup_kept read_only damaged copied same readable set) =
      load-backup s l disk read_only damaged (same ∙ (saved-content a before h).1 copied) readable
        set

  recovered-same :
      (l : Answers C) (set : Outcome Bool) (payload : Fields) (d e : Disk C)
      → (recovered codec setup l set d payload).1 ≡ (recovered codec setup l set e payload).1
  recovered-same l (returned read_only) payload d e = refl
  recovered-same l (raised f) payload d e = refl

  from_backup-same :
      (l : Answers C) (payload : Option Fields) (d e : Disk C)
      → (from_backup codec setup l payload d).1 ≡ (from_backup codec setup l payload e).1
  from_backup-same l none d e = refl
  from_backup-same l (some payload) d e =
      recovered-same l (is_graph_read_only setup.env) payload d e

  from_primary-temporary :
      (l : Answers C) (payload : Option Fields) (before : Disk C) (part : Option C)
      → (from_primary codec setup l payload (record before { temporary = part })).1
        ≡ (from_primary codec setup l payload before).1
  from_primary-temporary l none before part =
      from_backup-same l (read_daemon_state_payload codec setup l.backup_fails before.backup) _ _
  from_primary-temporary l (some payload) before part = refl

  -- The temporary file plays no part in a load.
  load-temporary :
      (l : Answers C) (before : Disk C) (part : Option C)
      → (load_daemon_state codec setup l (record before { temporary = part })).1
        ≡ (load_daemon_state codec setup l before).1
  unfolding load_daemon_state
  load-temporary l before part =
      if-same (not (is_file before.primary) && not (is_file before.backup)) _ _ _ _ _ (
        from_primary-temporary l
          (read_daemon_state_payload codec setup l.primary_fails before.primary) before part)

  -- For a state of the types of the source, whose content is decoded as it was encoded and is
  -- within the bound: a save that is interrupted at any moment leaves a disk on which a load whose
  -- reads of the primary file do not both fail answers what it would have before the save, or the
  -- saved state as after a whole save.
  pub load-Interrupted :
      (s : IsStorable) (l : Answers C) {before disk : Disk C}
      → Interrupted content before disk
      → l.primary_fails 0 && l.primary_fails 1 ≡ false
      → ((load_daemon_state codec setup l disk).1 ≡ (load_daemon_state codec setup l before).1)
        ⊎ ((load_daemon_state codec setup l disk).1 ≡ some reloaded)
  load-Interrupted s l not_begun readable = inl refl
  load-Interrupted s l {before} (writing part) readable = inl (load-temporary l before part)
  load-Interrupted s l (copying part) readable = inr (load-content s l _ refl readable)
