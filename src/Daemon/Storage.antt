-- ===== src/Daemon/Storage.antt =====
-- The checkpoint file and its backup: `load_daemon_state` and `save_daemon_state`
-- (src/agent/daemon_state.py), `read_bounded_json` (src/utils/bounded_json.py). The lock of the
-- file is held throughout a save, so a save is one step of the process; a crash inside it is
-- `Daemon.Recovery.Interrupted`.
use matryca_plumber.Prelude.{
  ℕ, zero, suc, ◌+◌, Bool, true, false, not, ◌&&◌, Option, none, some, ltb, if◌then◌else◌,
}
use matryca_plumber.Prelude.Text.{Text, text}
use matryca_plumber.Graph.WritePolicy.{
  Env, Paths, Outcome, returned, raised, read_only_error, bad_token, guard_graph_mutation,
  is_graph_read_only,
}
use matryca_plumber.Daemon.Json.{Json, object, Fields, Python}
use matryca_plumber.Daemon.Ledger.{DaemonState, new_state, normalize_daemon_state_file_keys}
use matryca_plumber.Daemon.Checkpoint.{to_json, from_json}

-- `json.dumps` with the encoding and the last newline; decoding with `json.loads`, `none` for what
-- does not decode; the number of bytes.
pub record Codec (C : Type 0) : Type 0 where
  pub dumps : Json → C
  pub loads : C → Option Json
  pub size : C → ℕ

-- `none` is a file that is not there.
pub record Disk (C : Type 0) : Type 0 where
  pub primary : Option C
  pub backup : Option C
  pub temporary : Option C

-- What the file system answers during one call. A read is numbered by its attempt.
-- A copy that fails leaves what `failed_copy` says at its destination; `write_fails` is a failure
-- of the lock, of the temporary file or of the replacement.
pub record Answers (C : Type 0) : Type 0 where
  pub primary_fails : ℕ → Bool
  pub backup_fails : ℕ → Bool
  pub failed_copy : Option (Option C)
  pub write_fails : Bool

-- `skipped` is a save under read-only; `failed` is one that raises.
pub data SaveResult : Type 0 where
  saved skipped failed : SaveResult

-- What the process is set up with: `MATRYCA_JSON_MAX_BYTES`, the model that
-- `resolve_llm_model_name` answers, `normalize_daemon_file_key` at the graph root, and the graph.
pub record Setup : Type 0 where
  pub py : Python
  pub cap : ℕ
  pub model_name : Text
  pub default_model : Text
  pub normalize : Text → Text
  pub paths : Paths
  pub env : Env
  pub graph_root : Text
  pub state_path : Text

-- A `json.loads` answer that is no object, and one that is.
abbrev pub payload_of : Json → Option Fields
payload_of (object fields) = some fields
payload_of v = none

abbrev pub fresh : Setup → DaemonState
fresh setup = record (new_state setup.default_model) { model = setup.model_name }

abbrev pub is_file {ℓ} : {C : Type ℓ} → Option C → Bool
is_file none = false
is_file (some _) = true

module _ {C : Type 0} (codec : Codec C) (setup : Setup) where
  -- `none` is `BoundedJsonError`.
  unfoldable pub read_bounded_json : Bool → Option C → Option Json
  read_bounded_json fails none = none
  read_bounded_json fails (some c) =
      if fails then none else if ltb setup.cap (codec.size c) then none else codec.loads c

  abbrev answered : Option Json → Option Fields → Option Fields
  answered none retried = retried
  answered (some v) retried = payload_of v

  -- The attempts that are left, and the number of the first of them.
  unfoldable pub read_attempts : ℕ → ℕ → (ℕ → Bool) → Option C → Option Fields
  unfolding read_bounded_json
  read_attempts zero attempt fails file = none
  read_attempts (suc left) attempt fails file =
      answered (read_bounded_json (fails attempt) file)
        (read_attempts left (attempt + 1) fails file)

  unfoldable pub read_daemon_state_payload : (ℕ → Bool) → Option C → Option Fields
  unfolding read_attempts
  read_daemon_state_payload fails file = read_attempts 2 0 fails file

  -- The state of a payload; `none` is the error that a conversion raises.
  abbrev migrated : Option DaemonState → Option DaemonState
  migrated none = none
  migrated (some state) =
      some
        (normalize_daemon_state_file_keys setup.normalize
          (record state { model = setup.model_name })).0

  abbrev pub state_of : Fields → Option DaemonState
  state_of payload = migrated (from_json setup.py setup.default_model payload)

  abbrev copied : Option (Option C) → Option C → Option C
  copied none source = source
  copied (some left) source = left

  -- The backup is copied over the primary unless the graph is read-only.
  abbrev restored : Answers C → Bool → Disk C → Disk C
  restored answers true disk = disk
  restored answers false disk = record disk { primary = copied answers.failed_copy disk.backup }

  -- The setting may raise.
  abbrev pub recovered : Answers C → Outcome Bool → Disk C → Fields → Disk C × Option DaemonState
  recovered answers (returned read_only) disk payload =
      (restored answers read_only disk, state_of payload)
  recovered answers (raised e) disk payload = (disk, none)

  abbrev pub from_backup : Answers C → Option Fields → Disk C → Disk C × Option DaemonState
  from_backup answers none disk = (disk, some (fresh setup))
  from_backup answers (some payload) disk =
      recovered answers (is_graph_read_only setup.env) disk payload

  abbrev pub from_primary : Answers C → Option Fields → Disk C → Disk C × Option DaemonState
  from_primary answers (some payload) disk = (disk, state_of payload)
  from_primary answers none disk =
      from_backup answers (read_daemon_state_payload answers.backup_fails disk.backup) disk

  -- A file that is not there has no payload, so that neither file gives the fresh state. The
  -- second result is `none` if the load raises.
  unfoldable pub load_daemon_state : Answers C → Disk C → Disk C × Option DaemonState
  unfolding read_daemon_state_payload is_graph_read_only
  load_daemon_state answers disk =
      if not (is_file disk.primary) && not (is_file disk.backup)
      then (disk, some (fresh setup))
      else from_primary answers (read_daemon_state_payload answers.primary_fails disk.primary) disk

  -- The write and the replacement, then the copy, whose failure is only logged.
  abbrev written : Answers C → C → Disk C → Disk C × SaveResult
  written answers c disk =
      if answers.write_fails then (record disk { temporary = none }, failed) else (
        record { primary = some c; backup = copied answers.failed_copy (some c); temporary = none },
        saved,
      )

  abbrev pub guarded_save :
      Answers C → Outcome (Unit {0}) → DaemonState → Disk C → Disk C × SaveResult
  guarded_save answers (returned _) state disk =
      written answers
        (codec.dumps (to_json (normalize_daemon_state_file_keys setup.normalize state).0)) disk
  guarded_save answers (raised (read_only_error e)) state disk = (disk, skipped)
  guarded_save answers (raised (bad_token key)) state disk = (disk, failed)

  unfoldable pub save_daemon_state : Answers C → DaemonState → Disk C → Disk C × SaveResult
  unfolding guard_graph_mutation
  save_daemon_state answers state disk =
      guarded_save answers
        (guard_graph_mutation setup.paths setup.graph_root setup.state_path
          (text "save_daemon_state") setup.env)
        state disk
