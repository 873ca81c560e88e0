-- ===== src/Daemon/StorageTests.antt =====
-- The checkpoint at a small state: written and read, and recovered from the backup.
use matryca_plumber.Prelude.{
  ◌≡◌, ◌⊎◌, refl, true, false, none, some, [], ◌∷◌, take, ◌==◌, if◌then◌else◌,
}
use matryca_plumber.Prelude.Text.{text, text_eq}
use matryca_plumber.Prelude.Dict
use matryca_plumber.Graph.WritePolicy.{returned, is_graph_read_only}
use matryca_plumber.Daemon.Json.{Json, number, string, Python}
use matryca_plumber.Daemon.Ledger.{FileState, FileStatus, DaemonState, new_state}
use matryca_plumber.Daemon.Checkpoint.{from_json, fields_to_json, to_json}
use matryca_plumber.Daemon.RoundTrip.{IsWritable, IsWritableRecord, from_json-to_json}
use matryca_plumber.Daemon.Storage.{
  Codec, Disk, Answers, Setup, saved, read_daemon_state_payload, load_daemon_state,
  save_daemon_state,
}
use matryca_plumber.Daemon.Recovery.{
  normal, reloaded, IsStorable, backup_kept, copying, load-save, load-Interrupted,
}

abbrev python : Python
python = record { int_of_text = λ s. none; float_of_text = λ s. none; shown = λ v. text "?" }

abbrev rec : FileState
rec = record {
  mtime = 5;
  processed_at = text "2026";
  status = FileStatus.lock_backoff;
  error = some (string (text "busy"));
  lock_backoff_until = some 90;
  lock_backoff_interval = none;
}

abbrev state : DaemonState
state = record (new_state (text "m")) {
  files = (text "/g/a.md", rec) ∷ (text "b.md", record rec { error = none }) ∷ [];
  current_cluster = some (text "c");
}

rec-IsWritableRecord : IsWritableRecord rec
rec-IsWritableRecord = record { status = refl; error = λ h. cc }

state-IsWritable : IsWritable state
unfolding Dict.keys
state-IsWritable = record {
  files = (refl, (refl, tt));
  records = (rec-IsWritableRecord, (record { status = refl; error = λ h. cc }, tt));
  recent = tt;
  reason = λ h. cc;
  cluster = λ h. cc;
}

from_json-to_json_example : from_json python (text "d") (fields_to_json state) ≡ some state
from_json-to_json_example = from_json-to_json python (text "d") state state-IsWritable

abbrev codec : Codec Json
codec = record { dumps = λ v. v; loads = some; size = λ v. 9 }

abbrev setup : Setup
setup = record {
  py = python;
  cap = 10;
  model_name = text "env";
  default_model = text "d";
  normalize = λ key. if key == text "/g/a.md" then text "a.md" else key;
  paths = record {
    expanded = λ p. p;
    loops = λ p. false;
    resolved = some;
    is_absolute = λ p. true;
    is_relative_to = λ p root. take 2 p == root;
  };
  env = [];
  graph_root = text "/g";
  state_path = text "/g/s";
}

abbrev quiet : Answers Json
quiet = record {
  primary_fails = λ n. false;
  backup_fails = λ n. false;
  failed_copy = none;
  write_fails = false;
}

abbrev empty_disk : Disk Json
empty_disk = record { primary = none; backup = none; temporary = none }

-- The primary file is overwritten by a number.
abbrev damaged : Disk Json
damaged = record (save_daemon_state codec setup quiet state empty_disk).0 {
  primary = some (number 3);
}

storable : IsStorable codec setup state
storable = record { decodes = refl; fits = refl; writable = state-IsWritable }

saves : (save_daemon_state codec setup quiet state empty_disk).1 ≡ saved
unfolding save_daemon_state
saves = refl

unreadable : read_daemon_state_payload codec setup quiet.primary_fails (some (number 3)) ≡ none
unfolding read_daemon_state_payload
unreadable = refl

unset : is_graph_read_only [] ≡ returned false
unfolding is_graph_read_only
unset = refl

load-save_example :
    (load_daemon_state codec setup quiet damaged).1 ≡ some (reloaded codec setup state)
load-save_example =
    load-save codec setup state storable quiet quiet empty_disk damaged saves
      (backup_kept false unreadable refl refl refl unset)

load-Interrupted_example :
    ((load_daemon_state codec setup quiet (record {
      primary = some (to_json (normal codec setup state));
      backup = none;
      temporary = none;
    })).1
      ≡ (load_daemon_state codec setup quiet empty_disk).1)
    ⊎ ((load_daemon_state codec setup quiet (record {
      primary = some (to_json (normal codec setup state));
      backup = none;
      temporary = none;
    })).1
        ≡ some (reloaded codec setup state))
load-Interrupted_example =
    load-Interrupted codec setup state storable quiet {before = empty_disk} (copying none) refl
