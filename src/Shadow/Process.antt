-- ===== src/Shadow/Process.antt =====
-- What a shadow operation reads and changes: the process-local state, the failure marker file and
-- the database file of one graph root, and what the surroundings answer while it runs.
use matryca_plumber.Prelude.{Bool, Option}
use matryca_plumber.Prelude.Text.{Text}
use matryca_plumber.Shadow.Database.{Db}
use matryca_plumber.Shadow.Runtime.{RuntimeState}

-- The file `shadow.sync-invalid`.
pub data Marker : Type 0 where
  absent regular symlink : Marker

pub record Process : Type 0 where
  pub runtime : RuntimeState
  pub marker : Marker
  -- `none` if no database file exists.
  pub database : Option Db

-- How an attempt to open the database ends: with a connection, with one whose every query raises
-- `sqlite3.Error`, with `sqlite3.Error`, or with another of the exceptions that callers name.
pub data Opening : Type 0 where
  granted unreadable sqlite_refused refused : Opening

pub record Surroundings : Type 0 where
  -- MATRYCA_SHADOW_DB_ENABLED and MATRYCA_SHADOW_QUARANTINE_ENABLED
  pub shadow_db_enabled : Bool
  pub shadow_quarantine_enabled : Bool
  -- The external cache location resolves.
  pub cache_located : Bool
  -- The marker file can be written, and removed.
  pub marker_writes : Bool
  pub marker_unlinks : Bool
  -- Opening for queries; the writer's lock; opening for writing; every statement and commit.
  pub query_only : Opening
  pub lock_taken : Bool
  pub writer_opens : Bool
  pub writes_succeed : Bool
  pub now : Text
