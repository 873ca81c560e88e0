-- ===== src/Dashboard/Phases.antt =====
-- The stage channel of the dashboard worker (`PhaseReader` and `PHASES` of
-- src/agent/dashboard_protocol.py). A byte is a number.
use matryca_plumber.Prelude.{
  ℕ, zero, suc, ◌+◌, Bool, true, false, ◌&&◌, Option, none, some, List, [], ◌∷◌, ◌++◌, ◌==◌, nat_eq,
  ltb, length, if◌then◌else◌,
}
use matryca_plumber.Dashboard.Protocol.{
  DashboardPhase, discover, stat, load_ast, ids, refs, format, complete,
}

-- The messages of the `ValueError`s; `undecodable` is what `decode_document` raises.
pub data PhaseError : Type 0 where
  record_bound phase_sequence truncated undecodable : PhaseError

pub data Read (A : Type 0) : Type 0 where
  valid : A → Read A
  invalid : PhaseError → Read A

abbrev pub then_read : {A B : Type 0} → Read A → (A → Read B) → Read B
then_read (valid a) f = f a
then_read (invalid e) f = invalid e

pub record PhaseReader : Type 0 where
  pub pending : List ℕ
  pub count : ℕ

abbrev pub new_reader : PhaseReader
new_reader = record { pending = []; count = 0 }

abbrev pub phases : List DashboardPhase
phases = discover ∷ stat ∷ load_ast ∷ ids ∷ refs ∷ format ∷ complete ∷ []

-- Nothing is found at `len(PHASES)` and beyond.
abbrev pub phase_at : ℕ → List DashboardPhase → Option DashboardPhase
phase_at n [] = none
phase_at zero (phase ∷ more) = some phase
phase_at (suc n) (phase ∷ more) = phase_at n more

abbrev pub last_of : ℕ → Option DashboardPhase
last_of zero = none
last_of (suc n) = phase_at n phases

unfoldable pub last_phase : PhaseReader → Option DashboardPhase
last_phase reader = last_of reader.count

abbrev pub is_empty : List ℕ → Bool
is_empty [] = true
is_empty (b ∷ bytes) = false

unfoldable pub is_complete : PhaseReader → Bool
is_complete reader = reader.count == length phases && is_empty reader.pending

-- `b"\n"`
abbrev pub newline : ℕ
newline = 10

abbrev pub record_limit : ℕ
record_limit = 1024

abbrev pub put : ℕ → List (List ℕ) × List ℕ → List (List ℕ) × List ℕ
put b ([], rest) = ([], b ∷ rest)
put b (line ∷ lines, rest) = ((b ∷ line) ∷ lines, rest)

-- What `partition(b"\n")`, repeated while there is a newline, gives: the lines that end, in order,
-- and the rest.
unfoldable pub split : List ℕ → List (List ℕ) × List ℕ
split [] = ([], [])
split (b ∷ bytes) =
    let found = split bytes in if b == newline then ([] ∷ found.0, found.1) else put b found

-- `decode` is `decode_document`, none if it raises; `is_phase` compares a document with
-- `{"phase": ...}`.
module _ {Document : Type 0} (decode : List ℕ → Option Document)
    (is_phase : DashboardPhase → Document → Bool) where
  abbrev pub of_document : ℕ → DashboardPhase → Option Document → Read ℕ
  of_document count phase none = invalid undecodable
  of_document count phase (some document) =
      if is_phase phase document then valid (count + 1) else invalid phase_sequence

  abbrev pub at_phase : List ℕ → ℕ → Option DashboardPhase → Read ℕ
  at_phase line count none = invalid record_bound
  at_phase line count (some phase) = of_document count phase (decode line)

  unfoldable pub read_line : List ℕ → ℕ → Read ℕ
  read_line line count =
      if ltb record_limit (length line)
      then invalid record_bound
      else at_phase line count (phase_at count phases)

  unfoldable pub read_lines : List (List ℕ) → ℕ → Read ℕ
  unfolding read_line
  read_lines [] count = valid count
  read_lines (line ∷ lines) count = then_read (read_line line count) (read_lines lines)

  abbrev pub kept : List ℕ → ℕ → Read PhaseReader
  kept rest count =
      if ltb record_limit (length rest)
      then invalid record_bound
      else valid (record { pending = rest; count = count })

  unfoldable pub feed : List ℕ → PhaseReader → Read PhaseReader
  unfolding split read_lines
  feed bytes reader =
      let found = split (reader.pending ++ bytes) in
      then_read (read_lines found.0 reader.count) (kept found.1)

unfoldable pub finish : PhaseReader → Read PhaseReader
finish reader = if is_empty reader.pending then valid reader else invalid truncated
