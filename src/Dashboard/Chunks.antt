-- ===== src/Dashboard/Chunks.antt =====
-- The reader of the stage channel does not depend on how the bytes are cut into chunks.
use matryca_plumber.Prelude.{
  ℕ, ◌+◌, ◌≡◌, ◌≤◌, inl, inr, refl, sym, ap, ◌∙◌, Bool, true, false, List, All, [], ◌∷◌, ◌++◌, ◌==◌,
  nat_eq, ltb, length, Bool-cases, arith, Option,
}
use mathlib.Core.List.{append_assoc}
use matryca_plumber.Dashboard.Protocol.{DashboardPhase}
use matryca_plumber.Dashboard.Phases.{
  PhaseReader, Read, valid, invalid, record_bound, then_read, put, split, read_line, read_lines,
  kept, feed, newline, record_limit,
}

abbrev IsOpen : List ℕ → Type 0
IsOpen = All (λ b. b == newline ≡ false)

-- Splitting what is left of a split, with more bytes behind it.
abbrev joined : List (List ℕ) → List ℕ → List ℕ → List (List ℕ) × List ℕ
joined [] rest bytes = split (rest ++ bytes)
joined (line ∷ lines) rest bytes = let found = joined lines rest bytes in (line ∷ found.0, found.1)

put-joined :
    (b : ℕ)
    → b == newline ≡ false
    → (found : List (List ℕ) × List ℕ) (bytes : List ℕ)
    → put b (joined found.0 found.1 bytes) ≡ joined (put b found).0 (put b found).1 bytes
unfolding split
put-joined b h ([], rest) bytes = simp h refl
put-joined b h (line ∷ lines, rest) bytes = refl

split-joined :
    (first bytes : List ℕ) → split (first ++ bytes) ≡ joined (split first).0 (split first).1 bytes
unfolding split
split-joined [] bytes = refl
split-joined (b ∷ first) bytes = elim (Bool-cases (b == newline)) [
  | inl ends ↦ simp (ends, split-joined first bytes) refl
  | inr goes ↦
      simp goes (ap (put b) (split-joined first bytes) ∙ put-joined b goes (split first) bytes)
]

put-IsOpen :
    (b : ℕ)
    → b == newline ≡ false
    → (found : List (List ℕ) × List ℕ) → IsOpen found.1
    → IsOpen (put b found).1
put-IsOpen b h ([], rest) whole = (h, whole)
put-IsOpen b h (line ∷ lines, rest) whole = whole

split-IsOpen : (bytes : List ℕ) → IsOpen (split bytes).1
unfolding split
split-IsOpen [] = tt
split-IsOpen (b ∷ bytes) = elim (Bool-cases (b == newline)) [
  | inl ends ↦ simp ends (split-IsOpen bytes)
  | inr goes ↦ simp goes (put-IsOpen b goes (split bytes) (split-IsOpen bytes))
]

-- The length of the first line, ended or not.
abbrev first_length : List (List ℕ) × List ℕ → ℕ
first_length ([], rest) = length rest
first_length (line ∷ lines, rest) = length line

first_length-put :
    (b : ℕ) (found : List (List ℕ) × List ℕ) → first_length (put b found) ≡ 1 + first_length found
first_length-put b ([], rest) = omega arith
first_length-put b (line ∷ lines, rest) = omega arith

-- Bytes without a newline stand in the first line.
first_length-split :
    (rest bytes : List ℕ) → IsOpen rest → length rest ≤ first_length (split (rest ++ bytes))
unfolding split
first_length-split [] bytes whole = omega arith
first_length-split (b ∷ rest) bytes whole = simp whole.0 (
    omega
      (arith, first_length-put b (split (rest ++ bytes)), first_length-split rest bytes whole.1))

module _ {Document : Type 0} (decode : List ℕ → Option Document)
    (is_phase : DashboardPhase → Document → Bool) where
  abbrev run : List (List ℕ) × List ℕ → ℕ → Read PhaseReader
  run found count =
      then_read (read_lines decode is_phase found.0 count) (kept decode is_phase found.1)

  run_long :
      (found : List (List ℕ) × List ℕ) (count : ℕ)
      → ltb record_limit (first_length found) ≡ true
      → run found count ≡ invalid record_bound
  unfolding read_lines read_line
  run_long ([], rest) count long = simp long refl
  run_long (line ∷ lines, rest) count long = simp long refl

  -- The line before the others, by what it is read as.
  after_line :
      (m : Read ℕ) (joint own : List (List ℕ) × List ℕ) (more : PhaseReader → Read PhaseReader)
      → ((count : ℕ) → run joint count ≡ then_read (run own count) more)
      → then_read (then_read m (read_lines decode is_phase joint.0)) (kept decode is_phase joint.1)
        ≡ then_read
            (then_read
              (then_read m (read_lines decode is_phase own.0))
              (kept decode is_phase own.1))
            more
  after_line (valid count) joint own more h = h count
  after_line (invalid e) joint own more h = refl

  run_more :
      (lines : List (List ℕ)) (rest bytes : List ℕ) (count : ℕ)
      → IsOpen rest
      → run (joined lines rest bytes) count
        ≡ then_read (run (lines, rest) count) (feed decode is_phase bytes)
  unfolding read_lines feed
  run_more [] rest bytes count whole = elim (Bool-cases (ltb record_limit (length rest))) [
    | inr short ↦ simp short refl
    | inl long ↦ simp long (
        run_long (split (rest ++ bytes)) count
          (ground (arith, first_length-split rest bytes whole)))
  ]
  run_more (line ∷ lines) rest bytes count whole =
      after_line (read_line decode is_phase line count) (joined lines rest bytes) (lines, rest)
        (feed decode is_phase bytes) (λ c. run_more lines rest bytes c whole)

  -- Feeding two chunks at once is feeding one after the other: the same reader, or the same error.
  pub feed-append :
      (reader : PhaseReader) (first second : List ℕ)
      → feed decode is_phase (first ++ second) reader
        ≡ then_read (feed decode is_phase first reader) (feed decode is_phase second)
  unfolding feed
  feed-append reader first second =
      ap (λ bytes. run (split bytes) reader.count) (sym (append_assoc reader.pending first second))
      ∙ ap (λ found. run found reader.count) (split-joined (reader.pending ++ first) second)
      ∙ run_more (split (reader.pending ++ first)).0 (split (reader.pending ++ first)).1 second
          reader.count (split-IsOpen (reader.pending ++ first))
