-- ===== src/Dashboard/PhaseTests.antt =====
-- Stage records of one byte each, cut in the middle.
use matryca_plumber.Prelude.{
  ℕ, ◌≡◌, refl, Bool, false, Option, none, some, List, [], ◌∷◌, ◌++◌, ◌==◌, nat_eq,
}
use matryca_plumber.Dashboard.Protocol.{DashboardPhase, discover, stat}
use matryca_plumber.Dashboard.Phases.{valid, invalid, phase_sequence, then_read, new_reader, feed}
use matryca_plumber.Dashboard.Chunks.{feed-append}

abbrev decode : List ℕ → Option ℕ
decode [] = none
decode (b ∷ bytes) = some b

abbrev is_phase : DashboardPhase → ℕ → Bool
is_phase discover n = n == 1
is_phase stat n = n == 2
is_phase phase n = false

two_read :
    feed decode is_phase (1 ∷ 10 ∷ 2 ∷ 10 ∷ 7 ∷ []) new_reader
    ≡ valid (record { pending = 7 ∷ []; count = 2 })
unfolding feed
two_read = refl

wrong_order : feed decode is_phase (2 ∷ 10 ∷ []) new_reader ≡ invalid phase_sequence
unfolding feed
wrong_order = refl

feed-append_example :
    feed decode is_phase ((1 ∷ 10 ∷ 2 ∷ []) ++ (10 ∷ 7 ∷ [])) new_reader
    ≡ then_read
        (feed decode is_phase (1 ∷ 10 ∷ 2 ∷ []) new_reader)
        (feed decode is_phase (10 ∷ 7 ∷ []))
feed-append_example = feed-append decode is_phase new_reader (1 ∷ 10 ∷ 2 ∷ []) (10 ∷ 7 ∷ [])
