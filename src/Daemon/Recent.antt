-- ===== src/Daemon/Recent.antt =====
-- The recent pages of the first phase.
use matryca_plumber.Prelude.{
  ◌≡◌, max, true, leb, ◌≤◌, ◌<◌, nat_eq, arith, [], ◌∷◌, ==_refl, length, contains, Bool-cases, inl,
  inr, leb→le,
}
use matryca_plumber.Prelude.Text.{Text, text_eq}
use matryca_plumber.Prelude.Dict
use matryca_plumber.Prelude.Dict.{Dict}
use matryca_plumber.Daemon.Ledger.{
  BootstrapRecentEntry, HarvestStatus, DaemonState, bootstrap_recent_max, oldest_from, evict_oldest,
  upsert_bootstrap_recent,
}

-- The removal of a key that is there takes an entry away.
length-remove :
    (k : Text) (d : Dict Text BootstrapRecentEntry) → length (Dict.remove k d) ≤ length d
unfolding Dict.remove
length-remove k [] = omega arith
length-remove k ((j, w) ∷ d) = ground (arith, length-remove k d)

shorter :
    (k : Text) (d : Dict Text BootstrapRecentEntry)
    → contains (Dict.keys d) k ≡ true
    → length (Dict.remove k d) < length d
unfolding Dict.remove Dict.keys
shorter k [] h = cc
shorter k ((j, w) ∷ d) h = ground (arith, length-remove k d, shorter k d)

-- The oldest key is one of the keys.
oldest-key :
    (best : Text × BootstrapRecentEntry) (d : Dict Text BootstrapRecentEntry)
    → contains (Dict.keys (best ∷ d)) (oldest_from best d) ≡ true
unfolding oldest_from Dict.keys
oldest-key best [] = simp (==_refl best.0)
oldest-key best (entry ∷ more) = ground (arith, oldest-key best more, oldest-key entry more)

length-evict_oldest :
    (d : Dict Text BootstrapRecentEntry) → 1 ≤ length d → length (evict_oldest d) < length d
unfolding evict_oldest
length-evict_oldest [] h = absurd (omega arith)
length-evict_oldest (entry ∷ more) h =
    shorter (oldest_from entry more) (entry ∷ more) (oldest-key entry more)

-- Recording a page never lets the recent pages exceed the greater of 30 and their number before.
length-upsert_bootstrap_recent :
    (now path_key : Text) (harvest : HarvestStatus) (state : DaemonState)
    → length (upsert_bootstrap_recent now path_key harvest state).bootstrap_recent
      ≤ max bootstrap_recent_max (length state.bootstrap_recent)
unfolding upsert_bootstrap_recent
length-upsert_bootstrap_recent now path_key harvest state =
    let recent =
      Dict.insert path_key (record { harvest = harvest; processed_at = now })
        state.bootstrap_recent in
    elim (Bool-cases (leb (length recent) bootstrap_recent_max)) [
      | inl small ↦ simp small (omega (arith, leb→le _ _ small))
      | inr large ↦ simp large (
          ground (
            arith,
            length-evict_oldest recent,
            Dict.length-insert path_key (record { harvest = harvest; processed_at = now })
                state.bootstrap_recent,
          ))
    ]
