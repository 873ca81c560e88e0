-- ===== src/Daemon/Journey.antt =====
-- The ledger of one day's activity (src/agent/journey_log.py).
use matryca_plumber.Prelude.{ℕ, ◌+◌, ◌≡◌, refl, Bool, ◌||◌, [], ◌==◌, ltb, if◌then◌else◌}
use matryca_plumber.Prelude.Text.{Text, text, text_eq}
use matryca_plumber.Daemon.Json.{
  Json, number, string, object, Fields, end, field, Python, to_text, coerce_int, get_or,
}

pub record JourneyCycleStats : Type 0 where
  pub llm_files_processed : ℕ
  pub links_checked : ℕ
  pub dead_links_flagged : ℕ
  pub missing_assets_flagged : ℕ
  pub fast_track_files : ℕ

unfoldable pub has_journal_activity : JourneyCycleStats → Bool
has_journal_activity stats =
    let flagged = stats.dead_links_flagged + stats.missing_assets_flagged in
    ltb 0 stats.llm_files_processed
    || ltb 0 stats.fast_track_files
    || ltb 0 flagged
    || ltb 0 stats.links_checked

pub record JourneyDayLedger : Type 0 where
  pub day : Text
  pub cycles : ℕ
  pub llm_files_processed : ℕ
  pub links_checked : ℕ
  pub dead_links_flagged : ℕ
  pub missing_assets_flagged : ℕ
  pub fast_track_files : ℕ

-- The defaults of the fields, on a day.
abbrev pub new_day : Text → JourneyDayLedger
new_day day = record {
  day = day;
  cycles = 0;
  llm_files_processed = 0;
  links_checked = 0;
  dead_links_flagged = 0;
  missing_assets_flagged = 0;
  fast_track_files = 0;
}

-- `today` is the ISO text of the date.
unfoldable pub reset_if_new_day : Text → JourneyDayLedger → JourneyDayLedger
reset_if_new_day today ledger = if ledger.day == today then ledger else new_day today

unfoldable pub accumulate : JourneyCycleStats → JourneyDayLedger → JourneyDayLedger
accumulate stats ledger = record ledger {
  cycles = ledger.cycles + 1;
  llm_files_processed = ledger.llm_files_processed + stats.llm_files_processed;
  links_checked = ledger.links_checked + stats.links_checked;
  dead_links_flagged = ledger.dead_links_flagged + stats.dead_links_flagged;
  missing_assets_flagged = ledger.missing_assets_flagged + stats.missing_assets_flagged;
  fast_track_files = ledger.fast_track_files + stats.fast_track_files;
}

unfoldable pub journey_to_json : JourneyDayLedger → Json
journey_to_json ledger = object (
    field (text "day") (string ledger.day) (
      field (text "cycles") (number ledger.cycles) (
        field (text "llm_files_processed") (number ledger.llm_files_processed) (
          field (text "links_checked") (number ledger.links_checked) (
            field (text "dead_links_flagged") (number ledger.dead_links_flagged) (
              field (text "missing_assets_flagged") (number ledger.missing_assets_flagged)
                (field (text "fast_track_files") (number ledger.fast_track_files) end)))))))

abbrev counter : Python → Text → Fields → ℕ
counter py key fields = coerce_int py (get_or (number 0) key fields)

-- `JourneyDayLedger.from_json`: what is no object gives the defaults.
unfoldable pub journey_from_json : Python → Json → JourneyDayLedger
journey_from_json py (object fields) = record {
  day = to_text py (get_or (string []) (text "day") fields);
  cycles = counter py (text "cycles") fields;
  llm_files_processed = counter py (text "llm_files_processed") fields;
  links_checked = counter py (text "links_checked") fields;
  dead_links_flagged = counter py (text "dead_links_flagged") fields;
  missing_assets_flagged = counter py (text "missing_assets_flagged") fields;
  fast_track_files = counter py (text "fast_track_files") fields;
}
journey_from_json py _ = new_day []

pub journey_round_trip :
    (py : Python) (ledger : JourneyDayLedger)
    → journey_from_json py (journey_to_json ledger) ≡ ledger
unfolding journey_from_json journey_to_json
journey_round_trip py ledger = refl
