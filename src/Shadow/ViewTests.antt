-- ===== src/Shadow/ViewTests.antt =====
-- The theorems on the two views of one state, on parked pages and on public messages.
use matryca_plumber.Prelude.{◌≡◌, ◌≢◌, ◌≤◌, refl, false, some, length, subst, some_inj}
use matryca_plumber.Prelude.Text.{text, text_eq, strip, is_empty, lower}
use matryca_plumber.Prelude.Decimal.{str, int_of}
use matryca_plumber.Prelude.Dict
use matryca_plumber.Shadow.Database.{Db}
use matryca_plumber.Shadow.Meta.{get_meta}
use matryca_plumber.Shadow.Console.{
  bounded_error_message, bounded_error_message_bounds, redacted_sync_error, sanitize_for_console,
  has_absolute_path, is_control,
}
use matryca_plumber.Shadow.Process.{Opening}
use matryca_plumber.Shadow.Health.{
  HealthState, returns, resolve_shadow_health, guarded_health, file_health, opened_health,
  database_health, full_sync_completed, count_health, shadow_meta_matches_page_rows,
  parse_meta_page_count,
}
use matryca_plumber.Shadow.Runtime.{is_shadow_bootstrapping, is_shadow_generation_invalid}
use matryca_plumber.Shadow.SyncFailure.{is_shadow_sync_failed}
use matryca_plumber.Shadow.StateApi.{StateResponse, resolve_shadow_db_state_for_api}
use matryca_plumber.Shadow.Agreement.{HasTrimmedSchema, health-state_agree}
use matryca_plumber.Shadow.Samples.{root, io, stored, running}

one_trimmed : HasTrimmedSchema stored
unfolding get_meta Dict.get strip
one_trimmed raw h = subst (λ r. strip r ≡ r) (some_inj h) refl

running_trimmed : (db : Db) → running.database ≡ some db → HasTrimmedSchema db
running_trimmed db h = subst HasTrimmedSchema (some_inj h) one_trimmed

not_refused : Opening.granted ≢ Opening.refused
not_refused h = cc

running_ready : resolve_shadow_health io root running ≡ returns HealthState.ready
unfolding resolve_shadow_health guarded_health file_health opened_health database_health
    full_sync_completed count_health shadow_meta_matches_page_rows parse_meta_page_count get_meta
    Dict.get strip lower str int_of is_shadow_sync_failed is_shadow_bootstrapping
    is_shadow_generation_invalid
running_ready = refl

health-state_agree_example :
    (r : StateResponse) × (resolve_shadow_db_state_for_api io (text "m") root running ≡ returns r)
    × (r.state ≡ HealthState.ready)
health-state_agree_example =
    health-state_agree io (text "m") root running HealthState.ready running_trimmed not_refused
      running_ready

path_is_redacted :
    bounded_error_message (some (text "no /home/me/graph")) ≡ some redacted_sync_error
unfolding bounded_error_message sanitize_for_console has_absolute_path strip is_control
path_is_redacted = refl

bounded_error_message_bounds_example :
    (length redacted_sync_error ≤ 200) × (is_empty redacted_sync_error ≡ false)
bounded_error_message_bounds_example =
    bounded_error_message_bounds (some (text "no /home/me/graph")) redacted_sync_error
      path_is_redacted
