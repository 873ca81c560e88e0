-- ===== src/Daemon/RoundTrip.antt =====
-- A checkpoint that is written as JSON is read back as it was.
use mathlib.Core.List.{append-nil}
use matryca_plumber.Prelude.{
  ℕ, ◌≡◌, ◌≢◌, refl, sym, ap, subst, ◌∙◌, Option, none, some, [], ◌∷◌, ◌++◌, All,
}
use matryca_plumber.Prelude.Text.{Text, text_eq}
use matryca_plumber.Prelude.Dict
use matryca_plumber.Prelude.Dict.{Dict}
use matryca_plumber.Prelude.Unique.{IsUnique, insert-middle}
use matryca_plumber.Daemon.Json.{
  Json, null, truth, number, decimal, string, array, object, Fields, end, Python,
}
use matryca_plumber.Daemon.Journey.{journey_round_trip}
use matryca_plumber.Daemon.Ledger.{FileState, HarvestStatus, BootstrapRecentEntry, DaemonState}
use matryca_plumber.Daemon.Checkpoint.{
  status_text, status_of, harvest_text, harvest_of, nullable, file_to_json, files_to_json,
  all_recent_to_json, fields_to_json, given, float_or_none, files_from_json, file_from_json,
  recent_from_json, text_or_none, from_json,
}

-- What the types of the source promise of a record: a status that is one of its literals is that
-- constructor, and an error is not `null`.
pub record IsWritableRecord (rec : FileState) : Type 0 where
  pub status : status_of (status_text rec.status) ≡ rec.status
  pub error : rec.error ≢ some null

-- Both dictionaries have one entry for a key, and a text that may be None is not empty.
pub record IsWritable (state : DaemonState) : Type 0 where
  pub files : IsUnique state.files
  pub records : All (λ (entry : Text × FileState). IsWritableRecord entry.1) state.files
  pub recent : IsUnique state.bootstrap_recent
  pub reason : state.bootstrap_failed_reason ≢ some []
  pub cluster : state.current_cluster ≢ some []

given-nullable : (e : Option Json) → e ≢ some null → given (nullable (λ v. v) e) ≡ e
given-nullable none h = refl
given-nullable (some null) h = absurd (h refl)
given-nullable (some (truth b)) h = refl
given-nullable (some (number n)) h = refl
given-nullable (some (decimal d)) h = refl
given-nullable (some (string s)) h = refl
given-nullable (some (array xs)) h = refl
given-nullable (some (object fs)) h = refl

float_or_none-nullable :
    (py : Python) (t : Option ℕ) → float_or_none py (nullable decimal t) ≡ some t
float_or_none-nullable py none = refl
float_or_none-nullable py (some t) = refl

text_or_none-nullable :
    (py : Python) (t : Option Text) → t ≢ some [] → text_or_none py (nullable string t) ≡ t
text_or_none-nullable py none h = refl
text_or_none-nullable py (some []) h = absurd (h refl)
text_or_none-nullable py (some (c ∷ s)) h = refl

harvest_of-harvest_text : (h : HarvestStatus) → harvest_of (harvest_text h) ≡ some h
harvest_of-harvest_text HarvestStatus.regex = refl
harvest_of-harvest_text HarvestStatus.llm = refl
harvest_of-harvest_text HarvestStatus.skipped = refl
harvest_of-harvest_text HarvestStatus.error = refl

abbrev fields_of : Json → Fields
fields_of (object fs) = fs
fields_of v = end

file_round_trip :
    (py : Python) (rec : FileState)
    → IsWritableRecord rec
    → file_from_json py (fields_of (file_to_json rec)) ≡ some rec
unfolding file_from_json
file_round_trip py rec w =
    simp
      (
        float_or_none-nullable py rec.lock_backoff_until,
        float_or_none-nullable py rec.lock_backoff_interval,
        given-nullable rec.error w.error,
        w.status,
      )
      refl

files_round_trip :
    (py : Python) (done more : Dict Text FileState)
    → IsUnique (done ++ more)
    → All (λ (entry : Text × FileState). IsWritableRecord entry.1) more
    → files_from_json py done (files_to_json more) ≡ some (done ++ more)
unfolding files_from_json files_to_json
files_round_trip py done [] u w = ap some (sym (append-nil done))
files_round_trip py done ((path, rec) ∷ more) u w =
    let border : Dict.insert path rec done ++ more ≡ done ++ (path, rec) ∷ more =
      insert-middle path rec done more u in
    simp (file_round_trip py rec w.0) (
      files_round_trip py (Dict.insert path rec done) more (subst IsUnique (sym border) u) w.1
      ∙ ap some border)

recent_round_trip :
    (py : Python) (done more : Dict Text BootstrapRecentEntry)
    → IsUnique (done ++ more)
    → recent_from_json py done (all_recent_to_json more) ≡ done ++ more
unfolding recent_from_json all_recent_to_json
recent_round_trip py done [] u = sym (append-nil done)
recent_round_trip py done ((path, rec) ∷ more) u =
    let border : Dict.insert path rec done ++ more ≡ done ++ (path, rec) ∷ more =
      insert-middle path rec done more u in
    simp (harvest_of-harvest_text rec.harvest) (
      recent_round_trip py (Dict.insert path rec done) more (subst IsUnique (sym border) u)
      ∙ border)

-- A state whose dictionaries have one entry for a key, whose statuses and errors are of their
-- types, and whose reason and cluster are not the empty text, is read back from its own JSON.
pub from_json-to_json :
    (py : Python) (default_model : Text) (state : DaemonState)
    → IsWritable state
    → from_json py default_model (fields_to_json state) ≡ some state
unfolding from_json fields_to_json
from_json-to_json py default_model state w =
    simp
      (
        files_round_trip py [] state.files w.files w.records,
        recent_round_trip py [] state.bootstrap_recent w.recent,
        text_or_none-nullable py state.bootstrap_failed_reason w.reason,
        text_or_none-nullable py state.current_cluster w.cluster,
        journey_round_trip py state.journey_day,
      )
      refl
