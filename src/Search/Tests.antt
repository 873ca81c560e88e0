-- ===== src/Search/Tests.antt =====
-- The theorems on the search at a corpus of two pages; floats are numbers here.
use matryca_plumber.Prelude.{
  ℕ, length, ◌≤◌, ◌≡◌, ◌↔◌, refl, Bool, true, ◌&&◌, Option, some, List, [], ◌∷◌, ◌==◌, Eq, nat_eq,
  arith, list_beq, list_beq_iff, nat_beq, nat_beq_iff, if◌then◌else◌,
}
use matryca_plumber.Prelude.Text.{Text, text, text_eq}
use matryca_plumber.Prelude.Dict
use matryca_plumber.Search.Corpus.{Docs, build_bm25_corpus, refresh_docs, remove_docs}
use matryca_plumber.Search.Query.{QueryKey, Rows, Corpus, capped, fresh, score_bm25_query}
use matryca_plumber.Search.Cached.{IsCurrent, is_nil, score-IsCurrent}
use matryca_plumber.Search.Bounds.{IsBounded, score-IsBounded}
use matryca_plumber.Search.Graphs.{cache_set, generational_cache_max_graphs, cache_set-bounded}
use matryca_plumber.Search.Counts.{IsCounted, patched-IsCounted}

abbrev same_key : QueryKey ℕ → QueryKey ℕ → Bool
same_key (a, b, c, d) (x, y, z, w) = list_beq a x && (nat_beq b y && (nat_beq c z && nat_beq d w))

same_key_iff : (k l : QueryKey ℕ) → (same_key k l ≡ true) ↔ (k ≡ l)
same_key_iff (a, b, c, d) (x, y, z, w) =
    ground (arith, list_beq_iff a x, nat_beq_iff b y, nat_beq_iff c z, nat_beq_iff d w)

instance abbrev query_key_eq : Eq (QueryKey ℕ)
query_key_eq = record { same = same_key; decides = same_key_iff }

abbrev pages : List (Text × List Text)
pages =
    (text "a.md", text "red" ∷ text "red" ∷ []) ∷ (text "b.md", text "red" ∷ text "blue" ∷ []) ∷ []

abbrev changed : List (Text × Option (List Text))
changed = (text "a.md", some (text "green" ∷ [])) ∷ []

-- A rank that answers every document.
abbrev ranked : List Text → Rows ℕ
ranked [] = []
ranked (rel ∷ more) = (rel, 1) ∷ ranked more

abbrev rank : Docs → QueryKey ℕ → Rows ℕ
rank docs key = ranked docs.rels

abbrev corpus : Corpus ℕ
corpus = record {
  docs = build_bm25_corpus pages;
  query_cache = [];
  hits = 0;
  misses = 0;
  invalidations = 0;
  evictions = 0;
  result_rows = 0;
}

corpus-IsCurrent : IsCurrent rank corpus
unfolding Dict.get
corpus-IsCurrent = record { unique = tt; current = λ key rows h. cc h }

corpus-IsBounded : IsBounded rank corpus
corpus-IsBounded = record { distinct = tt; counted = refl; within = refl }

score-IsCurrent_example :
    ((score_bm25_query rank (text "red" ∷ []) 5 15 7 corpus).1 ≡ (
      if is_nil (text "red" ∷ [])
      then []
      else if corpus.docs.n_docs == 0
      then []
      else fresh rank corpus.docs (text "red" ∷ [], capped 5, 15, 7)))
    × IsCurrent rank (score_bm25_query rank (text "red" ∷ []) 5 15 7 corpus).0
    × ((score_bm25_query rank (text "red" ∷ []) 5 15 7 corpus).0.docs ≡ corpus.docs)
score-IsCurrent_example = score-IsCurrent rank (text "red" ∷ []) 5 15 7 corpus corpus-IsCurrent

score-IsBounded_example : IsBounded rank (score_bm25_query rank (text "red" ∷ []) 5 15 7 corpus).0
score-IsBounded_example = score-IsBounded rank (text "red" ∷ []) 5 15 7 corpus corpus-IsBounded

patched-IsCounted_example :
    IsCounted (refresh_docs changed (remove_docs (text "b.md" ∷ []) (build_bm25_corpus pages)))
patched-IsCounted_example = patched-IsCounted pages (text "b.md" ∷ []) changed

abbrev held : Dict.Dict Text ℕ
held = (text "h", 5) ∷ []

abbrev seven : ℕ
seven = 7

cache_set-bounded_example :
    let after = cache_set (generational_cache_max_graphs 1) (text "g") seven held in
    (length after ≤ generational_cache_max_graphs 1) × (Dict.get (text "g") after ≡ some seven)
cache_set-bounded_example = cache_set-bounded 1 (text "g") seven held
