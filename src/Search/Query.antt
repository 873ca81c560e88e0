-- ===== src/Search/Query.antt =====
-- The query cache of a corpus, `score_bm25_query` and the part of
-- `patch_generational_caches_for_paths` on the corpus (src/graph/generational_cache.py). The
-- counters of elapsed time are not modelled.
use matryca_plumber.Prelude.{
  ℕ, suc, ◌+◌, ◌-◌, min, max, Bool, ◌||◌, Option, none, some, List, [], ◌∷◌, ◌==◌, ltb, length,
  take, if◌then◌else◌, nat_eq, Eq,
}
use matryca_plumber.Prelude.Text.{Text}
use matryca_plumber.Prelude.Dict
use matryca_plumber.Prelude.Dict.{Dict}
use matryca_plumber.Search.Corpus.{Docs, remove_docs, refresh_docs}

abbrev pub query_cache_max_entries : ℕ
query_cache_max_entries = 8192

abbrev pub query_cache_max_result_rows : ℕ
query_cache_max_result_rows = 65536

-- The tokens, the capped limit, `k1` and `b`. `F` stands for the floats.
abbrev pub QueryKey : Type 0 → Type 0
QueryKey F = List Text × ℕ × F × F

abbrev pub Rows : Type 0 → Type 0
Rows F = List (Text × F)

pub record Corpus (F : Type 0) : Type 0 where
  pub docs : Docs
  pub query_cache : Dict (QueryKey F) (Rows F)
  pub hits : ℕ
  pub misses : ℕ
  pub invalidations : ℕ
  pub evictions : ℕ
  pub result_rows : ℕ

-- `max(1, min(limit, 100))`
abbrev pub capped : ℕ → ℕ
capped limit = max 1 (min limit 100)

abbrev pub is_over : ℕ → ℕ → Bool
is_over entries rows = ltb query_cache_max_entries entries || ltb query_cache_max_result_rows rows

module _ {F : Type 0} where
  -- The loop that evicts: what is left of the cache, its row count, and the evictions.
  unfoldable pub evict : Dict (QueryKey F) (Rows F) → ℕ → ℕ → Dict (QueryKey F) (Rows F) × ℕ × ℕ
  evict [] rows evictions = ([], rows, evictions)
  evict ((k, evicted) ∷ more) rows evictions =
      let rest = evict more (rows - length evicted) (evictions + 1) in
      if is_over (suc (length more)) rows then rest else ((k, evicted) ∷ more, rows, evictions)

  -- `rank` is the scoring and sorting of the documents that score above zero, in floats.
  module _ ⦃e : Eq (QueryKey F)⦄ (rank : Docs → QueryKey F → Rows F) where
    abbrev pub fresh : Docs → QueryKey F → Rows F
    fresh docs key = take key.1 (rank docs key)

    unfoldable pub remember : QueryKey F → Rows F → Corpus F → Corpus F
    remember key result corpus =
        let stored = Dict.move_to_end key (Dict.insert key result corpus.query_cache) in
        let (cache, rows, evictions) =
          evict stored (corpus.result_rows + length result) corpus.evictions in
        record corpus {
          query_cache = cache;
          result_rows = rows;
          evictions = evictions;
          misses = corpus.misses + 1;
        }

    unfoldable pub answer : QueryKey F → Option (Rows F) → Corpus F → Corpus F × Rows F
    answer key (some cached) corpus = (
      record corpus {
        query_cache = Dict.move_to_end key corpus.query_cache;
        hits = corpus.hits + 1;
      },
      cached,
    )
    answer key none corpus = (remember key (fresh corpus.docs key) corpus, fresh corpus.docs key)

    -- The tokens of the query come from the tokenizer.
    unfoldable pub score_bm25_query : List Text → ℕ → F → F → Corpus F → Corpus F × Rows F
    score_bm25_query [] limit k1 b corpus = (corpus, [])
    score_bm25_query (t ∷ tokens) limit k1 b corpus =
        let key : QueryKey F = (t ∷ tokens, capped limit, k1, b) in
        if corpus.docs.n_docs == 0
        then (corpus, [])
        else answer key (Dict.get key corpus.query_cache) corpus

    -- `changed` has the changed paths that lie in the graph.
    unfoldable pub patch_corpus : List Text → List (Text × Option (List Text)) → Corpus F → Corpus F
    patch_corpus [] [] corpus = corpus
    patch_corpus removed changed corpus = record corpus {
      docs = refresh_docs changed (remove_docs removed corpus.docs);
      query_cache = [];
      result_rows = 0;
      invalidations = corpus.invalidations + 1;
    }
