-- ===== src/Search/Cached.antt =====
-- What the query cache holds is what a fresh scoring answers, and it stays within its bounds.
use matryca_plumber.Prelude.{
  ℕ, suc, ◌≡◌, refl, sym, ap, ◌∙◌, Bool, true, false, Option, none, some, List, [], ◌∷◌, ◌==◌,
  length, if◌then◌else◌, Eq, Bool-cases, inl, inr, some_inj, subst, ==_iff, nat_eq,
}
use matryca_plumber.Prelude.Text.{Text}
use matryca_plumber.Prelude.Dict
use matryca_plumber.Prelude.Dict.{Dict}
use matryca_plumber.Prelude.Unique.{
  IsUnique, insert-IsUnique, move_to_end-IsUnique, get-move_to_end, get-absent,
}
use matryca_plumber.Search.Corpus.{Docs}
use matryca_plumber.Search.Query.{
  QueryKey, Rows, Corpus, capped, is_over, evict, fresh, remember, answer, score_bm25_query,
  patch_corpus,
}

abbrev pub is_nil {ℓ} : {A : Type ℓ} → List A → Bool
is_nil [] = true
is_nil (x ∷ xs) = false

module _ {F : Type 0} ⦃e : Eq (QueryKey F)⦄ (rank : Docs → QueryKey F → Rows F) where
  -- Every remembered answer is that of the documents as they are.
  pub record IsCurrent (corpus : Corpus F) : Type 0 where
    pub unique : IsUnique corpus.query_cache
    pub current :
        (key : QueryKey F) (rows : Rows F)
        → Dict.get key corpus.query_cache ≡ some rows
        → rows ≡ fresh rank corpus.docs key

  pub evict-IsUnique :
      (cache : Dict (QueryKey F) (Rows F)) (rows evictions : ℕ)
      → IsUnique cache
      → IsUnique (evict cache rows evictions).0
  unfolding evict
  evict-IsUnique [] rows evictions h = tt
  evict-IsUnique ((k, r) ∷ more) rows evictions h =
      elim (Bool-cases (is_over (suc (length more)) rows)) [
        | inl over ↦ simp over (evict-IsUnique more _ _ h.1)
        | inr within ↦ simp within h
      ]

  -- Eviction invents no answer.
  evict-get :
      (cache : Dict (QueryKey F) (Rows F)) (rows evictions : ℕ) (key : QueryKey F) (found : Rows F)
      → IsUnique cache
      → Dict.get key (evict cache rows evictions).0 ≡ some found
      → Dict.get key cache ≡ some found
  unfolding evict Dict.get
  evict-get [] rows evictions key found unique h = h
  evict-get ((k, r) ∷ more) rows evictions key found unique h =
      elim (Bool-cases (is_over (suc (length more)) rows)) [
        | inr within ↦ simp within at h
        | inl over ↦
            let later = evict-get more _ _ key found unique.1 (simp over at h) in
            elim (Bool-cases (k == key)) [
              | inl same ↦
                  let gone : Dict.get key more ≡ none =
                    subst (λ j. Dict.get j more ≡ none) ((==_iff k key).0 same)
                      (get-absent k more unique.0) in
                  cc (gone, later)
              | inr other ↦ simp other later
            ]
      ]

  stored-get :
      (key other : QueryKey F) (result : Rows F) (cache : Dict (QueryKey F) (Rows F))
      → Dict.get other (Dict.move_to_end key (Dict.insert key result cache))
        ≡ (if key == other then some result else Dict.get other cache)
  stored-get key other result cache =
      get-move_to_end key other (Dict.insert key result cache)
      ∙ Dict.get-insert key other result cache

  stored_current :
      (key other : QueryKey F) (result rows : Rows F) (corpus : Corpus F)
      → IsCurrent corpus
      → (if key == other
          then some (fresh rank corpus.docs key)
          else Dict.get other corpus.query_cache)
        ≡ some rows
      → rows ≡ fresh rank corpus.docs other
  stored_current key other result rows corpus c h = elim (Bool-cases (key == other)) [
    | inl same ↦
        sym (some_inj (simp same at h)) ∙ ap (fresh rank corpus.docs) ((==_iff key other).0 same)
    | inr different ↦ c.current other rows (simp different at h)
  ]

  answer-IsCurrent :
      (key : QueryKey F) (hit : Option (Rows F)) (corpus : Corpus F)
      → Dict.get key corpus.query_cache ≡ hit
      → IsCurrent corpus
      → ((answer rank key hit corpus).1 ≡ fresh rank corpus.docs key)
        × IsCurrent (answer rank key hit corpus).0
        × ((answer rank key hit corpus).0.docs ≡ corpus.docs)
  unfolding answer remember
  answer-IsCurrent key (some cached) corpus has c = (
    c.current key cached has,
    record {
      unique = move_to_end-IsUnique key corpus.query_cache c.unique;
      current = λ other rows h.
          c.current other rows (sym (get-move_to_end key other corpus.query_cache) ∙ h);
    },
    refl,
  )
  answer-IsCurrent key none corpus has c =
      let result = fresh rank corpus.docs key in
      let stored = Dict.move_to_end key (Dict.insert key result corpus.query_cache) in
      let unique : IsUnique stored =
        move_to_end-IsUnique key (Dict.insert key result corpus.query_cache)
          (insert-IsUnique key result corpus.query_cache c.unique) in
      (
        refl,
        record {
          unique = evict-IsUnique stored _ _ unique;
          current = λ other rows h. stored_current key other result rows corpus c (
              sym (stored-get key other result corpus.query_cache)
              ∙ evict-get stored _ _ other rows unique h);
        },
        refl,
      )

  -- For a corpus whose remembered answers are current: without tokens or documents a query answers
  -- nothing, otherwise what a fresh scoring would; the documents stay, and so does currency.
  pub score-IsCurrent :
      (tokens : List Text) (limit : ℕ) (k1 b : F) (corpus : Corpus F)
      → IsCurrent corpus
      → ((score_bm25_query rank tokens limit k1 b corpus).1 ≡ (
          if is_nil tokens
          then []
          else if corpus.docs.n_docs == 0
          then []
          else fresh rank corpus.docs (tokens, capped limit, k1, b)))
        × IsCurrent (score_bm25_query rank tokens limit k1 b corpus).0
        × ((score_bm25_query rank tokens limit k1 b corpus).0.docs ≡ corpus.docs)
  unfolding score_bm25_query
  score-IsCurrent [] limit k1 b corpus c = (refl, c, refl)
  score-IsCurrent (t ∷ tokens) limit k1 b corpus c =
      let key : QueryKey F = (t ∷ tokens, capped limit, k1, b) in
      elim (Bool-cases (corpus.docs.n_docs == 0)) [
        | inl empty ↦ simp empty (refl, c, refl)
        | inr filled ↦
            simp filled (answer-IsCurrent key (Dict.get key corpus.query_cache) corpus refl c)
      ]

  -- A patch of a corpus whose remembered answers are current leaves them current for the new
  -- documents.
  pub patch-IsCurrent :
      (removed : List Text) (changed : List (Text × Option (List Text))) (corpus : Corpus F)
      → IsCurrent corpus
      → IsCurrent (patch_corpus rank removed changed corpus)
  unfolding patch_corpus Dict.get
  patch-IsCurrent [] [] corpus c = c
  patch-IsCurrent [] (p ∷ changed) corpus c = record { unique = tt; current = λ key rows h. cc h }
  patch-IsCurrent (rel ∷ removed) changed corpus c = record {
    unique = tt;
    current = λ key rows h. cc h;
  }
