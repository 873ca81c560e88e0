-- ===== src/Search/Bounds.antt =====
-- The bounds of the query cache: entries, result rows, and the count of the rows.
use matryca_plumber.Prelude.{
  ℕ, suc, ◌+◌, ◌-◌, ◌≡◌, refl, sym, ap, ◌∙◌, false, Option, none, some, List, [], ◌∷◌, ◌++◌, ◌==◌,
  length, length-append, Eq, Option-cases, Bool-cases, inl, inr, some_inj, arith, subst, ==_iff,
  contains, nat_eq,
}
use matryca_plumber.Prelude.Text.{Text}
use matryca_plumber.Prelude.Dict
use matryca_plumber.Prelude.Dict.{Dict}
use matryca_plumber.Prelude.Unique.{IsUnique, insert-IsUnique, move_to_end-IsUnique, absent-get}
use matryca_plumber.Search.Cached.{evict-IsUnique}
use matryca_plumber.Search.Corpus.{Docs}
use matryca_plumber.Search.Query.{
  QueryKey, Rows, Corpus, capped, is_over, evict, fresh, remember, answer, score_bm25_query,
}

module _ {F : Type 0} ⦃e : Eq (QueryKey F)⦄ (rank : Docs → QueryKey F → Rows F) where
  -- The rows of all remembered answers.
  abbrev pub total_rows : Dict (QueryKey F) (Rows F) → ℕ
  total_rows [] = 0
  total_rows ((k, rows) ∷ more) = length rows + total_rows more

  -- The row count is right, and both sizes are within the bounds.
  pub record IsBounded (corpus : Corpus F) : Type 0 where
    pub distinct : IsUnique corpus.query_cache
    pub counted : corpus.result_rows ≡ total_rows corpus.query_cache
    pub within : is_over (length corpus.query_cache) corpus.result_rows ≡ false

  total-append :
      (c d : Dict (QueryKey F) (Rows F)) → total_rows (c ++ d) ≡ total_rows c + total_rows d
  total-append [] d = omega arith
  total-append ((k, r) ∷ c) d = omega (arith, total-append c d)

  total-remove-absent :
      (k : QueryKey F) (d : Dict (QueryKey F) (Rows F))
      → contains (Dict.keys d) k ≡ false
      → (total_rows (Dict.remove k d) ≡ total_rows d) × (length (Dict.remove k d) ≡ length d)
  total-remove-absent k d h =
      (ap total_rows (Dict.remove-absent k d h), ap length (Dict.remove-absent k d h))

  total-remove :
      (k : QueryKey F) (v : Rows F) (d : Dict (QueryKey F) (Rows F))
      → IsUnique d
      → Dict.get k d ≡ some v
      → (total_rows (Dict.remove k d) + length v ≡ total_rows d)
        × (length (Dict.remove k d) + 1 ≡ length d)
  unfolding Dict.remove Dict.get
  total-remove k v [] u h = cc
  total-remove k v ((i, w) ∷ d) u h = elim (Bool-cases (i == k)) [
    | inl same ↦
        let gone : contains (Dict.keys d) k ≡ false =
          subst (λ j. contains (Dict.keys d) j ≡ false) ((==_iff i k).0 same) u.0 in
        let rest = total-remove-absent k d gone in
        let value : w ≡ v = some_inj (simp same at h) in
        simp same (omega (arith, rest.0, ap length value), omega (arith, rest.1))
    | inr other ↦
        let rest = total-remove k v d u.1 (simp other at h) in
        simp other (omega (arith, rest.0), omega (arith, rest.1))
  ]

  total-move_to_end :
      (k : QueryKey F) (d : Dict (QueryKey F) (Rows F))
      → IsUnique d
      → (total_rows (Dict.move_to_end k d) ≡ total_rows d)
        × (length (Dict.move_to_end k d) ≡ length d)
  unfolding Dict.move_to_end
  total-move_to_end k d u = elim (Option-cases (Dict.get k d)) [
    | inl gone ↦ simp gone (refl, refl)
    | inr (v, has) ↦
        let rest = total-remove k v d u has in
        simp has (
          omega (arith, rest.0, total-append (Dict.remove k d) ((k, v) ∷ [])),
          omega (arith, rest.1, length-append (Dict.remove k d) ((k, v) ∷ [])),
        )
  ]

  evict-bounds :
      (cache : Dict (QueryKey F) (Rows F)) (rows evictions : ℕ)
      → rows ≡ total_rows cache
      → let left = evict cache rows evictions in
        (left.1 ≡ total_rows left.0) × (is_over (length left.0) left.1 ≡ false)
  unfolding evict
  evict-bounds [] rows evictions h = (h, rw h)
  evict-bounds ((k, r) ∷ more) rows evictions h =
      elim (Bool-cases (is_over (suc (length more)) rows)) [
        | inl over ↦
            simp over (evict-bounds more (rows - length r) (evictions + 1) (omega (arith, h)))
        | inr fine ↦ simp fine (h, refl)
      ]

  answer-IsBounded :
      (key : QueryKey F) (hit : Option (Rows F)) (corpus : Corpus F)
      → Dict.get key corpus.query_cache ≡ hit
      → IsBounded corpus
      → IsBounded (answer rank key hit corpus).0
  unfolding answer remember
  answer-IsBounded key (some cached) corpus has b =
      let moved = total-move_to_end key corpus.query_cache b.distinct in
      record {
        distinct = move_to_end-IsUnique key corpus.query_cache b.distinct;
        counted = b.counted ∙ sym moved.0;
        within = ap (λ n. is_over n corpus.result_rows) moved.1 ∙ b.within;
      }
  answer-IsBounded key none corpus has b =
      let result = fresh rank corpus.docs key in
      let inserted = Dict.insert key result corpus.query_cache in
      let unique = insert-IsUnique key result corpus.query_cache b.distinct in
      let moved = total-move_to_end key inserted unique in
      let new =
        ap total_rows
          (Dict.insert-absent key result corpus.query_cache (absent-get key corpus.query_cache has))
        ∙ total-append corpus.query_cache ((key, result) ∷ []) in
      let bounds =
        evict-bounds (Dict.move_to_end key inserted) (corpus.result_rows + length result)
          corpus.evictions (omega (arith, b.counted, moved.0, new)) in
      record {
        distinct =
            evict-IsUnique rank (Dict.move_to_end key inserted) _ _
              (move_to_end-IsUnique key inserted unique);
        counted = bounds.0;
        within = bounds.1;
      }

  -- For a cache within 8,192 entries and 65,536 rows whose row count is right: a query keeps it so.
  pub score-IsBounded :
      (tokens : List Text) (limit : ℕ) (k1 b : F) (corpus : Corpus F)
      → IsBounded corpus
      → IsBounded (score_bm25_query rank tokens limit k1 b corpus).0
  unfolding score_bm25_query
  score-IsBounded [] limit k1 b corpus h = h
  score-IsBounded (t ∷ tokens) limit k1 b corpus h =
      let key : QueryKey F = (t ∷ tokens, capped limit, k1, b) in
      elim (Bool-cases (corpus.docs.n_docs == 0)) [
        | inl empty ↦ simp empty h
        | inr filled ↦
            simp filled (answer-IsBounded key (Dict.get key corpus.query_cache) corpus refl h)
      ]
