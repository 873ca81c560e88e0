-- ===== src/Search/Graphs.antt =====
-- The caches of the last graphs, for the aliases and for the corpora
-- (src/graph/generational_cache.py): a bounded `OrderedDict` each, the oldest first.
use matryca_plumber.Prelude.{
  ℕ, suc, ◌≡◌, ◌≤◌, refl, ◌∙◌, min, max, false, Option, some, [], ◌∷◌, ◌++◌, length, ltb,
  if◌then◌else◌, Bool-cases, inl, inr, arith, contains, ==_refl,
}
use matryca_plumber.Prelude.Text.{Text, text_eq}
use matryca_plumber.Prelude.Dict
use matryca_plumber.Prelude.Dict.{Dict}
use matryca_plumber.Prelude.Unique.{removed-gone, get-append-new}

-- The clamped value of MATRYCA_GENERATIONAL_CACHE_MAX_GRAPHS.
unfoldable pub generational_cache_max_graphs : ℕ → ℕ
generational_cache_max_graphs value = max 1 (min 32 value)

module _ {ℓ} {A : Type ℓ} where
  -- `popitem(last=False)` while the cache is too long.
  unfoldable pub evict_oldest_graphs : ℕ → Dict Text A → Dict Text A
  evict_oldest_graphs limit [] = []
  evict_oldest_graphs limit (entry ∷ more) =
      let rest = evict_oldest_graphs limit more in
      if ltb limit (suc (length more)) then rest else entry ∷ more

  -- The new cache, and the hit.
  unfoldable pub cache_get : Text → Dict Text A → Dict Text A × Option A
  cache_get key cache = (Dict.move_to_end key cache, Dict.get key cache)

  unfoldable pub cache_set : ℕ → Text → A → Dict Text A → Dict Text A
  cache_set limit key value cache =
      evict_oldest_graphs limit (Dict.move_to_end key (Dict.insert key value cache))

  evict-within :
      (limit : ℕ) (cache : Dict Text A) → length (evict_oldest_graphs limit cache) ≤ limit
  unfolding evict_oldest_graphs
  evict-within limit [] = omega arith
  evict-within limit (entry ∷ more) = ground (arith, evict-within limit more)

  evict-last :
      (limit : ℕ) (key : Text) (value : A) (cache : Dict Text A)
      → 1 ≤ limit
      → contains (Dict.keys cache) key ≡ false
      → Dict.get key (evict_oldest_graphs limit (cache ++ (key, value) ∷ [])) ≡ some value
  unfolding evict_oldest_graphs Dict.keys Dict.get
  evict-last limit key value [] h new = ground (arith, ==_refl key)
  evict-last limit key value ((k, v) ∷ cache) h new =
      elim (Bool-cases (ltb limit (suc (length (cache ++ (key, value) ∷ []))))) [
        | inl over ↦ simp over (evict-last limit key value cache h (ground (arith, new)))
        | inr fine ↦
            simp fine (get-append-new key key value ((k, v) ∷ cache) new ∙ simp (==_refl key) refl)
      ]

  -- The entry that was set is there, and the cache holds as many graphs as the limit at most.
  pub cache_set-bounded :
      (value_of_env : ℕ) (key : Text) (value : A) (cache : Dict Text A)
      → let after = cache_set (generational_cache_max_graphs value_of_env) key value cache in
        (length after ≤ generational_cache_max_graphs value_of_env)
        × (Dict.get key after ≡ some value)
  unfolding cache_set generational_cache_max_graphs Dict.move_to_end
  cache_set-bounded value_of_env key value cache =
      let limit = generational_cache_max_graphs value_of_env in
      let inserted = Dict.insert key value cache in
      let has : Dict.get key inserted ≡ some value =
        Dict.get-insert key key value cache ∙ simp (==_refl key) refl in
      (
        evict-within limit (Dict.move_to_end key inserted),
        simp has (
            evict-last limit key value (Dict.remove key inserted) (omega arith)
              (removed-gone key inserted)),
      )
