-- ===== src/Search/Corpus.antt =====
-- The documents of a BM25 corpus and their incremental replacement
-- (src/graph/generational_cache.py). `avgdl` is a function of the lengths and the number of
-- documents, and is not kept.
use matryca_plumber.Prelude.{
  ℕ, zero, suc, ◌+◌, ◌-◌, Option, none, some, List, [], ◌∷◌, ◌++◌, ◌==◌, leb, length, if◌then◌else◌,
  nat_eq,
}
use matryca_plumber.Prelude.Text.{Text, text_eq}
use matryca_plumber.Prelude.Dict
use matryca_plumber.Prelude.Dict.{Dict}

pub record Docs : Type 0 where
  pub rels : List Text
  pub doc_term_freqs : List (Dict Text ℕ)
  pub doc_lens : List ℕ
  pub df : Dict Text ℕ
  pub n_docs : ℕ

-- `d.get(t, 0)`
abbrev pub or_none : Option ℕ → ℕ
or_none none = 0
or_none (some n) = n

abbrev pub count_of : Text → Dict Text ℕ → ℕ
count_of t d = or_none (Dict.get t d)

unfoldable pub add_tokens : List Text → Dict Text ℕ → Dict Text ℕ
add_tokens [] tf = tf
add_tokens (t ∷ more) tf = add_tokens more (Dict.insert t (count_of t tf + 1) tf)

unfoldable pub tokens_to_term_freqs : List Text → Dict Text ℕ
tokens_to_term_freqs tokens = add_tokens tokens []

-- `for token in old_tf`: a count that reaches zero is taken out.
unfoldable pub lower_counts : List Text → Dict Text ℕ → Dict Text ℕ
lower_counts [] df = df
lower_counts (t ∷ more) df =
    let count = count_of t df - 1 in
    lower_counts more (if leb count 0 then Dict.remove t df else Dict.insert t count df)

-- `for token in tf`
unfoldable pub raise_counts : List Text → Dict Text ℕ → Dict Text ℕ
raise_counts [] df = df
raise_counts (t ∷ more) df = raise_counts more (Dict.insert t (count_of t df + 1) df)

-- `rels.index(rel)`; `none` if it is not there.
unfoldable pub index_of : Text → List Text → Option ℕ
index_of rel [] = none
index_of rel (r ∷ more) =
    let rest = index_of rel more in
    if r == rel then some 0 else elim rest [ none ↦ none | some i ↦ some (suc i) ]

module _ {ℓ} {A : Type ℓ} where
  -- `del xs[i]`
  unfoldable pub delete_at : ℕ → List A → List A
  delete_at i [] = []
  delete_at zero (x ∷ xs) = xs
  delete_at (suc i) (x ∷ xs) = x ∷ delete_at i xs

  unfoldable pub item_at : ℕ → List A → Option A
  item_at i [] = none
  item_at zero (x ∷ xs) = some x
  item_at (suc i) (x ∷ xs) = item_at i xs

abbrev pub keys_of : Option (Dict Text ℕ) → List Text
keys_of none = []
keys_of (some tf) = Dict.keys tf

unfoldable pub removed_at : Option ℕ → Docs → Docs
removed_at none docs = docs
removed_at (some i) docs = record {
  rels = delete_at i docs.rels;
  doc_term_freqs = delete_at i docs.doc_term_freqs;
  doc_lens = delete_at i docs.doc_lens;
  df = lower_counts (keys_of (item_at i docs.doc_term_freqs)) docs.df;
  n_docs = docs.n_docs - 1;
}

unfoldable pub remove_bm25_doc : Text → Docs → Docs
remove_bm25_doc rel docs = removed_at (index_of rel docs.rels) docs

unfoldable pub append_doc : Text → List Text → Docs → Docs
append_doc rel tokens docs =
    let tf = tokens_to_term_freqs tokens in
    record {
      rels = docs.rels ++ rel ∷ [];
      doc_term_freqs = docs.doc_term_freqs ++ tf ∷ [];
      doc_lens = docs.doc_lens ++ length tokens ∷ [];
      df = raise_counts (Dict.keys tf) docs.df;
      n_docs = docs.n_docs + 1;
    }

unfoldable pub replace_bm25_doc : Text → List Text → Docs → Docs
replace_bm25_doc rel [] docs = remove_bm25_doc rel docs
replace_bm25_doc rel (t ∷ tokens) docs = append_doc rel (t ∷ tokens) (remove_bm25_doc rel docs)

-- The pages of a graph with their tokens; a page without any is left out.
unfoldable pub build_docs : List (Text × List Text) → Docs → Docs
build_docs [] docs = docs
build_docs ((rel, []) ∷ more) docs = build_docs more docs
build_docs ((rel, t ∷ tokens) ∷ more) docs = build_docs more (append_doc rel (t ∷ tokens) docs)

abbrev pub no_docs : Docs
no_docs = record { rels = []; doc_term_freqs = []; doc_lens = []; df = []; n_docs = 0 }

unfoldable pub build_bm25_corpus : List (Text × List Text) → Docs
build_bm25_corpus pages = build_docs pages no_docs

unfoldable pub remove_docs : List Text → Docs → Docs
remove_docs [] docs = docs
remove_docs (rel ∷ more) docs = remove_docs more (remove_bm25_doc rel docs)

-- The changed paths, with the tokens of those that can be read.
unfoldable pub refresh_docs : List (Text × Option (List Text)) → Docs → Docs
refresh_docs [] docs = docs
refresh_docs ((rel, none) ∷ more) docs = refresh_docs more (remove_bm25_doc rel docs)
refresh_docs ((rel, some tokens) ∷ more) docs = refresh_docs more (replace_bm25_doc rel tokens docs)
