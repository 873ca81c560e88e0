-- ===== src/Search/Counts.antt =====
-- The document frequencies of an incrementally patched corpus are those of its documents.
use matryca_plumber.Prelude.{
  ℕ, zero, suc, ◌+◌, ◌-◌, ◌≡◌, refl, sym, ap, ◌∙◌, Bool, true, false, Option, none, some, List, [],
  ◌∷◌, ◌++◌, ◌==◌, length, length-append, if◌then◌else◌, Option-cases, Bool-cases, inl, inr,
  some_inj, arith, subst, ==_iff, contains, nat_eq, leb, All, All-append,
}
use matryca_plumber.Prelude.Text.{Text, text_eq}
use matryca_plumber.Prelude.Dict
use matryca_plumber.Prelude.Dict.{Dict}
use matryca_plumber.Prelude.Unique.{IsUnique, insert-IsUnique}
use matryca_plumber.Search.Corpus.{
  Docs, or_none, count_of, add_tokens, tokens_to_term_freqs, lower_counts, raise_counts, index_of,
  delete_at, item_at, keys_of, removed_at, remove_bm25_doc, append_doc, replace_bm25_doc,
  build_docs, no_docs, build_bm25_corpus, remove_docs, refresh_docs,
}

abbrev pub one_if : Bool → ℕ
one_if true = 1
one_if false = 0

-- How many of the documents have the term.
abbrev pub docs_with : Text → List (Dict Text ℕ) → ℕ
docs_with t [] = 0
docs_with t (tf ∷ more) = one_if (contains (Dict.keys tf) t) + docs_with t more

pub record IsCounted (docs : Docs) : Type 0 where
  pub sized : docs.n_docs ≡ length docs.rels
  pub distinct : All IsUnique docs.doc_term_freqs
  pub df_counts : (t : Text) → count_of t docs.df ≡ docs_with t docs.doc_term_freqs

pick-count :
    (k t : Text) (n : ℕ) (df : Dict Text ℕ)
    → or_none (if k == t then some n else Dict.get t df) ≡ (if k == t then n else count_of t df)
pick-count k t n df = elim (Bool-cases (k == t)) [ inl same ↦ simp same | inr other ↦ simp other ]

count-insert :
    (k t : Text) (n : ℕ) (df : Dict Text ℕ)
    → count_of t (Dict.insert k n df) ≡ (if k == t then n else count_of t df)
count-insert k t n df = ap or_none (Dict.get-insert k t n df) ∙ pick-count k t n df

count-lowered :
    (k t : Text) (n : ℕ) (df : Dict Text ℕ)
    → count_of t (if leb n 0 then Dict.remove k df else Dict.insert k n df)
      ≡ (if k == t then n else count_of t df)
count-lowered k t n df = elim (Bool-cases (leb n 0)) [
  | inr positive ↦ simp positive (count-insert k t n df)
  | inl none_left ↦
      let zero_left : n ≡ 0 = ground (arith, none_left) in
      simp none_left (
        ap or_none (Dict.get-remove k t df) ∙ (elim (Bool-cases (k == t)) [
          | inl same ↦ simp same (sym zero_left)
          | inr other ↦ simp other
        ]))
]

then_of : (b : Bool) (m n : ℕ) → b ≡ true → (if b then m else n) ≡ m
then_of b m n h = simp h

else_of : (b : Bool) (m n : ℕ) → b ≡ false → (if b then m else n) ≡ n
else_of b m n h = simp h

-- A key of the head is not one of the tail, so its term is counted once.
tail_without :
    (k t : Text) (tf : Dict Text ℕ)
    → contains (Dict.keys tf) k ≡ false
    → (k == t) ≡ true
    → one_if (contains (Dict.keys tf) t) ≡ 0
tail_without k t tf new same =
    ap one_if (subst (λ j. contains (Dict.keys tf) j ≡ false) ((==_iff k t).0 same) new)

raised :
    (t : Text) (tf df : Dict Text ℕ)
    → IsUnique tf
    → count_of t (raise_counts (Dict.keys tf) df)
      ≡ count_of t df + one_if (contains (Dict.keys tf) t)
unfolding raise_counts Dict.keys
raised t [] df u = omega arith
raised t ((k, v) ∷ tf) df u =
    let rest = raised t tf (Dict.insert k (count_of k df + 1) df) u.1 in
    elim (Bool-cases (k == t)) [
      | inl same ↦ simp same (
          omega (
            arith,
            rest,
            count-insert k t (count_of k df + 1) df ∙ then_of (k == t) _ _ same,
            ap (λ j. count_of j df) ((==_iff k t).0 same),
            tail_without k t tf u.0 same,
          ))
      | inr other ↦ simp other (
          omega (arith, rest, count-insert k t (count_of k df + 1) df ∙ else_of (k == t) _ _ other))
    ]

lowered :
    (t : Text) (tf df : Dict Text ℕ)
    → IsUnique tf
    → count_of t (lower_counts (Dict.keys tf) df)
      ≡ count_of t df - one_if (contains (Dict.keys tf) t)
unfolding lower_counts Dict.keys
lowered t [] df u = omega arith
lowered t ((k, v) ∷ tf) df u =
    let n = count_of k df - 1 in
    let rest = lowered t tf (if leb n 0 then Dict.remove k df else Dict.insert k n df) u.1 in
    elim (Bool-cases (k == t)) [
      | inl same ↦ simp same (
          omega (
            arith,
            rest,
            count-lowered k t n df ∙ then_of (k == t) _ _ same,
            ap (λ j. count_of j df) ((==_iff k t).0 same),
            tail_without k t tf u.0 same,
          ))
      | inr other ↦
          simp other (omega (arith, rest, count-lowered k t n df ∙ else_of (k == t) _ _ other))
    ]

deleted :
    (t : Text) (i : ℕ) (tfs : List (Dict Text ℕ))
    → docs_with t (delete_at i tfs) + one_if (contains (keys_of (item_at i tfs)) t)
      ≡ docs_with t tfs
unfolding delete_at item_at
deleted t i [] = omega arith
deleted t zero (tf ∷ tfs) = omega arith
deleted t (suc i) (tf ∷ tfs) = omega (arith, deleted t i tfs)

deleted-All : (i : ℕ) (tfs : List (Dict Text ℕ)) → All IsUnique tfs → All IsUnique (delete_at i tfs)
unfolding delete_at
deleted-All i [] h = tt
deleted-All zero (tf ∷ tfs) h = h.1
deleted-All (suc i) (tf ∷ tfs) h = (h.0, deleted-All i tfs h.1)

item-IsUnique :
    (i : ℕ) (tfs : List (Dict Text ℕ))
    → All IsUnique tfs
    → (tf : Dict Text ℕ) × IsUnique tf × (Dict.keys tf ≡ keys_of (item_at i tfs))
unfolding item_at Dict.keys
item-IsUnique i [] h = ([], tt, refl)
item-IsUnique zero (tf ∷ tfs) h = (tf, h.0, refl)
item-IsUnique (suc i) (tf ∷ tfs) h = item-IsUnique i tfs h.1

index-shorter :
    (rel : Text) (rels : List Text) (i : ℕ)
    → index_of rel rels ≡ some i
    → length (delete_at i rels) + 1 ≡ length rels
unfolding index_of delete_at
index-shorter rel [] i h = cc
index-shorter rel (r ∷ rels) i h = elim (Bool-cases (r == rel)) [
  | inl same ↦
      let first : 0 ≡ i = some_inj (simp same at h) in
      subst (λ n. length (delete_at n (r ∷ rels)) + 1 ≡ suc (length rels)) first (omega arith)
  | inr other ↦ elim (Option-cases (index_of rel rels)) [
    | inl gone ↦ cc (simp (other, gone) at h)
    | inr (j, found) ↦
        let next : suc j ≡ i = some_inj (simp (other, found) at h) in
        subst (λ n. length (delete_at n (r ∷ rels)) + 1 ≡ suc (length rels)) next
          (omega (arith, index-shorter rel rels j found))
  ]
]

docs-append :
    (t : Text) (tfs : List (Dict Text ℕ)) (tf : Dict Text ℕ)
    → docs_with t (tfs ++ tf ∷ []) ≡ docs_with t tfs + one_if (contains (Dict.keys tf) t)
docs-append t [] tf = omega arith
docs-append t (x ∷ tfs) tf = omega (arith, docs-append t tfs tf)

tokens-IsUnique :
    (tokens : List Text) (tf : Dict Text ℕ) → IsUnique tf → IsUnique (add_tokens tokens tf)
unfolding add_tokens
tokens-IsUnique [] tf u = u
tokens-IsUnique (t ∷ tokens) tf u =
    tokens-IsUnique tokens (Dict.insert t (count_of t tf + 1) tf)
      (insert-IsUnique t (count_of t tf + 1) tf u)

-- Removing a document keeps the counts.
pub remove-IsCounted :
    (rel : Text) (docs : Docs) → IsCounted docs → IsCounted (remove_bm25_doc rel docs)
unfolding remove_bm25_doc removed_at
remove-IsCounted rel docs c = elim (Option-cases (index_of rel docs.rels)) [
  | inl gone ↦ simp gone c
  | inr (i, found) ↦
      let (tf, unique, keys) = item-IsUnique i docs.doc_term_freqs c.distinct in
      simp found (record {
        sized = omega (arith, c.sized, index-shorter rel docs.rels i found);
        distinct = deleted-All i docs.doc_term_freqs c.distinct;
        df_counts = λ t. omega (
          arith,
          c.df_counts t,
          deleted t i docs.doc_term_freqs,
          subst
              (λ ks.
                count_of t (lower_counts ks docs.df) ≡ count_of t docs.df - one_if (contains ks t))
              keys (lowered t tf docs.df unique),
        );
      })
]

append-IsCounted :
    (rel : Text) (tokens : List Text) (docs : Docs)
    → IsCounted docs
    → IsCounted (append_doc rel tokens docs)
unfolding append_doc tokens_to_term_freqs
append-IsCounted rel tokens docs c =
    let tf = tokens_to_term_freqs tokens in
    let unique : IsUnique tf = tokens-IsUnique tokens [] tt in
    record {
      sized = omega (arith, c.sized, length-append docs.rels (rel ∷ []));
      distinct = All-append IsUnique docs.doc_term_freqs (tf ∷ []) c.distinct (unique, tt);
      df_counts = λ t.
          omega (
            arith,
            c.df_counts t,
            docs-append t docs.doc_term_freqs tf,
            raised t tf docs.df unique,
          );
    }

-- Replacing a document keeps them.
pub replace-IsCounted :
    (rel : Text) (tokens : List Text) (docs : Docs)
    → IsCounted docs
    → IsCounted (replace_bm25_doc rel tokens docs)
unfolding replace_bm25_doc
replace-IsCounted rel [] docs c = remove-IsCounted rel docs c
replace-IsCounted rel (t ∷ tokens) docs c =
    append-IsCounted rel (t ∷ tokens) (remove_bm25_doc rel docs) (remove-IsCounted rel docs c)

built-IsCounted :
    (pages : List (Text × List Text)) (docs : Docs)
    → IsCounted docs
    → IsCounted (build_docs pages docs)
unfolding build_docs
built-IsCounted [] docs c = c
built-IsCounted ((rel, []) ∷ more) docs c = built-IsCounted more docs c
built-IsCounted ((rel, t ∷ tokens) ∷ more) docs c =
    built-IsCounted more (append_doc rel (t ∷ tokens) docs)
      (append-IsCounted rel (t ∷ tokens) docs c)

removed-IsCounted :
    (rels : List Text) (docs : Docs) → IsCounted docs → IsCounted (remove_docs rels docs)
unfolding remove_docs
removed-IsCounted [] docs c = c
removed-IsCounted (rel ∷ more) docs c =
    removed-IsCounted more (remove_bm25_doc rel docs) (remove-IsCounted rel docs c)

refreshed-IsCounted :
    (changed : List (Text × Option (List Text))) (docs : Docs)
    → IsCounted docs
    → IsCounted (refresh_docs changed docs)
unfolding refresh_docs
refreshed-IsCounted [] docs c = c
refreshed-IsCounted ((rel, none) ∷ more) docs c =
    refreshed-IsCounted more (remove_bm25_doc rel docs) (remove-IsCounted rel docs c)
refreshed-IsCounted ((rel, some tokens) ∷ more) docs c =
    refreshed-IsCounted more (replace_bm25_doc rel tokens docs)
      (replace-IsCounted rel tokens docs c)

-- A corpus that is built and then patched has the number of its documents and, of each term, the
-- number of its documents that have the term.
pub patched-IsCounted :
    (pages : List (Text × List Text)) (removed : List Text)
    (changed : List (Text × Option (List Text)))
    → IsCounted (refresh_docs changed (remove_docs removed (build_bm25_corpus pages)))
unfolding build_bm25_corpus
patched-IsCounted pages removed changed =
    refreshed-IsCounted changed (remove_docs removed (build_docs pages no_docs)) (
      removed-IsCounted removed (build_docs pages no_docs) (
        built-IsCounted pages no_docs
          (record { sized = refl; distinct = tt; df_counts = λ t. unfold Dict.get in refl })))
