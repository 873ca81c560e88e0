-- ===== src/Shadow/Subtree/Whole.antt =====
-- A subtree read that answers COMPLETE misses no descendant.
use matryca_plumber.Prelude.{
  ℕ, zero, suc, ◌≤◌, ◌≡◌, inl, inr, refl, sym, ap, ◌∙◌, subst, true, false, ◌||◌, List, [], ◌∷◌,
  ◌++◌, map, ◌==◌, nat_eq, contains, ==_iff, keep, Bool-cases, arith, All, All-append,
}
use matryca_plumber.Prelude.Text.{is_empty}
use matryca_plumber.Shadow.Database.{BlockRow}
use matryca_plumber.Shadow.Subtree.Rows.{
  own_rowid, or-true, ids-append, clash, and-left, keep-weaker,
}
use matryca_plumber.Shadow.Subtree.Walk.{ids, is_child}
use matryca_plumber.Shadow.Subtree.Cycle.{IsChild, Repeats, again, deeper}
use matryca_plumber.Shadow.Subtree.Query.{
  SubtreeBlock, below, is_new_child, next_level, levels, at_depth, next_at_depth,
}

abbrev pub rowids : List SubtreeBlock → List ℕ
rowids = map (λ s. s.row.rowid)

rowids-below : (s : SubtreeBlock) (bs : List BlockRow) → rowids (map (below s) bs) ≡ ids bs
rowids-below s [] = refl
rowids-below s (b ∷ bs) = ap (λ rest. b.rowid ∷ rest) (rowids-below s bs)

rowids-append :
    (xs ys : List SubtreeBlock) (c : ℕ)
    → contains (rowids (xs ++ ys)) c ≡ (contains (rowids xs) c || contains (rowids ys) c)
rowids-append [] ys c = refl
rowids-append (x ∷ xs) ys c = ground (arith, rowids-append xs ys c)

-- By children on the page, `n` of them, one comes from a row to another.
abbrev pub Chain : List BlockRow → ℕ → ℕ → ℕ → ℕ → Type 0
Chain blocks page zero r x = r ≡ x
Chain blocks page (suc n) r x = (c : ℕ) × IsChild blocks page r c × Chain blocks page n c x

module _ (blocks : List BlockRow) (page : ℕ) where
  pub record IsStraight (s : SubtreeBlock) : Type 0 where
    pub path : List ℕ
    pub passed : s.visited ≡ s.row.rowid ∷ path
    pub straight : ¬ Repeats blocks page path s.row.rowid

  unvisited :
      (s : SubtreeBlock) (c : ℕ)
      → IsStraight s
      → IsChild blocks page s.row.rowid c
      → contains s.visited c ≡ false
  unvisited s c st child = elim (Bool-cases (contains s.visited c)) [
    | inl met ↦
        absurd (st.straight (deeper c child (again (ap (λ v. contains v c) (sym st.passed) ∙ met))))
    | inr new ↦ new
  ]

  new_child :
      (s : SubtreeBlock) (c : ℕ)
      → IsStraight s
      → IsChild blocks page s.row.rowid c
      → contains (ids (keep (is_new_child blocks page s) blocks)) c ≡ true
  new_child s c st child =
      keep-weaker (is_child page s.row.rowid) (is_new_child blocks page s) blocks c
        (λ b e h. simp (h, ap (contains s.visited) e, unvisited s c st child) refl) child

  next-has :
      (level : List SubtreeBlock) (r c : ℕ)
      → All IsStraight level
      → contains (rowids level) r ≡ true
      → IsChild blocks page r c
      → contains (rowids (next_level blocks page level)) c ≡ true
  unfolding next_level
  next-has [] r c all h child = absurd (clash (sym h))
  next-has (s ∷ level) r c all h child =
      rowids-append (map (below s) (keep (is_new_child blocks page s) blocks))
        (next_level blocks page level) c
      ∙ ap (λ l. contains l c || contains (rowids (next_level blocks page level)) c)
          (rowids-below s (keep (is_new_child blocks page s) blocks))
      ∙ (elim (Bool-cases (s.row.rowid == r)) [
        | inl same ↦
            let mine : IsChild blocks page s.row.rowid c =
              subst (λ i. IsChild blocks page i c) (sym ((==_iff s.row.rowid r).0 same)) child in
            ap (λ t. t || contains (rowids (next_level blocks page level)) c)
              (new_child s c all.0 mine)
        | inr other ↦
            ap (λ t. contains (ids (keep (is_new_child blocks page s) blocks)) c || t)
              (next-has level r c all.1 (simp other at h) child)
            ∙ or-true (contains (ids (keep (is_new_child blocks page s) blocks)) c)
      ])

  below-IsStraight :
      (s : SubtreeBlock) (b : BlockRow)
      → IsStraight s
      → contains (ids (keep (is_new_child blocks page s) blocks)) b.rowid ≡ true
      → IsStraight (below s b)
  below-IsStraight s b st h = record {
    path = s.row.rowid ∷ st.path;
    passed = ap (λ v. b.rowid ∷ v) st.passed;
    straight = λ p. st.straight (deeper b.rowid child p);
  }
    where
      child : IsChild blocks page s.row.rowid b.rowid
      child =
          keep-weaker (is_new_child blocks page s) (is_child page s.row.rowid) blocks b.rowid
            (λ d e k. and-left (is_child page s.row.rowid d) _ k) h

  below_each-IsStraight :
      (s : SubtreeBlock) (bs : List BlockRow)
      → IsStraight s
      → All (λ b. contains (ids (keep (is_new_child blocks page s) blocks)) b.rowid ≡ true) bs
      → All IsStraight (map (below s) bs)
  below_each-IsStraight s [] st all = tt
  below_each-IsStraight s (b ∷ bs) st all =
      (below-IsStraight s b st all.0, below_each-IsStraight s bs st all.1)

  next-IsStraight :
      (level : List SubtreeBlock)
      → All IsStraight level
      → All IsStraight (next_level blocks page level)
  unfolding next_level
  next-IsStraight [] all = tt
  next-IsStraight (s ∷ level) all =
      All-append IsStraight (map (below s) (keep (is_new_child blocks page s) blocks)) _
        (below_each-IsStraight s (keep (is_new_child blocks page s) blocks) all.0
          (own_rowid (keep (is_new_child blocks page s) blocks)))
        (next-IsStraight level all.1)

  pub levels-has :
      (left : ℕ) (level : List SubtreeBlock) (n r x : ℕ)
      → All IsStraight level
      → contains (rowids level) r ≡ true
      → Chain blocks page n r x
      → n ≤ left
      → contains (rowids (levels blocks page left level)) x ≡ true
  unfolding levels
  levels-has zero level zero r x all h chain low = ap (contains (rowids level)) (sym chain) ∙ h
  levels-has zero level (suc n) r x all h chain low = absurd (omega arith)
  levels-has (suc left) level zero r x all h chain low =
      rowids-append level (levels blocks page left (next_level blocks page level)) x
      ∙ ap (λ t. t || contains (rowids (levels blocks page left (next_level blocks page level))) x)
          (ap (contains (rowids level)) (sym chain) ∙ h)
  levels-has (suc left) level (suc n) r x all h (c, child, chain) low =
      rowids-append level (levels blocks page left (next_level blocks page level)) x
      ∙ ap (λ t. contains (rowids level) x || t)
          (levels-has left (next_level blocks page level) n c x (next-IsStraight level all)
            (next-has level r c all h child) chain (omega arith))
      ∙ or-true (contains (rowids level) x)

  plain_next-has :
      (level : List BlockRow) (r c : ℕ)
      → contains (ids level) r ≡ true
      → IsChild blocks page r c
      → contains (ids (next_at_depth blocks page level)) c ≡ true
  unfolding next_at_depth
  plain_next-has [] r c h child = absurd (clash (sym h))
  plain_next-has (b ∷ level) r c h child =
      ids-append (keep (is_child page b.rowid) blocks) (next_at_depth blocks page level) c
      ∙ (elim (Bool-cases (b.rowid == r)) [
        | inl same ↦
            ap (λ t. t || contains (ids (next_at_depth blocks page level)) c)
              (subst (λ i. IsChild blocks page i c) (sym ((==_iff b.rowid r).0 same)) child)
        | inr other ↦
            ap (λ t. contains (ids (keep (is_child page b.rowid) blocks)) c || t)
              (plain_next-has level r c (simp other at h) child)
            ∙ or-true (contains (ids (keep (is_child page b.rowid) blocks)) c)
      ])

  pub at_depth-nonempty :
      (depth : ℕ) (level : List BlockRow) (n r x : ℕ)
      → contains (ids level) r ≡ true
      → Chain blocks page n r x
      → depth ≤ n
      → is_empty (at_depth blocks page depth level) ≡ false
  unfolding at_depth
  at_depth-nonempty zero [] n r x h chain low = absurd (clash (sym h))
  at_depth-nonempty zero (b ∷ level) n r x h chain low = refl
  at_depth-nonempty (suc depth) level zero r x h chain low = absurd (omega arith)
  at_depth-nonempty (suc depth) level (suc n) r x h (c, child, chain) low =
      at_depth-nonempty depth (next_at_depth blocks page level) n c x
        (plain_next-has level r c h child) chain (omega arith)
