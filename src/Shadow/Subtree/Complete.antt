-- ===== src/Shadow/Subtree/Complete.antt =====
-- A subtree read that answers COMPLETE misses no descendant: the headline over `Whole`.
use native.Mathlib.Decide.{dec_lt}
use matryca_plumber.Prelude.{
  ℕ, suc, ◌-◌, ◌≤◌, ◌≡◌, refl, sym, ap, ◌∙◌, subst, Bool, true, false, ◌&&◌, ◌||◌, Option, none,
  some, List, [], ◌∷◌, map, ◌==◌, ltb, leb, nat_eq, contains, ==_refl, ==_iff, keep, length,
  length-take, Bool-cases, inl, inr, arith, All, some_inj,
}
use matryca_plumber.Prelude.Text.{Text, text_eq, is_empty, strip}
use matryca_plumber.Prelude.Decimal.{ℤ}
use matryca_plumber.Prelude.Sort.{text_leb, sorted, contains-sorted, length-sorted}
use matryca_plumber.Shadow.Database.{BlockRow}
use matryca_plumber.Shadow.Subtree.Rows.{keep-pass, or-true, clash, or-right}
use matryca_plumber.Shadow.Subtree.Limits.{
  apply-all, take-all, within-limit, status-complete, or-left, not-false,
}
use matryca_plumber.Shadow.Subtree.Walk.{ids}
use matryca_plumber.Shadow.Subtree.Cycle.{Repeats, no_cycle-free}
use matryca_plumber.Shadow.Subtree.Query.{
  SubtreeBlock, SubtreeQueryResult, complete, inconsistent, not_found, as_anchor, subtree,
  fetch_subtree_rows, fetch_anchor, count_subtree_nodes, at_depth, has_depth_or_node_truncation,
}
use matryca_plumber.Shadow.Subtree.Answer.{
  read_rows, after_cycle_check, after_page_check, query_subtree_by_block_uuid,
}
use matryca_plumber.Shadow.Subtree.Whole.{rowids, Chain, IsStraight, levels-has, at_depth-nonempty}

none_given :
    {answer : SubtreeQueryResult} → ◌≡◌ {A = Option SubtreeQueryResult} none (some answer) → ⊥
none_given h = cc h

no_anchor : {anchor : BlockRow} → ◌≡◌ {A = Option BlockRow} none (some anchor) → ⊥
no_anchor h = cc h

unlike : inconsistent ≡ complete → ⊥
unlike h = cc h

pub missing-ne-complete : not_found ≡ complete → ⊥
missing-ne-complete h = cc h

module _ (blocks : List BlockRow) (page anchor_rowid : ℕ) where
  abbrev anchors : List BlockRow → List BlockRow
  anchors = keep (λ b. b.rowid == anchor_rowid)

  anchors-there :
      (bs : List BlockRow)
      → contains (ids bs) anchor_rowid ≡ true
      → contains (ids (anchors bs)) anchor_rowid ≡ true
  anchors-there [] h = h
  anchors-there (b ∷ bs) h = ground (arith, anchors-there bs)

  rowids-anchors : (bs : List BlockRow) → rowids (map as_anchor bs) ≡ ids bs
  rowids-anchors [] = refl
  rowids-anchors (b ∷ bs) = ap (λ rest. b.rowid ∷ rest) (rowids-anchors bs)

  anchors-IsStraight :
      ¬ Repeats blocks page [] anchor_rowid
      → (bs : List BlockRow) → All (λ b. (b.rowid == anchor_rowid) ≡ true) bs
      → All (IsStraight blocks page) (map as_anchor bs)
  anchors-IsStraight free [] all = tt
  anchors-IsStraight free (b ∷ bs) all =
      let e : anchor_rowid ≡ b.rowid = sym ((==_iff b.rowid anchor_rowid).0 all.0) in
      (
        record {
          path = [];
          passed = refl;
          straight = subst (λ r. ¬ Repeats blocks page [] r) e free;
        },
        anchors-IsStraight free bs all.1,
      )

  -- What the node limit leaves is everything, if it does not say that there is more.
  fetched-all :
      (max_depth max_nodes : ℕ)
      → (leb max_nodes (length (fetch_subtree_rows blocks page anchor_rowid max_depth max_nodes))
          && ltb
              (length (fetch_subtree_rows blocks page anchor_rowid max_depth max_nodes))
              (count_subtree_nodes blocks page anchor_rowid max_depth))
        ≡ false
      → fetch_subtree_rows blocks page anchor_rowid max_depth max_nodes
        ≡ sorted
            (λ a b. text_leb a.path_key b.path_key)
            (subtree blocks page anchor_rowid max_depth)
  unfolding fetch_subtree_rows count_subtree_nodes
  fetched-all max_depth max_nodes h =
      take-all max_nodes
        (sorted (λ a b. text_leb a.path_key b.path_key)
          (subtree blocks page anchor_rowid max_depth))
        (within-limit max_nodes _ _ _
          (length-take max_nodes (
            sorted (λ a b. text_leb a.path_key b.path_key)
              (subtree blocks page anchor_rowid max_depth)))
          (length-sorted (λ a b. text_leb a.path_key b.path_key)
            (subtree blocks page anchor_rowid max_depth))
          h)

  -- A descendant is no deeper than the depth limit, if nothing is below the limit.
  shallow :
      (max_depth n x : ℕ)
      → contains (ids blocks) anchor_rowid ≡ true
      → is_empty (at_depth blocks page (suc (max_depth - 1)) (anchors blocks)) ≡ true
      → Chain blocks page n anchor_rowid x
      → n ≤ max_depth - 1
  shallow max_depth n x there none_below chain = elim (dec_lt (max_depth - 1) n) [
    | no small ↦ omega arith
    | yes deep ↦ absurd (
        clash (
          sym none_below
          ∙ at_depth-nonempty blocks page (suc (max_depth - 1)) (anchors blocks) n anchor_rowid x
              (anchors-there blocks there) chain (omega arith)))
  ]

  -- Every descendant is among the rows of the query.
  subtree-has :
      (max_depth n x : ℕ)
      → contains (ids blocks) anchor_rowid ≡ true
      → ¬ Repeats blocks page [] anchor_rowid
      → Chain blocks page n anchor_rowid x
      → n ≤ max_depth - 1
      → contains (rowids (subtree blocks page anchor_rowid max_depth)) x ≡ true
  unfolding subtree
  subtree-has max_depth n x there free chain low =
      levels-has blocks page (max_depth - 1) (map as_anchor (anchors blocks)) n anchor_rowid x
        (anchors-IsStraight free (anchors blocks) (keep-pass (λ b. b.rowid == anchor_rowid) blocks))
        (ap (λ l. contains l anchor_rowid) (rowids-anchors (anchors blocks))
          ∙ anchors-there blocks there)
        chain low

module _ (id_property : Text → Text) (blocks : List BlockRow) (anchor : BlockRow) where
  read-complete :
      (anchor_uuid : Text) (max_depth max_nodes max_bytes n x : ℕ)
      → contains (ids blocks) anchor.rowid ≡ true
      → ¬ Repeats blocks anchor.page_id [] anchor.rowid
      → (read_rows id_property blocks anchor_uuid anchor max_depth max_nodes max_bytes).status
        ≡ complete
      → Chain blocks anchor.page_id n anchor.rowid x
      → contains
          (rowids
            (read_rows id_property blocks anchor_uuid anchor max_depth max_nodes max_bytes).nodes)
          x
        ≡ true
  unfolding read_rows has_depth_or_node_truncation
  read-complete anchor_uuid max_depth max_nodes max_bytes n x there free h chain =
      let rows : List SubtreeBlock =
        fetch_subtree_rows blocks anchor.page_id anchor.rowid max_depth max_nodes in
      let whole = status-complete _ h in
      let deeper = or-right _ _ whole in
      let all_rows =
        fetched-all blocks anchor.page_id anchor.rowid max_depth max_nodes (or-left _ _ deeper) in
      ap (λ l. contains (rowids l) x) (apply-all id_property max_bytes rows (or-left _ _ whole))
      ∙ ap (λ l. contains (rowids l) x) all_rows
      ∙ contains-sorted (λ a b. text_leb a.path_key b.path_key) (λ s. s.row.rowid)
          (subtree blocks anchor.page_id anchor.rowid max_depth) x
      ∙ subtree-has blocks anchor.page_id anchor.rowid max_depth n x there free chain (
          shallow blocks anchor.page_id anchor.rowid max_depth n x there
            (not-false _ (or-right _ _ deeper)) chain)

  -- What the checks of the query let through.
  pub after-checks :
      (crossing : Bool) (cycle : Option Bool) (anchor_uuid : Text)
      (rows answer : SubtreeQueryResult)
      → after_page_check crossing anchor_uuid anchor
          (after_cycle_check cycle anchor_uuid anchor rows)
        ≡ some answer
      → answer.status ≡ complete
      → (crossing ≡ false) × (cycle ≡ some false) × (rows ≡ answer)
  after-checks true cycle anchor_uuid rows answer h k =
      absurd (unlike (ap (λ (r : SubtreeQueryResult). r.status) (some_inj h) ∙ k))
  after-checks false none anchor_uuid rows answer h k = absurd (none_given h)
  after-checks false (some true) anchor_uuid rows answer h k =
      absurd (unlike (ap (λ (r : SubtreeQueryResult). r.status) (some_inj h) ∙ k))
  after-checks false (some false) anchor_uuid rows answer h k = (refl, refl, some_inj h)

pub anchor-there :
    (blocks : List BlockRow) (block_uuid : Text) (anchor : BlockRow)
    → fetch_anchor blocks block_uuid ≡ some anchor
    → contains (ids blocks) anchor.rowid ≡ true
unfolding fetch_anchor
anchor-there [] block_uuid anchor h = absurd (no_anchor h)
anchor-there (b ∷ blocks) block_uuid anchor h = elim (Bool-cases (b.block_uuid == block_uuid)) [
  | inl same ↦
      let e : b ≡ anchor = some_inj (simp same at h) in
      subst (λ (a : BlockRow). (b.rowid == a.rowid || contains (ids blocks) a.rowid) ≡ true) e
        (simp (==_refl b.rowid) refl)
  | inr other ↦
      ap (λ t. b.rowid == anchor.rowid || t)
        (anchor-there blocks block_uuid anchor (simp other at h))
      ∙ or-true (b.rowid == anchor.rowid)
]

-- If the subtree read returns COMPLETE for a block that is there, every row that one comes to from
-- the block by children on its page, in any number of steps, is among the nodes of the answer.
pub complete-whole :
    (id_property : Text → Text) (blocks : List BlockRow) (recursion : ℕ) (block_uuid : Text)
    (max_depth max_nodes max_bytes : ℤ) (anchor : BlockRow) (answer : SubtreeQueryResult) (n x : ℕ)
    → fetch_anchor blocks (strip block_uuid) ≡ some anchor
    → query_subtree_by_block_uuid id_property blocks recursion block_uuid max_depth max_nodes
        max_bytes
      ≡ some answer
    → answer.status ≡ complete
    → Chain blocks anchor.page_id n anchor.rowid x
    → contains (rowids answer.nodes) x ≡ true
unfolding query_subtree_by_block_uuid
complete-whole id_property blocks recursion block_uuid max_depth max_nodes max_bytes anchor answer n
      x found h done chain =
    elim (Bool-cases (is_empty (strip block_uuid))) [
      | inl blank ↦ absurd (
          missing-ne-complete
            (ap (λ (r : SubtreeQueryResult). r.status) (some_inj (simp blank at h)) ∙ done))
      | inr given ↦
          let (alone, no_cycle, same) =
            after-checks id_property blocks anchor _ _ (strip block_uuid) _ answer
              (simp (given, found) at h) done in
          ap (λ (r : SubtreeQueryResult). contains (rowids r.nodes) x) (sym same)
          ∙ read-complete id_property blocks anchor (strip block_uuid) _ _ _ n x
              (anchor-there blocks (strip block_uuid) anchor found)
              (no_cycle-free blocks anchor.page_id recursion anchor.rowid no_cycle)
              (ap (λ (r : SubtreeQueryResult). r.status) same ∙ done) chain
    ]
