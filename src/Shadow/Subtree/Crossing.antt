-- ===== src/Shadow/Subtree/Crossing.antt =====
-- The cross-page check sees every block of another page that hangs below the anchor.
use mathlib.Core.List.{Memᴰ}
use matryca_plumber.Prelude.{
  ℕ, zero, suc, ◌<◌, ◌≡◌, inl, inr, refl, sym, ap, ◌∙◌, Bool, true, false, ◌||◌, some, some_inj,
  List, [], ◌∷◌, All, All-append, All-map, ◌==◌, nat_eq, contains, ==_iff, keep, length, Bool-cases,
  arith,
}
use matryca_plumber.Prelude.Text.{Text, is_empty, strip}
use matryca_plumber.Prelude.Decimal.{ℤ}
use matryca_plumber.Shadow.Database.{BlockRow}
use matryca_plumber.Shadow.Subtree.Rows.{
  or-true, clash, ids-append, keep-pass, keep-true, keep-false, child-page,
}
use matryca_plumber.Shadow.Subtree.Walk.{
  ids, is_child, next_round, walk, crosses, at_rowid, is_any, has_cross_page_edge,
}
use matryca_plumber.Shadow.Subtree.Cycle.{
  IsChild, Repeats, again, deeper, room, room-le, room_falls, contains-keep, no_cycle-free,
}
use matryca_plumber.Shadow.Subtree.Whole.{Chain}
use matryca_plumber.Shadow.Subtree.Query.{SubtreeQueryResult, complete, fetch_anchor}
use matryca_plumber.Shadow.Subtree.Answer.{query_subtree_by_block_uuid}
use matryca_plumber.Shadow.Subtree.Complete.{after-checks, anchor-there, missing-ne-complete}

length-ids : (blocks : List BlockRow) → length (ids blocks) ≡ length blocks
length-ids [] = refl
length-ids (b ∷ blocks) = omega (arith, length-ids blocks)

any-head :
    (p : BlockRow → Bool) (b : BlockRow) (blocks : List BlockRow)
    → p b ≡ true
    → is_any (keep p (b ∷ blocks)) ≡ true
any-head p b blocks h = ap is_any (keep-true p b blocks h)

any-keep :
    (p : BlockRow → Bool) (blocks : List BlockRow) (d : BlockRow)
    → Memᴰ d blocks
    → p d ≡ true
    → is_any (keep p blocks) ≡ true
any-keep p [] d m h = elim m [ ]
any-keep p (b ∷ blocks) d (Memᴰ.head e) h = any-head p b blocks (ap p (sym e) ∙ h)
any-keep p (b ∷ blocks) d (Memᴰ.tail m) h = elim (Bool-cases (p b)) [
  | inl passes ↦ any-head p b blocks passes
  | inr fails ↦ ap is_any (keep-false p b blocks fails) ∙ any-keep p blocks d m h
]

module _ (blocks : List BlockRow) (page : ℕ) where
  abbrev pub OnPage : List BlockRow → Type 0
  OnPage = All (λ b. b.page_id ≡ page)

  child-next :
      (round : List BlockRow) (r c : ℕ)
      → OnPage round
      → contains (ids round) r ≡ true
      → IsChild blocks page r c
      → contains (ids (next_round blocks round)) c ≡ true
  unfolding next_round
  child-next [] r c on h child = cc
  child-next (b ∷ round) r c on h child =
      ids-append (keep (is_child b.page_id b.rowid) blocks) (next_round blocks round) c
      ∙ (elim (Bool-cases (b.rowid == r)) [
        | inl same ↦
            let here : contains (ids (keep (is_child b.page_id b.rowid) blocks)) c ≡ true =
              ap (λ q. contains (ids (keep (is_child q b.rowid) blocks)) c) on.0
              ∙ ap (λ q. contains (ids (keep (is_child page q) blocks)) c)
                  ((==_iff b.rowid r).0 same)
              ∙ child in
            ap (λ t. t || contains (ids (next_round blocks round)) c) here
        | inr other ↦
            let later : contains (ids (next_round blocks round)) c ≡ true =
              child-next round r c on.1 (simp other at h) child in
            ap (λ t. contains (ids (keep (is_child b.page_id b.rowid) blocks)) c || t) later
            ∙ or-true (contains (ids (keep (is_child b.page_id b.rowid) blocks)) c)
      ])

  next-OnPage : (round : List BlockRow) → OnPage round → OnPage (next_round blocks round)
  unfolding next_round
  next-OnPage [] on = tt
  next-OnPage (b ∷ round) on =
      All-append (λ d. d.page_id ≡ page) (keep (is_child b.page_id b.rowid) blocks) _
        (All-map _ _ (keep (is_child b.page_id b.rowid) blocks)
          (λ d h. child-page b.page_id b.rowid d h ∙ on.0)
          (keep-pass (is_child b.page_id b.rowid) blocks))
        (next-OnPage round on.1)

  anchors_there :
      (anchor_rowid : ℕ) (bs : List BlockRow)
      → contains (ids bs) anchor_rowid ≡ true
      → contains (ids (keep (at_rowid anchor_rowid) bs)) anchor_rowid ≡ true
  anchors_there anchor_rowid [] h = h
  anchors_there anchor_rowid (b ∷ bs) h = ground (arith, anchors_there anchor_rowid bs)

  unpassed : (path : List ℕ) (r : ℕ) → ¬ Repeats blocks page path r → contains path r ≡ false
  unpassed path r straight = elim (Bool-cases (contains path r)) [
    | inl passed ↦ absurd (straight (again passed))
    | inr fresh ↦ fresh
  ]

  -- A chain from a row that does not repeat has fewer steps than there are blocks off its path.
  few_steps :
      (n r x : ℕ) (path : List ℕ)
      → ¬ Repeats blocks page path r
      → contains (ids blocks) r ≡ true
      → Chain blocks page n r x
      → n < room path (ids blocks)
  few_steps zero r x path straight there chain =
      omega (arith, room_falls r path (ids blocks) there (unpassed path r straight))
  few_steps (suc n) r x path straight there (c, child, rest) = omega (
    arith,
    room_falls r path (ids blocks) there (unpassed path r straight),
    few_steps n c x (r ∷ path) (λ p. straight (deeper c child p))
        (contains-keep (is_child page r) blocks c child) rest,
  )

  walk-has :
      (rounds : ℕ) (round : List BlockRow) (n r x : ℕ)
      → OnPage round
      → contains (ids round) r ≡ true
      → Chain blocks page n r x
      → n < rounds
      → contains (ids (walk blocks rounds round)) x ≡ true
  unfolding walk
  walk-has zero round n r x on h chain low = absurd (omega arith)
  walk-has (suc rounds) round zero r x on h chain low =
      ids-append round (walk blocks rounds (next_round blocks round)) x
      ∙ ap (λ t. t || contains (ids (walk blocks rounds (next_round blocks round))) x)
          (ap (contains (ids round)) (sym chain) ∙ h)
  walk-has (suc rounds) round (suc n) r x on h (c, child, rest) low =
      ids-append round (walk blocks rounds (next_round blocks round)) x
      ∙ ap (λ t. contains (ids round) x || t)
          (walk-has rounds (next_round blocks round) n c x (next-OnPage round on)
            (child-next round r c on h child) rest (omega arith))
      ∙ or-true (contains (ids round) x)

  crossing-seen :
      (anchor_rowid n x : ℕ) (d : BlockRow)
      → contains (ids blocks) anchor_rowid ≡ true
      → OnPage (keep (at_rowid anchor_rowid) blocks)
      → ¬ Repeats blocks page [] anchor_rowid
      → Chain blocks page n anchor_rowid x
      → Memᴰ d blocks
      → d.parent_rowid ≡ some x
      → (d.page_id == page) ≡ false
      → has_cross_page_edge blocks anchor_rowid page ≡ true
  unfolding has_cross_page_edge
  crossing-seen anchor_rowid n x d there on straight chain m under other =
      let rows = walk blocks (length blocks) (keep (at_rowid anchor_rowid) blocks) in
      let reached : contains (ids rows) x ≡ true =
        walk-has (length blocks) (keep (at_rowid anchor_rowid) blocks) n anchor_rowid x on
          (anchors_there anchor_rowid blocks there) chain
          (omega (
            arith,
            few_steps n anchor_rowid x [] straight there chain,
            room-le [] (ids blocks),
            length-ids blocks,
          )) in
      any-keep (crosses page rows) blocks d m (simp (other, under) reached)

-- If the subtree read returns COMPLETE for a block that is there, whose rowid only rows of its page
-- have, then every row whose parent one comes to from the block by children on its page, in any
-- number of steps, is a row of that page.
pub complete-own_page :
    (id_property : Text → Text) (blocks : List BlockRow) (recursion : ℕ) (block_uuid : Text)
    (max_depth max_nodes max_bytes : ℤ) (anchor : BlockRow) (answer : SubtreeQueryResult) (n x : ℕ)
    (d : BlockRow)
    → fetch_anchor blocks (strip block_uuid) ≡ some anchor
    → OnPage blocks anchor.page_id (keep (at_rowid anchor.rowid) blocks)
    → query_subtree_by_block_uuid id_property blocks recursion block_uuid max_depth max_nodes
        max_bytes
      ≡ some answer
    → answer.status ≡ complete
    → Chain blocks anchor.page_id n anchor.rowid x
    → Memᴰ d blocks
    → d.parent_rowid ≡ some x
    → d.page_id ≡ anchor.page_id
unfolding query_subtree_by_block_uuid
complete-own_page id_property blocks recursion block_uuid max_depth max_nodes max_bytes anchor
      answer n x d found on h done chain m under =
    elim (Bool-cases (is_empty (strip block_uuid))) [
      | inl blank ↦ absurd (
          missing-ne-complete
            (ap (λ (r : SubtreeQueryResult). r.status) (some_inj (simp blank at h)) ∙ done))
      | inr given ↦
          let (alone, no_cycle, same) =
            after-checks id_property blocks anchor _ _ (strip block_uuid) _ answer
              (simp (given, found) at h) done in
          elim (Bool-cases (d.page_id == anchor.page_id)) [
            | inl own ↦ (==_iff d.page_id anchor.page_id).0 own
            | inr other ↦ absurd (
                clash (
                  sym (
                    crossing-seen blocks anchor.page_id anchor.rowid n x d
                      (anchor-there blocks (strip block_uuid) anchor found) on
                      (no_cycle-free blocks anchor.page_id recursion anchor.rowid no_cycle) chain m
                      under other)
                  ∙ alone))
          ]
    ]
