-- ===== src/Shadow/Subtree/Cycle.antt =====
-- The depth-first search finds exactly the repetitions below a block, and it ends.
use matryca_plumber.Prelude.{
  ℕ, zero, suc, ◌≤◌, ◌<◌, ◌≡◌, ◌≢◌, ◌⊎◌, inl, inr, refl, sym, ◌∙◌, Bool, true, false, Option, none,
  some, List, [], ◌∷◌, ◌==◌, nat_eq, contains, ==_refl, ==_iff, keep, length, if◌then◌else◌,
  Bool-cases, arith, subst,
}
use matryca_plumber.Prelude.Sort.{contains-sorted}
use matryca_plumber.Shadow.Database.{BlockRow}
use matryca_plumber.Shadow.Subtree.Walk.{
  ids, is_child, in_order, children, any_child, dfs, has_cycle_in_subtree,
}

answer-cases : (o : Option Bool) → (o ≡ none) ⊎ ((o ≡ some true) ⊎ (o ≡ some false))
answer-cases none = inl refl
answer-cases (some true) = inr (inl refl)
answer-cases (some false) = inr (inr refl)

none-ne-some : {b : Bool} → ◌≡◌ {A = Option Bool} none (some b) → ⊥
none-ne-some h = cc h

some-ne-none : {b : Bool} → ◌≡◌ {A = Option Bool} (some b) none → ⊥
some-ne-none h = cc h

pub true-ne-false : ◌≡◌ {A = Option Bool} (some true) (some false) → ⊥
true-ne-false h = cc h

module _ (blocks : List BlockRow) (page : ℕ) where
  -- `c` is the row of a child on the page.
  abbrev pub IsChild : ℕ → ℕ → Type 0
  IsChild parent c = contains (ids (keep (is_child page parent) blocks)) c ≡ true

  -- From a row whose rows above are `path`, one can descend by children to a row that was passed.
  pub data Repeats : List ℕ → ℕ → Type 0 where
    again : {path : List ℕ} {r : ℕ} → contains path r ≡ true → Repeats path r
    deeper : {path : List ℕ} {r : ℕ} (c : ℕ) → IsChild r c → Repeats (r ∷ path) c → Repeats path r

  sorted-IsChild : (r c : ℕ) → contains (ids (children blocks page r)) c ≡ true → IsChild r c
  unfolding children
  sorted-IsChild r c h =
      sym (contains-sorted in_order (λ b. b.rowid) (keep (is_child page r) blocks) c) ∙ h

  IsChild-sorted : (r c : ℕ) → IsChild r c → contains (ids (children blocks page r)) c ≡ true
  unfolding children
  IsChild-sorted r c h =
      contains-sorted in_order (λ b. b.rowid) (keep (is_child page r) blocks) c ∙ h

  found-child :
      (search : ℕ → Option Bool) (cs : List ℕ)
      → any_child search cs ≡ some true
      → (c : ℕ) × (contains cs c ≡ true) × (search c ≡ some true)
  unfolding any_child
  found-child search [] h = cc
  found-child search (c ∷ cs) h = elim (answer-cases (search c)) [
    | inl lost ↦ absurd (none-ne-some (simp lost at h))
    | inr (inl found) ↦ (c, ground (arith, ==_refl c), found)
    | inr (inr other) ↦
        let (d, k, l) = found-child search cs (simp other at h) in (d, ground arith, l)
  ]

  searched-child :
      (search : ℕ → Option Bool) (cs : List ℕ) (c : ℕ)
      → any_child search cs ≡ some false
      → contains cs c ≡ true
      → search c ≡ some false
  unfolding any_child
  searched-child search [] c h k = cc
  searched-child search (d ∷ cs) c h k = elim (answer-cases (search d)) [
    | inl lost ↦ absurd (none-ne-some (simp lost at h))
    | inr (inl found) ↦ absurd (true-ne-false (simp found at h))
    | inr (inr other) ↦ elim (Bool-cases (d == c)) [
      | inl same ↦ subst (λ x. search x ≡ some false) ((==_iff d c).0 same) other
      | inr apart ↦ searched-child search cs c (simp other at h) (simp apart at k)
    ]
  ]

  ended-child :
      (search : ℕ → Option Bool) (cs : List ℕ)
      → ((c : ℕ) → contains cs c ≡ true → search c ≢ none)
      → any_child search cs ≢ none
  unfolding any_child
  ended-child search [] all h = cc
  ended-child search (c ∷ cs) all h = elim (answer-cases (search c)) [
    | inl lost ↦ all c (simp (==_refl c) refl) lost
    | inr (inl found) ↦ some-ne-none (simp found at h)
    | inr (inr other) ↦ ended-child search cs (λ d k. all d (ground arith)) (simp other at h)
  ]

  dfs-Repeats :
      (depth : ℕ) (path : List ℕ) (r : ℕ)
      → dfs blocks page depth path r ≡ some true
      → Repeats path r
  unfolding dfs
  dfs-Repeats zero path r h = absurd (none-ne-some h)
  dfs-Repeats (suc depth) path r h = elim (Bool-cases (contains path r)) [
    | inl passed ↦ again passed
    | inr new ↦
        let (c, k, l) =
          found-child (dfs blocks page depth (r ∷ path)) (ids (children blocks page r))
            (simp new at h) in
        deeper c (sorted-IsChild r c k) (dfs-Repeats depth (r ∷ path) c l)
  ]

  Repeats-dfs :
      (depth : ℕ) {path : List ℕ} {r : ℕ}
      → Repeats path r
      → dfs blocks page depth path r ≢ some false
  unfolding dfs
  Repeats-dfs zero p h = none-ne-some h
  Repeats-dfs (suc depth) {path} {r} (again passed) h = true-ne-false (simp passed at h)
  Repeats-dfs (suc depth) {path} {r} (deeper c child p) h = elim (Bool-cases (contains path r)) [
    | inl passed ↦ true-ne-false (simp passed at h)
    | inr new ↦ Repeats-dfs depth p (
        searched-child (dfs blocks page depth (r ∷ path)) (ids (children blocks page r)) c
          (simp new at h) (IsChild-sorted r c child))
  ]

-- How many of the rowids are not on the path.
abbrev pub room : List ℕ → List ℕ → ℕ
room path [] = 0
room path (i ∷ rowids) = if contains path i then room path rowids else suc (room path rowids)

pub room-le : (path rowids : List ℕ) → room path rowids ≤ length rowids
room-le path [] = omega arith
room-le path (i ∷ rowids) = ground (arith, room-le path rowids)

room_mono : (r : ℕ) (path rowids : List ℕ) → room (r ∷ path) rowids ≤ room path rowids
room_mono r path [] = omega arith
room_mono r path (i ∷ rowids) = ground (arith, room_mono r path rowids)

-- A new row takes one place.
pub room_falls :
    (r : ℕ) (path rowids : List ℕ)
    → contains rowids r ≡ true
    → contains path r ≡ false
    → room (r ∷ path) rowids < room path rowids
room_falls r path [] h k = cc
room_falls r path (i ∷ rowids) h k = elim (Bool-cases (i == r)) [
  | inl same ↦
      let e : i ≡ r = (==_iff i r).0 same in
      subst (λ x. room (r ∷ path) (x ∷ rowids) < room path (x ∷ rowids)) (sym e)
        (ground (arith, k, ==_refl r, room_mono r path rowids))
  | inr other ↦ ground (arith, room_falls r path rowids (simp other at h) k, ==_iff r i)
]

pub contains-keep :
    (p : BlockRow → Bool) (bs : List BlockRow) (c : ℕ)
    → contains (ids (keep p bs)) c ≡ true
    → contains (ids bs) c ≡ true
contains-keep p [] c h = cc
contains-keep p (b ∷ bs) c h = ground (arith, contains-keep p bs c)

module _ (blocks : List BlockRow) (page : ℕ) where
  -- With more depth than rows that are left, the search ends.
  dfs-ends :
      (depth : ℕ) (path : List ℕ) (r : ℕ)
      → contains (ids blocks) r ≡ true
      → room path (ids blocks) < depth
      → dfs blocks page depth path r ≢ none
  unfolding dfs
  dfs-ends zero path r there h = absurd (omega arith)
  dfs-ends (suc depth) path r there h = elim (Bool-cases (contains path r)) [
    | inl passed ↦ simp passed some-ne-none
    | inr new ↦ simp new (
        ended-child blocks page (dfs blocks page depth (r ∷ path)) (ids (children blocks page r))
          (λ c k.
            dfs-ends depth (r ∷ path) c
              (contains-keep (is_child page r) blocks c (sorted-IsChild blocks page r c k))
              (omega (arith, room_falls r path (ids blocks) there new))))
  ]

  -- A search that answers `False` has found all there is.
  pub no_cycle-free :
      (depth anchor_rowid : ℕ)
      → has_cycle_in_subtree blocks page depth anchor_rowid ≡ some false
      → ¬ Repeats blocks page [] anchor_rowid
  unfolding has_cycle_in_subtree
  no_cycle-free depth anchor_rowid h p = Repeats-dfs blocks page depth p h

  -- For an anchor among the blocks and a recursion that may be deeper than their number, the search
  -- answers `True` if one can descend from the anchor to a row that was passed, and `False` if not.
  pub cycle-decided :
      (depth anchor_rowid : ℕ)
      → contains (ids blocks) anchor_rowid ≡ true
      → length (ids blocks) < depth
      → ((has_cycle_in_subtree blocks page depth anchor_rowid ≡ some true)
          × Repeats blocks page [] anchor_rowid)
        ⊎ ((has_cycle_in_subtree blocks page depth anchor_rowid ≡ some false)
            × ¬ Repeats blocks page [] anchor_rowid)
  unfolding has_cycle_in_subtree
  cycle-decided depth anchor_rowid there enough =
      elim (answer-cases (dfs blocks page depth [] anchor_rowid)) [
        | inl lost ↦
            absurd
              (dfs-ends depth [] anchor_rowid there (omega (arith, room-le [] (ids blocks))) lost)
        | inr (inl found) ↦ inl (found, dfs-Repeats blocks page depth [] anchor_rowid found)
        | inr (inr not_found) ↦ inr (not_found, λ p. Repeats-dfs blocks page depth p not_found)
      ]
