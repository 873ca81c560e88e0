-- ===== src/Shadow/Subtree/Walk.antt =====
-- The two walks over the children of a block that the subtree read makes before it fetches: the
-- recursive query of `_has_cross_page_edge` and the depth-first search of `_has_cycle_in_subtree`
-- (src/shadow/subtree.py). Fuel bounds the depth of the recursion; `none` is one that is deeper.
use matryca_plumber.Prelude.{
  ℕ, zero, suc, Bool, true, false, not, ◌&&◌, ◌||◌, Option, none, some, List, [], ◌∷◌, ◌++◌, map,
  ◌==◌, ltb, leb, nat_eq, contains, keep, length, if◌then◌else◌,
}
use matryca_plumber.Prelude.Sort.{sorted}
use matryca_plumber.Shadow.Database.{BlockRow}

abbrev pub ids : List BlockRow → List ℕ
ids = map (λ b. b.rowid)

abbrev pub option_is : Option ℕ → ℕ → Bool
option_is none n = false
option_is (some m) n = m == n

-- `parent_rowid = ? AND page_id = ?`
abbrev pub is_child : ℕ → ℕ → BlockRow → Bool
is_child page parent b = option_is b.parent_rowid parent && b.page_id == page

-- `ORDER BY sort_order, rowid`
abbrev pub in_order : BlockRow → BlockRow → Bool
in_order a b =
    ltb a.sort_order b.sort_order || (a.sort_order == b.sort_order && leb a.rowid b.rowid)

abbrev pub or_next : Option Bool → Option Bool → Option Bool
or_next (some false) rest = rest
or_next found rest = found

-- The first child for which the search answers `True` ends the loop.
unfoldable pub any_child : (ℕ → Option Bool) → List ℕ → Option Bool
any_child search [] = some false
any_child search (c ∷ cs) = or_next (search c) (any_child search cs)

module _ (blocks : List BlockRow) (page : ℕ) where
  unfoldable pub children : ℕ → List BlockRow
  unfolding sorted
  children parent = sorted in_order (keep (is_child page parent) blocks)

  -- `dfs`; `path` are the rows above this one, which leave the set again when it returns.
  unfoldable pub dfs : ℕ → List ℕ → ℕ → Option Bool
  unfolding any_child children
  dfs zero path rowid = none
  dfs (suc depth) path rowid =
      let below = any_child (dfs depth (rowid ∷ path)) (ids (children rowid)) in
      if contains path rowid then some true else below

  unfoldable pub has_cycle_in_subtree : ℕ → ℕ → Option Bool
  unfolding dfs
  has_cycle_in_subtree depth anchor_rowid = dfs depth [] anchor_rowid

-- The recursive part of `walk`: the children on the page of a row.
unfoldable pub next_round : List BlockRow → List BlockRow → List BlockRow
next_round blocks [] = []
next_round blocks (b ∷ round) = keep (is_child b.page_id b.rowid) blocks ++ next_round blocks round

-- The rows of `walk`, round by round.
unfoldable pub walk : List BlockRow → ℕ → List BlockRow → List BlockRow
unfolding next_round
walk blocks zero round = []
walk blocks (suc rounds) round = round ++ walk blocks rounds (next_round blocks round)

abbrev pub parent_in : List ℕ → Option ℕ → Bool
parent_in rowids none = false
parent_in rowids (some p) = contains rowids p

abbrev pub crosses : ℕ → List BlockRow → BlockRow → Bool
crosses page rows b = not (b.page_id == page) && parent_in (ids rows) b.parent_rowid

abbrev pub is_any : List BlockRow → Bool
is_any [] = false
is_any (b ∷ bs) = true

abbrev pub at_rowid : ℕ → BlockRow → Bool
at_rowid rowid b = b.rowid == rowid

-- Whether the query has a row. A row of `walk` is found within as many rounds as there are blocks,
-- since later rounds only repeat rows. On a cycle `UNION ALL` repeats them without end, unless
-- SQLite chooses a plan that looks for blocks of other pages first: whether the query then answers
-- is a matter of that plan, and this is its answer if it does.
unfoldable pub has_cross_page_edge : List BlockRow → ℕ → ℕ → Bool
unfolding walk
has_cross_page_edge blocks anchor_rowid page =
    let rows = walk blocks (length blocks) (keep (at_rowid anchor_rowid) blocks) in
    is_any (keep (crosses page rows) blocks)
