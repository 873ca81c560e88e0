-- ===== src/Shadow/Subtree/Tests.antt =====
-- The walks at two blocks that are each other's parent, and at a parent with its child.
use matryca_plumber.Prelude.{
  ℕ, ◌≡◌, ◌⊎◌, refl, true, false, none, some, List, [], ◌∷◌, contains, arith, nat_eq,
}
use matryca_plumber.Prelude.Text.{Text, text, strip}
use matryca_plumber.Shadow.Database.{BlockRow}
use matryca_plumber.Shadow.Subtree.Walk.{has_cycle_in_subtree, has_cross_page_edge}
use matryca_plumber.Shadow.Subtree.Cycle.{Repeats, cycle-decided}
use matryca_plumber.Prelude.Decimal.{pos, str}
use matryca_plumber.Prelude.Sort.{sorted, text_leb}
use matryca_plumber.Shadow.Subtree.Query.{
  SubtreeQueryResult, complete, truncated, fetch_anchor, fetch_subtree_rows,
  has_depth_or_node_truncation, apply_output_byte_limit, utf8_length,
}
use matryca_plumber.Shadow.Subtree.Answer.{read_rows, query_subtree_by_block_uuid}
use matryca_plumber.Shadow.Subtree.Whole.{rowids}
use matryca_plumber.Shadow.Subtree.Complete.{complete-whole}
use matryca_plumber.Shadow.Subtree.Crossing.{complete-own_page}
use mathlib.Core.List.Memᴰ

abbrev upper : BlockRow
upper = record {
  rowid = 1;
  block_uuid = text "a";
  page_id = 7;
  parent_rowid = none;
  sort_order = 0;
  indent_level = 0;
  content = text "x";
  properties_json = text "{}";
  synced_at = text "";
}

abbrev lower_row : BlockRow
lower_row = record upper { rowid = 2; block_uuid = text "b"; parent_rowid = some 1 }

abbrev tree : List BlockRow
tree = upper ∷ lower_row ∷ []

abbrev ring : List BlockRow
ring = record upper { parent_rowid = some 2 } ∷ lower_row ∷ []

tree_runs : has_cycle_in_subtree tree 7 3 1 ≡ some false
unfolding has_cycle_in_subtree
tree_runs = refl

ring_runs : has_cycle_in_subtree ring 7 3 1 ≡ some true
unfolding has_cycle_in_subtree
ring_runs = refl

abbrev foreign : BlockRow
foreign = record upper { rowid = 3; block_uuid = text "c"; page_id = 9; parent_rowid = some 2 }

tree_walk_runs : has_cross_page_edge tree 1 7 ≡ false
unfolding has_cross_page_edge
tree_walk_runs = refl

ring_walk_runs : has_cross_page_edge ring 1 7 ≡ false
unfolding has_cross_page_edge
ring_walk_runs = refl

foreign_walk_runs : has_cross_page_edge (foreign ∷ tree) 1 7 ≡ true
unfolding has_cross_page_edge
foreign_walk_runs = refl

cycle-decided_example :
    ((has_cycle_in_subtree ring 7 3 1 ≡ some true) × Repeats ring 7 [] 1)
    ⊎ ((has_cycle_in_subtree ring 7 3 1 ≡ some false) × ¬ Repeats ring 7 [] 1)
cycle-decided_example = cycle-decided ring 7 3 1 refl (omega arith)

abbrev no_id : Text → Text
no_id s = []

-- The read of the tree, whole, and cut after its first block.
abbrev read_tree : ℕ → SubtreeQueryResult
read_tree = read_rows no_id tree (text "a") upper 64 500

tree_read :
    query_subtree_by_block_uuid no_id tree 3 (text " a ") (pos 64) (pos 500) (pos 9)
    ≡ some (read_tree 9)
unfolding query_subtree_by_block_uuid has_cross_page_edge has_cycle_in_subtree
tree_read = refl

tree_whole : (read_tree 9).status ≡ complete
unfolding read_rows fetch_subtree_rows has_depth_or_node_truncation apply_output_byte_limit
    utf8_length sorted text_leb str strip
tree_whole = refl

tree_cut : (read_tree 7).status ≡ truncated
unfolding read_rows fetch_subtree_rows has_depth_or_node_truncation apply_output_byte_limit
    utf8_length sorted text_leb str strip
tree_cut = refl

anchor_found : fetch_anchor tree (strip (text " a ")) ≡ some upper
unfolding fetch_anchor strip
anchor_found = refl

complete-whole_example : contains (rowids (read_tree 9).nodes) 2 ≡ true
complete-whole_example =
    complete-whole no_id tree 3 (text " a ") (pos 64) (pos 500) (pos 9) upper (read_tree 9) 1 2
      anchor_found tree_read tree_whole (2, refl, refl)

-- The child of the tree hangs below its own page.
complete-own_page_example : lower_row.page_id ≡ upper.page_id
complete-own_page_example =
    complete-own_page no_id tree 3 (text " a ") (pos 64) (pos 500) (pos 9) upper (read_tree 9) 0 1
      lower_row anchor_found (refl, tt) tree_read tree_whole refl (Memᴰ.tail (Memᴰ.head refl)) refl
