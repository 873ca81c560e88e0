-- ===== src/Shadow/Subtree/Answer.antt =====
-- `query_subtree_by_block_uuid` (src/shadow/subtree.py), `none` is a cycle check whose
-- recursion is deeper than the limit.
use matryca_plumber.Prelude.{
  ℕ, Bool, true, false, ◌||◌, Option, none, some, List, [], length, if◌then◌else◌,
}
use matryca_plumber.Prelude.Text.{Text, is_empty, strip}
use matryca_plumber.Prelude.Decimal.{ℤ}
use matryca_plumber.Shadow.Database.{BlockRow}
use matryca_plumber.Shadow.Subtree.Walk.{has_cycle_in_subtree, has_cross_page_edge}
use matryca_plumber.Shadow.Subtree.Query.{
  SubtreeStatus, not_found, complete, truncated, inconsistent, SubtreeBlock, Detail, empty_uuid,
  missing_block, cross_page_child, parent_cycle, limits_exceeded, SubtreeQueryResult, clamp_limit,
  fetch_anchor, fetch_subtree_rows, has_depth_or_node_truncation, apply_output_byte_limit,
}

abbrev pub without_nodes : SubtreeStatus → Text → Option ℕ → Detail → SubtreeQueryResult
without_nodes status anchor_uuid page_id detail = record {
  status = status;
  anchor_uuid = anchor_uuid;
  page_id = page_id;
  nodes = [];
  excerpt_markdown = [];
  detail = some detail;
}

abbrev pub with_nodes : Text → ℕ → List SubtreeBlock × Text × Bool → Bool → SubtreeQueryResult
with_nodes anchor_uuid page_id (selected, excerpt, cut) deeper =
    let over = cut || deeper in
    record {
      status = if over then truncated else complete;
      anchor_uuid = anchor_uuid;
      page_id = some page_id;
      nodes = selected;
      excerpt_markdown = excerpt;
      detail = if over then some limits_exceeded else none;
    }

abbrev pub after_cycle_check :
    Option Bool → Text → BlockRow → SubtreeQueryResult → Option SubtreeQueryResult
after_cycle_check none anchor_uuid anchor answer = none
after_cycle_check (some true) anchor_uuid anchor answer =
    some (without_nodes inconsistent anchor_uuid (some anchor.page_id) parent_cycle)
after_cycle_check (some false) anchor_uuid anchor answer = some answer

abbrev pub after_page_check :
    Bool → Text → BlockRow → Option SubtreeQueryResult → Option SubtreeQueryResult
after_page_check true anchor_uuid anchor answer =
    some (without_nodes inconsistent anchor_uuid (some anchor.page_id) cross_page_child)
after_page_check false anchor_uuid anchor answer = answer

module _ (id_property : Text → Text) (blocks : List BlockRow) where
  -- The reads below an anchor that stands alone on its page and without a cycle.
  unfoldable pub read_rows : Text → BlockRow → ℕ → ℕ → ℕ → SubtreeQueryResult
  read_rows anchor_uuid anchor max_depth max_nodes max_bytes =
      let rows = fetch_subtree_rows blocks anchor.page_id anchor.rowid max_depth max_nodes in
      with_nodes anchor_uuid anchor.page_id (apply_output_byte_limit id_property max_bytes rows) (
        has_depth_or_node_truncation blocks anchor.page_id anchor.rowid max_depth max_nodes
          (length rows))

module _ (id_property : Text → Text) (blocks : List BlockRow) (recursion : ℕ) where
  abbrev pub below_anchor : Text → ℤ → ℤ → ℤ → Option BlockRow → Option SubtreeQueryResult
  below_anchor anchor_uuid max_depth max_nodes max_bytes none =
      some (without_nodes not_found anchor_uuid none missing_block)
  below_anchor anchor_uuid max_depth max_nodes max_bytes (some anchor) =
      after_page_check (has_cross_page_edge blocks anchor.rowid anchor.page_id) anchor_uuid anchor (
        after_cycle_check (has_cycle_in_subtree blocks anchor.page_id recursion anchor.rowid)
          anchor_uuid anchor
          (read_rows id_property blocks anchor_uuid anchor (clamp_limit 256 max_depth)
            (clamp_limit 10000 max_nodes) (clamp_limit 10000000 max_bytes)))

  unfoldable pub query_subtree_by_block_uuid : Text → ℤ → ℤ → ℤ → Option SubtreeQueryResult
  unfolding strip read_rows fetch_anchor
  query_subtree_by_block_uuid block_uuid max_depth max_nodes max_bytes =
      let anchor_uuid = strip block_uuid in
      if is_empty anchor_uuid
      then some (without_nodes not_found anchor_uuid none empty_uuid)
      else below_anchor anchor_uuid max_depth max_nodes max_bytes (fetch_anchor blocks anchor_uuid)
