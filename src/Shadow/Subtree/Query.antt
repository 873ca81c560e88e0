-- ===== src/Shadow/Subtree/Query.antt =====
-- The subtree read (src/shadow/subtree.py): the bounded query, the byte limit and the answer. What
-- `json.loads` reads as the `id` of a block's properties is an argument, the empty text if there is
-- none. `visited` and `path_key` are texts in the query; the rowids that `visited` joins by commas
-- are a list here.
use matryca_plumber.Prelude.{
  ℕ, zero, suc, ◌+◌, ◌-◌, min, max, Bool, true, false, not, ◌&&◌, ◌||◌, Option, none, some, List,
  [], ◌∷◌, ◌++◌, map, ◌==◌, ltb, leb, nat_eq, contains, keep, length, take, if◌then◌else◌,
}
use matryca_plumber.Prelude.Text.{Text, text, text_eq, is_empty, strip}
use matryca_plumber.Prelude.Sort.{text_leb, sorted}
use matryca_plumber.Prelude.Decimal.{ℤ, clamp_zero, str}
use matryca_plumber.Shadow.Database.{BlockRow}
use matryca_plumber.Shadow.Subtree.Walk.{is_child}

pub data SubtreeStatus : Type 0 where
  not_found complete truncated inconsistent : SubtreeStatus

-- A row of the query: the columns of the block, and those that the query computes.
pub record SubtreeBlock : Type 0 where
  pub row : BlockRow
  pub depth : ℕ
  pub path_key : Text
  pub visited : List ℕ

pub data Detail : Type 0 where
  empty_uuid missing_block cross_page_child parent_cycle limits_exceeded : Detail

pub record SubtreeQueryResult : Type 0 where
  pub status : SubtreeStatus
  pub anchor_uuid : Text
  pub page_id : Option ℕ
  pub nodes : List SubtreeBlock
  pub excerpt_markdown : Text
  pub detail : Option Detail

-- `max(1, min(int(n), bound))`
abbrev pub clamp_limit : ℕ → ℤ → ℕ
clamp_limit bound n = max 1 (min (clamp_zero n) bound)

-- `printf('%020d,%020d', sort_order, rowid)`
abbrev zeros : ℕ → Text
zeros zero = []
zeros (suc n) = b'0' ∷ zeros n

abbrev pub padded : ℕ → Text
padded n = let digits = str n in zeros (20 - length digits) ++ digits

abbrev pub key_of : BlockRow → Text
key_of b = padded b.sort_order ++ (b',' ∷ padded b.rowid)

-- `SELECT … FROM blocks WHERE block_uuid = ?`
unfoldable pub fetch_anchor : List BlockRow → Text → Option BlockRow
fetch_anchor [] block_uuid = none
fetch_anchor (b ∷ bs) block_uuid =
    if b.block_uuid == block_uuid then some b else fetch_anchor bs block_uuid

abbrev pub as_anchor : BlockRow → SubtreeBlock
as_anchor b = record { row = b; depth = 0; path_key = key_of b; visited = b.rowid ∷ [] }

abbrev pub below : SubtreeBlock → BlockRow → SubtreeBlock
below s b = record {
  row = b;
  depth = s.depth + 1;
  path_key = s.path_key ++ (b'/' ∷ key_of b);
  visited = b.rowid ∷ s.visited;
}

module _ (blocks : List BlockRow) (page : ℕ) where
  abbrev pub is_new_child : SubtreeBlock → BlockRow → Bool
  is_new_child s b = is_child page s.row.rowid b && not (contains s.visited b.rowid)

  unfoldable pub next_level : List SubtreeBlock → List SubtreeBlock
  next_level [] = []
  next_level (s ∷ level) = map (below s) (keep (is_new_child s) blocks) ++ next_level level

  -- The rows of `subtree`, with the levels that `depth < depth_cap` still lets it add.
  unfoldable pub levels : ℕ → List SubtreeBlock → List SubtreeBlock
  unfolding next_level
  levels zero level = level
  levels (suc left) level = level ++ levels left (next_level level)

  unfoldable pub subtree : ℕ → ℕ → List SubtreeBlock
  unfolding levels
  subtree anchor_rowid max_depth =
      levels (max_depth - 1) (map as_anchor (keep (λ b. b.rowid == anchor_rowid) blocks))

  unfoldable pub fetch_subtree_rows : ℕ → ℕ → ℕ → List SubtreeBlock
  unfolding subtree
  fetch_subtree_rows anchor_rowid max_depth max_nodes =
      take max_nodes
        (sorted (λ a b. text_leb a.path_key b.path_key) (subtree anchor_rowid max_depth))

  unfoldable pub count_subtree_nodes : ℕ → ℕ → ℕ
  unfolding subtree
  count_subtree_nodes anchor_rowid max_depth = length (subtree anchor_rowid max_depth)

  -- `at_depth`, whose query visits a row as often as it is reached.
  unfoldable pub next_at_depth : List BlockRow → List BlockRow
  next_at_depth [] = []
  next_at_depth (b ∷ level) = keep (is_child page b.rowid) blocks ++ next_at_depth level

  unfoldable pub at_depth : ℕ → List BlockRow → List BlockRow
  unfolding next_at_depth
  at_depth zero level = level
  at_depth (suc depth) level = at_depth depth (next_at_depth level)

  unfoldable pub has_depth_or_node_truncation : ℕ → ℕ → ℕ → ℕ → Bool
  unfolding at_depth count_subtree_nodes
  has_depth_or_node_truncation anchor_rowid max_depth max_nodes fetched_count =
      (leb max_nodes fetched_count
        && ltb fetched_count (count_subtree_nodes anchor_rowid max_depth))
      || not
          (is_empty (at_depth (suc (max_depth - 1)) (keep (λ b. b.rowid == anchor_rowid) blocks)))

-- The bytes of a code point, and of a text, in UTF-8.
abbrev byte_length : ℕ → ℕ
byte_length c = if ltb c 128 then 1 else if ltb c 2048 then 2 else if ltb c 65536 then 3 else 4

unfoldable pub utf8_length : Text → ℕ
utf8_length [] = 0
utf8_length (c ∷ s) = byte_length c + utf8_length s

abbrev pub indent : ℕ → Text
indent zero = []
indent (suc n) = text "  " ++ indent n

abbrev pub truncation_notice : Text
truncation_notice = 10 ∷ 8230 ∷ (text " [truncated: output byte limit exceeded]" ++ (10 ∷ []))

-- `rstrip("\n")`
abbrev without_newline : ℕ → Text → Text
without_newline c [] = if c == 10 then [] else c ∷ []
without_newline c (d ∷ s) = c ∷ d ∷ s

unfoldable pub rstrip_newlines : Text → Text
rstrip_newlines [] = []
rstrip_newlines (c ∷ s) = without_newline c (rstrip_newlines s)

module _ (id_property : Text → Text) where
  -- The lines of `_render_block_lines`, joined.
  unfoldable pub render_block : BlockRow → Text
  render_block b =
      let prefix = indent b.indent_level in
      let block_id = strip (id_property b.properties_json) in
      prefix
      ++ (text "- "
          ++ (b.content
              ++ (10
                  ∷ (if is_empty block_id
                      then []
                      else prefix ++ (text "  id:: " ++ (block_id ++ (10 ∷ [])))))))

  -- The loop after the first block: what it selects, the text, and whether it broke off.
  unfoldable pub select_within : ℕ → ℕ → List SubtreeBlock → List SubtreeBlock × Text × Bool
  unfolding render_block
  select_within max_output_bytes used [] = ([], [], false)
  select_within max_output_bytes used (s ∷ more) =
      let rendered = render_block s.row in
      let (selected, parts, broke) =
        select_within max_output_bytes (used + utf8_length rendered) more in
      if ltb max_output_bytes (used + utf8_length rendered)
      then ([], [], true)
      else (s ∷ selected, rendered ++ parts, broke)

  abbrev pub excerpt_of : Text → Bool → Text
  excerpt_of parts false = parts
  excerpt_of [] true = 8230 ∷ (text " [truncated: output byte limit exceeded]" ++ (10 ∷ []))
  excerpt_of (c ∷ parts) true = rstrip_newlines (c ∷ parts) ++ truncation_notice

  -- The first block is always selected.
  unfoldable pub apply_output_byte_limit : ℕ → List SubtreeBlock → List SubtreeBlock × Text × Bool
  unfolding select_within
  apply_output_byte_limit max_output_bytes [] = ([], [], false)
  apply_output_byte_limit max_output_bytes (s ∷ more) =
      let rendered = render_block s.row in
      let (selected, parts, broke) = select_within max_output_bytes (utf8_length rendered) more in
      let cut = ltb max_output_bytes (utf8_length rendered) || broke in
      (s ∷ selected, excerpt_of (rendered ++ parts) cut, cut)
