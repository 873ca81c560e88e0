-- ===== src/Shadow/Outline.antt =====
-- A parsed page and its flattened blocks (src/shadow/sync.py). The parser is a package outside the
-- repository: a page is what it returned.
use matryca_plumber.Prelude.{ℕ, ◌+◌, Option, none, some, List, [], ◌∷◌, ◌++◌, if◌then◌else◌}
use matryca_plumber.Prelude.Text.{Text, strip, is_empty}

-- The fields of a `LogseqNode` that the synchronisation reads; `id_property` is `properties["id"]`.
pub record NodeFields : Type 0 where
  pub id_property : Option Text
  pub source_uuid : Option Text
  pub uuid : Text
  pub indent_level : ℕ
  pub content : Text
  pub properties_json : Text

mutual
  pub data Node : Type 0 where
    node : NodeFields → Nodes → Node

  pub data Nodes : Type 0 where
    nil : Nodes
    cons : Node → Nodes → Nodes

pub record FlatBlock : Type 0 where
  pub block_uuid : Text
  pub parent_uuid : Option Text
  pub sort_order : ℕ
  pub indent : ℕ
  pub content : Text
  pub properties_json : Text

-- A text that is present and not empty.
truthy : Option Text → Option Text
truthy none = none
truthy (some t) = if is_empty t then none else some t

unfoldable pub block_uuid_of : NodeFields → Text
unfolding truthy
block_uuid_of n = elim (truthy n.id_property) [
  | some explicit ↦ strip explicit
  | none ↦ elim (truthy n.source_uuid) [ some source ↦ strip source | none ↦ strip n.uuid ]
]

flat_block : NodeFields → Option Text → ℕ → FlatBlock
flat_block n parent_uuid sort_order = record {
  block_uuid = block_uuid_of n;
  parent_uuid = parent_uuid;
  sort_order = sort_order;
  indent = n.indent_level;
  content = n.content;
  properties_json = n.properties_json;
}

unfoldable mutual
  unfolding flat_block

  -- A node and all below it, which stands at `sort_order` among its siblings.
  pub walk_node : Node → Option Text → ℕ → List FlatBlock
  walk_node (node n children) parent_uuid sort_order =
      flat_block n parent_uuid sort_order ∷ walk_blocks children (some (block_uuid_of n)) 0

  pub walk_blocks : Nodes → Option Text → ℕ → List FlatBlock
  walk_blocks nil parent_uuid sort_base = []
  walk_blocks (cons n more) parent_uuid sort_base =
      walk_node n parent_uuid sort_base ++ walk_blocks more parent_uuid (sort_base + 1)

-- `BoundedGraphParseFailure`
pub record ParseFailure : Type 0 where
  pub error : Text
  pub content_hash : Text
  pub byte_count : ℕ
  pub line_count : ℕ

pub record ParsedPage : Type 0 where
  pub properties_json : Text
  pub root_nodes : Nodes

pub data ParseResult : Type 0 where
  parsed : ParsedPage → ParseResult
  failed : Option ParseFailure → ParseResult

-- A file of the graph, with the result of its bounded parse.
pub record SourceFile : Type 0 where
  pub mtime_ns : ℕ
  pub size : ℕ
  pub parse_result : ParseResult
