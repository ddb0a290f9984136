-- ===== src/Semantics.antt =====
-- semantics/derive_graph_semantics.py: graph facts as the text of a Soufflé program.
pub mod Read
pub mod Kept
mod Tests
use Prim.Native.Char.{Char, code}
use dexpi_datalog.Prelude.{
  ℕ, String, Bool, true, false, List, [], ◌∷◌, ◌++◌, ◌==◌, string_eq, map, nat_beq, if◌then◌else◌,
}
use dexpi_datalog.Prelude.Text.{◌⊕◌, join}
use dexpi_datalog.Prelude.Sort.{sort, text_le, texts_le}
use dexpi_datalog.Json.{Json, Fields, end, field}

abbrev pub quote : ℕ
quote = 34

abbrev pub backslash : ℕ
backslash = 92

-- s.replace(c, t), where c is the character with code n
unfoldable pub replace : ℕ → String → String → String
replace n t String.[] = String.[]
replace n t (String.◌∷◌ c s) =
    let rest = replace n t s in if nat_beq (code c) n then t ⊕ rest else String.◌∷◌ c rest

-- `souffle_symbol`
unfoldable pub souffle_symbol : String → String
unfolding replace
souffle_symbol value = "\"" ⊕ (replace quote "\\\"" (replace backslash "\\\\" value) ⊕ "\"")

-- f"{predicate}({souffle_symbol(a)}, {souffle_symbol(b)}, …)."
unfoldable pub render_fact : String → List String → String
unfolding souffle_symbol join
render_fact predicate arguments =
    predicate ⊕ ("(" ⊕ (join ", " (map souffle_symbol arguments) ⊕ ")."))

-- The nodes and edges of an artifact's facts, with dicts of attributes, as this module needs them.
pub record ArtifactNode : Type 0 where
  pub node_id : String
  pub attributes : Fields

pub record ArtifactEdge : Type 0 where
  pub source_id : String
  pub target_id : String
  pub edge_key : String
  pub attributes : Fields

-- `derive_nodes`
abbrev pub derive_nodes : List ArtifactNode → List String
derive_nodes nodes = map (λ (n : ArtifactNode). n.node_id) nodes

-- `render_node_facts`
unfoldable pub render_node_facts : List String → List String
unfolding render_fact sort
render_node_facts nodes = map (λ id. render_fact "node" (id ∷ [])) (sort text_le nodes)

abbrev pub items : Fields → List (String × Json)
items end = []
items (field k v d) = (k, v) ∷ items d

abbrev pub name_le : String × Json → String × Json → Bool
name_le a b = text_le a.0 b.0

-- sorted(attributes.items()), whose names are distinct
unfoldable pub sorted_items : Fields → List (String × Json)
unfolding sort
sorted_items attributes = sort name_le (items attributes)

abbrev pub edge_ids : ArtifactEdge → List String
edge_ids e = e.source_id ∷ e.target_id ∷ e.edge_key ∷ []

abbrev pub edge_le : ArtifactEdge → ArtifactEdge → Bool
edge_le a b = texts_le (edge_ids a) (edge_ids b)

unfoldable pub sorted_edges : List ArtifactEdge → List ArtifactEdge
unfolding sort
sorted_edges edges = sort edge_le edges

-- `render_graph_edge_facts`
unfoldable pub render_graph_edge_facts : List ArtifactEdge → List String
unfolding sorted_edges render_fact
render_graph_edge_facts edges =
    map (λ e. render_fact "graph_edge" (edge_ids e)) (sorted_edges edges)

abbrev declarations : List String
declarations =
    ".decl node(id:symbol)" ∷ ".decl node_attribute(id:symbol, attr_name:symbol, attr_value:symbol)"
    ∷ ".decl graph_edge(source:symbol, target:symbol, edge_key:symbol)"
    ∷ ".decl graph_edge_attribute(source:symbol, target:symbol, edge_key:symbol, attr_name:symbol, attr_value:symbol)"
    ∷ "" ∷ []

module _ (to_str : Json → String) where
  abbrev pub attribute_fact : String → List String → String × Json → String
  unfolding render_fact
  attribute_fact predicate key item = render_fact predicate (key ++ item.0 ∷ to_str item.1 ∷ [])

  -- `render_node_attribute_facts`
  unfoldable pub render_node_attribute_facts : List ArtifactNode → List String
  unfolding sorted_items render_fact
  render_node_attribute_facts [] = []
  render_node_attribute_facts (n ∷ nodes) =
      map (attribute_fact "node_attribute" (n.node_id ∷ [])) (sorted_items n.attributes)
      ++ render_node_attribute_facts nodes

  unfoldable pub edge_attribute_facts : List ArtifactEdge → List String
  unfolding sorted_items render_fact
  edge_attribute_facts [] = []
  edge_attribute_facts (e ∷ edges) =
      map (attribute_fact "graph_edge_attribute" (edge_ids e)) (sorted_items e.attributes)
      ++ edge_attribute_facts edges

  -- `render_graph_edge_attribute_facts`
  unfoldable pub render_graph_edge_attribute_facts : List ArtifactEdge → List String
  unfolding edge_attribute_facts sorted_edges
  render_graph_edge_attribute_facts edges = edge_attribute_facts (sorted_edges edges)

  -- the lines of the facts, in order
  unfoldable pub fact_lines : List ArtifactNode → List ArtifactEdge → List String
  unfolding render_node_facts render_node_attribute_facts render_graph_edge_facts
      render_graph_edge_attribute_facts
  fact_lines nodes edges =
      render_node_facts (derive_nodes nodes)
      ++ (render_node_attribute_facts nodes
          ++ (render_graph_edge_facts edges ++ render_graph_edge_attribute_facts edges))

  -- `build_graph_facts_datalog`
  unfoldable pub build_graph_facts_datalog : List ArtifactNode → List ArtifactEdge → String
  unfolding fact_lines join
  build_graph_facts_datalog nodes edges = join "\n" (declarations ++ fact_lines nodes edges) ⊕ "\n"
