-- ===== src/Topology/Facts.antt =====
-- semantics/topology_interpretation.py: the facts, and what the traversal looks up.
use dexpi_datalog.Prelude.{
  String, Option, none, some, List, [], ◌∷◌, string_eq, contains, all_of, if◌then◌else◌,
}
use dexpi_datalog.Prelude.Dict
use dexpi_datalog.Prelude.Dict.{Dict}
use dexpi_datalog.Json.{Json, obj, Fields, end}

-- `DIRECTED_RELATIONSHIPS`
abbrev pub directed_relationships : List String
directed_relationships =
    "source" ∷ "target" ∷ "sourceItem" ∷ "targetItem" ∷ "sourceNode" ∷ "targetNode" ∷ []

-- `TOPOLOGY_ATTR_NAMES` of semantics/derive_graph_semantics.py
abbrev pub topology_attr_names : List String
topology_attr_names =
    "connections" ∷ "connectorReference" ∷ "nodes" ∷ "pipingNetworkSystems" ∷ "segments" ∷ "source"
    ∷ "sourceItem" ∷ "sourceNode" ∷ "target" ∷ "targetItem" ∷ "targetNode" ∷ []

-- The nodes and edges of graph facts. A node has its id and its attributes, an edge its ends and its
-- key; the KeyErrors for a missing one are left out. Attributes may be any value, and an edge
-- without them is one with an empty dict.
pub record FactNode : Type 0 where
  pub node_id : String
  pub attributes : Json

pub record FactEdge : Type 0 where
  pub source_id : String
  pub target_id : String
  pub edge_key : String
  pub attributes : Json

-- `attributes if isinstance(attributes, dict) else {}`
abbrev pub attributes_of : Json → Fields
attributes_of (obj d) = d
attributes_of _ = end

pub record RawEdgeIdentity : Type 0 where
  pub source_id : String
  pub target_id : String
  pub edge_key : String

pub record StructuralPathWitness : Type 0 where
  pub raw_node_ids : List String
  pub raw_edges : List RawEdgeIdentity
  pub topology_node_ids : List String
  pub topology_edge_ids : List String
  pub relationships : List String

-- An entry of `_adjacency`: neighbor, edge id, relationship, raw edge.
pub record Entry : Type 0 where
  pub neighbor : String
  pub edge_id : String
  pub relationship : String
  pub raw_edge : RawEdgeIdentity

abbrev pub Adjacency : Type 0
Adjacency = Dict String (List Entry)

pub data Basis : Type 0 where
  explicit inferred unknown : Basis

-- `classify_path_direction_basis`
unfoldable pub classify_path_direction_basis : List String → Basis
classify_path_direction_basis [] = unknown
classify_path_direction_basis (r ∷ rs) =
    if all_of (contains directed_relationships) (r ∷ rs) then explicit else inferred

-- What `__init__` leaves in the object, as far as a traversal reads it.
pub record Interpretation : Type 0 where
  pub session_id : String
  pub source_id : Option String
  pub topology_to_raw : Dict String String
  pub node_info : Dict String Fields
  pub adjacency : Adjacency

abbrev entries_or : Option (List Entry) → List Entry
entries_or none = []
entries_or (some es) = es

-- self._adjacency.get(current_id, [])
unfoldable pub entries : Adjacency → String → List Entry
entries a u = entries_or (Dict.get u a)

abbrev raw_or : String → Option String → String
raw_or u none = u
raw_or u (some raw) = raw

-- self._topology_to_raw_node_id.get(id, id)
unfoldable pub raw_id : Interpretation → String → String
raw_id i u = raw_or u (Dict.get u i.topology_to_raw)
