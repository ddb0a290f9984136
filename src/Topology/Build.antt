-- ===== src/Topology/Build.antt =====
-- `TopologyInterpretation.__init__` of semantics/topology_interpretation.py, and its helpers.
pub mod Known
pub mod Neighbors
pub mod Total
use dexpi_datalog.Prelude.{
  ℕ, zero, suc, ◌+◌, String, Bool, true, false, Option, none, some, List, [], ◌∷◌, ◌++◌, map, ◌==◌,
  nat_eq, string_eq, list_eq, contains, if◌then◌else◌,
}
use dexpi_datalog.Prelude.Dict
use dexpi_datalog.Prelude.Dict.{Dict}
use dexpi_datalog.Prelude.Text.{◌⊕◌, slice_to}
use dexpi_datalog.Prelude.Sort.{sort, text_le, texts_le}
use dexpi_datalog.Json
use dexpi_datalog.Json.{Json, null, str, obj, Fields, end, field, truthy}
use dexpi_datalog.Topology.Facts.{
  topology_attr_names, attributes_of, FactNode, FactEdge, RawEdgeIdentity, Entry, Adjacency,
  Interpretation, entries,
}

-- Python's library: `hashlib.sha256` as hex digits, `json.dumps` with sorted keys (with its default
-- separators, and compact), and `str` of an integer and of a JSON value.
pub record Python : Type 0 where
  pub sha256_hex : String → String
  pub dumps : Json → String
  pub dumps_compact : Json → String
  pub decimal : ℕ → String
  pub to_str : Json → String

abbrev pub text_at : String → Fields → Option String
text_at k d = elim (Json.get k d) [ some (str s) ↦ some s | _ ↦ none ]

abbrev count_or : Option ℕ → ℕ
count_or none = 0
count_or (some n) = n

abbrev json_or_null : Option Json → Json
json_or_null none = null
json_or_null (some v) = v

abbrev fields_of : Option Json → Option Fields
fields_of (some (obj d)) = some d
fields_of _ = none

-- `if isinstance(raw_id, str) and isinstance(topology_id, str): mapped[raw_id] = topology_id`
abbrev put_if : Option String → Option String → Dict String String → Dict String String
put_if (some raw) (some topology) m = Dict.put raw topology m
put_if _ _ m = m

-- one node of the view: its id, if it is a text, and its raw id
unfoldable pub add_mapped : List Json → Dict String String → Dict String String
add_mapped [] m = m
add_mapped (obj node ∷ ns) m =
    add_mapped ns (put_if (text_at "source_graph_node_id" node) (text_at "id" node) m)
add_mapped (_ ∷ ns) m = add_mapped ns m

abbrev put_node : Option String → Fields → Dict String Fields → Dict String Fields
put_node (some topology) node info = Dict.put topology node info
put_node none node info = info

unfoldable pub add_view_info : List Json → Dict String Fields → Dict String Fields
add_view_info [] info = info
add_view_info (obj node ∷ ns) info = add_view_info ns (put_node (text_at "id" node) node info)
add_view_info (_ ∷ ns) info = add_view_info ns info

abbrev put_new : String → Option Fields → Fields → Dict String Fields → Dict String Fields
put_new topology (some _) node info = info
put_new topology none node info = Dict.put topology node info

abbrev pub raw_identity : FactEdge → RawEdgeIdentity
raw_identity edge = record {
  source_id = edge.source_id;
  target_id = edge.target_id;
  edge_key = edge.edge_key;
}

abbrev pub entry_to : String → String → String → RawEdgeIdentity → Entry
entry_to v eid r raw = record { neighbor = v; edge_id = eid; relationship = r; raw_edge = raw }

module _ (py : Python) where
  open py use {sha256_hex, dumps, dumps_compact, decimal, to_str}

  -- `stable_hash_id`
  stable_hash_id : String → Json → String
  stable_hash_id prefix payload = prefix ⊕ ("-" ⊕ slice_to 16 (sha256_hex (dumps_compact payload)))

  add_stable : List FactNode → Dict String ℕ → Dict String String → Dict String String
  unfolding stable_hash_id
  add_stable [] counts m = m
  add_stable (node ∷ ns) counts m =
      let base = stable_hash_id "node" node.attributes in
      let suffix = count_or (Dict.get base counts) + 1 in
      let stable = if suffix == 1 then base else base ⊕ ("-" ⊕ decimal suffix) in
      add_stable ns (Dict.put base suffix counts) (Dict.put node.node_id stable m)

  attributes_le : FactNode → FactNode → Bool
  attributes_le a c = text_le (dumps a.attributes) (dumps c.attributes)

  -- `build_stable_node_id_map`
  unfoldable pub build_stable_node_id_map : List FactNode → Dict String String
  unfolding add_stable attributes_le
  build_stable_node_id_map ns = add_stable (sort attributes_le ns) [] []

  abbrev or_stable : List FactNode → Dict String String → Dict String String
  or_stable ns [] = build_stable_node_id_map ns
  or_stable ns (x ∷ m) = x ∷ m

  -- `_node_id_map`
  unfoldable pub node_id_map : List Json → List FactNode → Dict String String
  node_id_map view ns = or_stable ns (add_mapped view [])

  -- the info of a node that the view does not have
  fact_info : String → String → Fields → Fields
  fact_info topology raw attributes =
      let label = Json.get_or "label" (str topology) attributes in
      let tag = json_or_null (Json.get "tagName" attributes) in
      let display =
        if truthy tag
        then tag
        else let own = json_or_null (Json.get "label" attributes) in
          if truthy own then own else str topology in
      field "id" (str topology) (
        field "label" label (
          field "tag_name" tag (
            field "display_name" display (
              field "class_name" (Json.get_or "label" (str "") attributes)
                (field "category" (str "other") (field "source_graph_node_id" (str raw) end))))))

  -- the second loop of `_build_node_info`; `none` is the KeyError of an unmapped raw id
  unfoldable pub add_fact_info :
      Dict String String → List FactNode → Dict String Fields → Option (Dict String Fields)
  unfolding fact_info
  add_fact_info m [] info = some info
  add_fact_info m (n ∷ ns) info = elim (Dict.get n.node_id m) [
    | none ↦ none
    | some topology ↦ add_fact_info m ns (
        put_new topology (Dict.get topology info)
          (fact_info topology n.node_id (attributes_of n.attributes)) info)
  ]

  -- `stable_edge_id`, where both ends are mapped
  stable_edge_id : FactEdge → String → String → String
  unfolding stable_hash_id
  stable_edge_id edge source target = stable_hash_id "edge" (
      obj (
        field "source_id" (str source) (
          field "target_id" (str target) (
            field "edge_key" (str edge.edge_key) (
              field "relationship"
                (json_or_null (Json.get "attr_name" (attributes_of edge.attributes)))
                (field "edge_family"
                  (json_or_null (Json.get "label" (attributes_of edge.attributes))) end))))))

  abbrev put_edge :
      Option String
      → Option String
      → Json
      → String
      → Dict (List String) String
      → Dict (List String) String
  put_edge (some source) (some target) key eid m =
      Dict.put (source ∷ target ∷ to_str key ∷ []) eid m
  put_edge _ _ key eid m = m

  abbrev add_view_edge :
      Option String → Option Fields → Dict (List String) String → Dict (List String) String
  add_view_edge (some eid) (some e) m =
      put_edge (text_at "source_id" e) (text_at "target_id" e)
        (json_or_null (Json.get "edge_key" e)) eid m
  add_view_edge _ _ m = m

  -- `_build_topology_edge_id_map`
  unfoldable pub topology_edge_id_map :
      List Json → Dict (List String) String → Dict (List String) String
  topology_edge_id_map [] m = m
  topology_edge_id_map (obj edge ∷ es) m =
      topology_edge_id_map es
        (add_view_edge (text_at "id" edge) (fields_of (Json.get "source_graph_edge" edge)) m)
  topology_edge_id_map (_ ∷ es) m = topology_edge_id_map es m

  abbrev mapped_or : Option String → String → String
  mapped_or (some eid) other = eid
  mapped_or none other = other

  -- `_edge_id_for_fact_edge`
  edge_id_for_fact_edge : Dict (List String) String → FactEdge → String → String → String
  unfolding stable_edge_id
  edge_id_for_fact_edge known edge source target =
      mapped_or (Dict.get (edge.source_id ∷ edge.target_id ∷ edge.edge_key ∷ []) known)
        (stable_edge_id edge source target)

  -- adjacency.setdefault(u, []).append(e)
  unfoldable pub add_entry : String → Entry → Adjacency → Adjacency
  unfolding entries
  add_entry u e a = Dict.put u (entries a u ++ e ∷ []) a

  -- both directions of an edge between mapped ends
  unfoldable pub add_edge :
      Dict (List String) String
      → FactEdge
      → String
      → Option String
      → Option String
      → Adjacency
      → Adjacency
  unfolding edge_id_for_fact_edge
  add_edge known edge relationship (some source) (some target) a =
      let eid = edge_id_for_fact_edge known edge source target in
      let to = λ (v : String). entry_to v eid relationship (raw_identity edge) in
      add_entry target (to source) (add_entry source (to target) a)
  add_edge known edge relationship _ _ a = a

  unfoldable pub add_edges :
      Dict String String → Dict (List String) String → List FactEdge → Adjacency → Adjacency
  add_edges m known [] a = a
  add_edges m known (edge ∷ es) a =
      let relationship =
        to_str (Json.get_or "attr_name" (str "") (attributes_of edge.attributes)) in
      add_edges m known es (
        if contains topology_attr_names relationship
        then add_edge known edge relationship (Dict.get edge.source_id m)
            (Dict.get edge.target_id m) a
        else a)

  entry_le : Entry → Entry → Bool
  entry_le e f =
      texts_le (e.neighbor ∷ e.edge_id ∷ e.relationship ∷ [])
        (f.neighbor ∷ f.edge_id ∷ f.relationship ∷ [])

  unfoldable pub sort_entries : Adjacency → Adjacency
  unfolding entry_le
  sort_entries [] = []
  sort_entries ((u, es) ∷ a) = (u, sort entry_le es) ∷ sort_entries a

  -- {topology_id: raw_id for raw_id, topology_id in m.items()}
  inverse : Dict String String → Dict String String → Dict String String
  inverse [] r = r
  inverse ((raw, topology) ∷ m) r = inverse m (Dict.put topology raw r)

  -- `__init__`; `none` is the KeyError of `_build_node_info`
  unfoldable pub interpret :
      List FactNode
      → List FactEdge
      → List Json
      → List Json
      → String
      → Option String
      → Option Interpretation
  unfolding inverse
  interpret nodes edges view_nodes view_edges session source =
      let m = node_id_map view_nodes nodes in
      elim (add_fact_info m nodes (add_view_info view_nodes [])) [
        | none ↦ none
        | some info ↦ some (record {
          session_id = session;
          source_id = source;
          topology_to_raw = inverse m [];
          node_info = info;
          adjacency = sort_entries (add_edges m (topology_edge_id_map view_edges []) edges []);
        })
      ]
