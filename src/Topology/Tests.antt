-- ===== src/Topology/Tests.antt =====
-- A small drawing, and instances of the theorems at it.
use dexpi_datalog.Prelude.{
  ℕ, zero, String, ◌≡◌, ◌↔◌, ◌≢◌, refl, ◌⊎◌, inl, inr, Bool, true, false, Option, none, some, List,
  [], ◌∷◌, map, In, arith, string_eq,
}
use text.Mathlib.TextEquality.{eq_iff}
use dexpi_datalog.Prelude.Dict
use dexpi_datalog.Prelude.Sort.{text_le, texts_le, sort}
use dexpi_datalog.Json
use dexpi_datalog.Json.{Json, Fields, str, obj, end, field}
use dexpi_datalog.Topology.Facts.{
  FactNode, FactEdge, Entry, Interpretation, entries, raw_id, classify_path_direction_basis,
}
use dexpi_datalog.Topology.Build.{
  Python, interpret, build_stable_node_id_map, node_id_map, add_mapped, add_view_info,
  add_fact_info, add_edges, topology_edge_id_map, sort_entries,
}
use dexpi_datalog.Topology.Build.Neighbors.{interpret-IsKnown}
use dexpi_datalog.Topology.Build.Total.{AllMapped, interpret_returns_iff, interpret_without_view}
use dexpi_datalog.Topology.Search.{
  ReachableObject, ReachabilityResult, found, unknown_equipment, reachable_from, loop, start,
  expand, scan, offer, extend, object_of,
}
use dexpi_datalog.Topology.Search.Chains.{Chain}
use dexpi_datalog.Topology.Search.Total.{IsKnown}
use dexpi_datalog.Topology.Search.Correct.{
  ids, IsSupported, reachable_from_returns, reachable_from-IsSupported, reachable_from_exact,
}

abbrev text_of : Json → String
text_of (str s) = s
text_of v = ""

-- the label alone tells the nodes of the drawing apart
abbrev label_text : Json → String
label_text (Json.obj d) = text_of (Json.get_or "label" (str "") d)
label_text v = ""

abbrev python : Python
python = record {
  sha256_hex = λ s. s;
  dumps = label_text;
  dumps_compact = label_text;
  decimal = λ n. "n";
  to_str = text_of;
}

abbrev node : String → String → FactNode
node i label = record { node_id = i; attributes = obj (field "label" (str label) end) }

abbrev edge : String → String → String → FactEdge
edge s t r = record {
  source_id = s;
  target_id = t;
  edge_key = "0";
  attributes = obj (field "attr_name" (str r) end);
}

-- a pump with a nozzle on a pipe, and a note that no topology edge leads to
abbrev nodes : List FactNode
nodes = node "1" "Pump" ∷ node "2" "Nozzle" ∷ node "3" "Pipe" ∷ node "4" "Note" ∷ []

abbrev edges : List FactEdge
edges = edge "1" "2" "nodes" ∷ edge "2" "3" "sourceItem" ∷ edge "3" "4" "remark" ∷ []

abbrev built : Option Interpretation
built = interpret python nodes edges [] [] "session-1" none

abbrev empty : Interpretation
empty = record {
  session_id = "";
  source_id = none;
  topology_to_raw = [];
  node_info = [];
  adjacency = [];
}

abbrev or_empty : Option Interpretation → Interpretation
or_empty none = empty
or_empty (some i) = i

abbrev drawing : Interpretation
drawing = or_empty built

drawing-built : built ≡ some drawing
unfolding interpret node_id_map build_stable_node_id_map add_mapped add_view_info add_fact_info
    topology_edge_id_map add_edges sort_entries sort text_le texts_le Dict.get Dict.put entries
    Json.get Json.get_or
drawing-built = refl

interpret-IsKnown_example : IsKnown drawing
interpret-IsKnown_example =
    interpret-IsKnown python nodes edges [] [] "session-1" none drawing drawing-built

interpret_without_view_example :
    (i : Interpretation) × (interpret python nodes edges [] [] "session-1" none ≡ some i)
interpret_without_view_example = interpret_without_view python nodes edges [] "session-1" none

-- a view that maps one node only
abbrev partial_view : List Json
partial_view = Json.obj (field "id" (str "n1") (field "source_graph_node_id" (str "1") end)) ∷ []

interpret_returns_iff_example :
    ((i : Interpretation) × (interpret python nodes edges partial_view [] "session-1" none
        ≡ some i))
    ↔ AllMapped python (node_id_map python partial_view nodes) nodes
interpret_returns_iff_example =
    interpret_returns_iff python nodes edges partial_view [] "session-1" none

-- the constructor raises a KeyError for it
partial_view_raises : interpret python nodes edges partial_view [] "session-1" none ≡ none
unfolding interpret node_id_map add_mapped add_view_info add_fact_info Dict.get Dict.put Json.get
partial_view_raises = refl

abbrev objects_of : Option ReachabilityResult → List ReachableObject
objects_of (some (found objs b)) = objs
objects_of r = []

pipe_differs : ◌≢◌ {A = String} "node-Pipe" "node-Pump"
pipe_differs e = let h : ◌≡◌ {A = Bool} false true = (eq_iff "node-Pipe" "node-Pump").1 e in cc

abbrev reached : List ReachableObject
reached = objects_of (reachable_from text_of drawing "node-Pump" 3 none)

-- the nozzle and the pipe, and not the note
reached-ids : ids reached ≡ "node-Nozzle" ∷ "node-Pipe" ∷ []
unfolding reachable_from loop start expand scan offer extend object_of entries raw_id
    classify_path_direction_basis interpret node_id_map build_stable_node_id_map add_mapped
    add_view_info add_fact_info topology_edge_id_map add_edges sort_entries sort text_le texts_le
    Dict.get Dict.put Json.get Json.get_or dexpi_datalog.Prelude.Text.slice_to
    dexpi_datalog.Topology.Build.add_edge dexpi_datalog.Topology.Build.add_entry
reached-ids = refl

reached-found : reachable_from text_of drawing "node-Pump" 3 none ≡ some (found reached false)
unfolding reachable_from loop start expand scan offer extend object_of entries raw_id
    classify_path_direction_basis interpret node_id_map build_stable_node_id_map add_mapped
    add_view_info add_fact_info topology_edge_id_map add_edges sort_entries sort text_le texts_le
    Dict.get Dict.put Json.get Json.get_or dexpi_datalog.Prelude.Text.slice_to
    dexpi_datalog.Topology.Build.add_edge dexpi_datalog.Topology.Build.add_entry
reached-found = refl

reachable_from_returns_example :
    ((n : Fields) × (Dict.get "node-Pump" drawing.node_info ≡ some n)
      × (objs : List ReachableObject) × (b : Bool) × (reachable_from text_of drawing "node-Pump" 3
            none
          ≡ some (found objs b)))
    ⊎ ((Dict.get "node-Pump" drawing.node_info ≡ none)
        × (reachable_from text_of drawing "node-Pump" 3 none
            ≡ some (unknown_equipment "node-Pump")))
reachable_from_returns_example =
    reachable_from_returns text_of drawing "node-Pump" 3 none interpret-IsKnown_example

reachable_from-IsSupported_example : IsSupported text_of drawing "node-Pump" 3 none reached
reachable_from-IsSupported_example =
    reachable_from-IsSupported text_of drawing "node-Pump" 3 none reached false reached-found

reachable_from_exact_example :
    (In "node-Pipe" (ids reached)
      → (path : List Entry) × Chain drawing.adjacency "node-Pump" path "node-Pipe")
    × ((path : List Entry)
        → Chain drawing.adjacency "node-Pump" path "node-Pipe"
        → In "node-Pipe" (ids reached))
reachable_from_exact_example =
    reachable_from_exact text_of drawing "node-Pump" 3 none reached reached-found "node-Pipe"
      pipe_differs
