-- ===== src/Semantics/Tests.antt =====
-- The facts of a small artifact, and instances of the theorems on them.
use dexpi_datalog.Prelude.{String, ◌≡◌, refl, some, List, [], ◌∷◌, length}
use dexpi_datalog.Prelude.Sort.{sort}
use dexpi_datalog.Json.{Json, str, end, field}
use dexpi_datalog.Semantics.{ArtifactNode, ArtifactEdge}
use dexpi_datalog.Semantics.{souffle_symbol, render_fact, fact_lines}
use dexpi_datalog.Semantics.Read.{read_fact, read_fact-render_fact}
use dexpi_datalog.Semantics.Kept.{IsWritten, fact_lines-IsWritten}

-- str on the values that are texts
abbrev to_str : Json → String
to_str (str s) = s
to_str _ = "?"

escapes : souffle_symbol "a\\b\"c" ≡ "\"a\\\\b\\\"c\""
unfolding souffle_symbol
escapes = refl

abbrev nodes : List ArtifactNode
nodes =
    record {
      node_id = "n1";
      attributes = field "tag" (str "P \"1\"") (field "label" (str "pump") end);
    }
    ∷ []

abbrev edges : List ArtifactEdge
edges = record { source_id = "n1"; target_id = "n2"; edge_key = "0"; attributes = end } ∷ []

lines :
    fact_lines to_str nodes edges
    ≡ "node(\"n1\")." ∷ "node_attribute(\"n1\", \"label\", \"pump\")."
      ∷ "node_attribute(\"n1\", \"tag\", \"P \\\"1\\\"\")." ∷ "graph_edge(\"n1\", \"n2\", \"0\")."
      ∷ []
unfolding fact_lines dexpi_datalog.Prelude.Sort.text_le
lines = refl

abbrev arguments : List String
arguments = "n1" ∷ "a \"quoted\" \\ value" ∷ []

read_fact-render_fact_example :
    read_fact "node_label" (length arguments) (render_fact "node_label" arguments) ≡ some arguments
read_fact-render_fact_example = read_fact-render_fact "node_label" arguments

fact_lines-IsWritten_example : IsWritten to_str nodes edges (fact_lines to_str nodes edges)
fact_lines-IsWritten_example = fact_lines-IsWritten to_str nodes edges
