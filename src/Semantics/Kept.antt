-- ===== src/Semantics/Kept.antt =====
-- That semantics/derive_graph_semantics.py writes a fact for all that the artifact says.
use mathlib.Core.Path.{subst}
use dexpi_datalog.Prelude.{
  String, ap, inl, inr, List, [], ◌∷◌, ◌++◌, map, In, In-append_left, In-append_right,
}
use dexpi_datalog.Prelude.Sort.{sort, text_le, In-sort}
use dexpi_datalog.Json.{Json, Fields}
use dexpi_datalog.Semantics.{ArtifactNode, ArtifactEdge}
use dexpi_datalog.Semantics.{
  render_fact, derive_nodes, render_node_facts, items, name_le, sorted_items, attribute_fact,
  render_node_attribute_facts, edge_ids, edge_le, sorted_edges, render_graph_edge_facts,
  edge_attribute_facts, render_graph_edge_attribute_facts, fact_lines,
}

In-map : {A : Type 0} (f : A → String) (a : A) (xs : List A) → In a xs → In (f a) (map f xs)
In-map f a [] m = absurd m
In-map f a (x ∷ xs) (inl at) = inl (ap f at)
In-map f a (x ∷ xs) (inr m) = inr (In-map f a xs m)

module _ (to_str : Json → String) where
  In-sorted_items :
      (attributes : Fields) (item : String × Json)
      → In item (items attributes)
      → In item (sorted_items attributes)
  unfolding sorted_items
  In-sorted_items attributes item m = (In-sort name_le item (items attributes)).1 m

  node_attribute_line :
      (nodes : List ArtifactNode) (n : ArtifactNode) (item : String × Json)
      → In n nodes
      → In item (items n.attributes)
      → In
          (render_fact "node_attribute" (n.node_id ∷ item.0 ∷ to_str item.1 ∷ []))
          (render_node_attribute_facts to_str nodes)
  unfolding render_node_attribute_facts
  node_attribute_line [] n item m i = absurd m
  node_attribute_line (k ∷ nodes) n item (inr m) i =
      In-append_right _ _ _ (node_attribute_line nodes n item m i)
  node_attribute_line (k ∷ nodes) n item (inl at) i =
      let lines = λ (x : ArtifactNode).
        map (attribute_fact to_str "node_attribute" (x.node_id ∷ [])) (sorted_items x.attributes) in
      let own =
        In-map (attribute_fact to_str "node_attribute" (n.node_id ∷ [])) item _
          (In-sorted_items n.attributes item i) in
      let rest = render_node_attribute_facts to_str nodes in
      subst
        (λ (x : ArtifactNode).
          In (render_fact "node_attribute" (n.node_id ∷ item.0 ∷ to_str item.1 ∷ []))
            (lines x ++ rest))
        at (In-append_left _ (lines n) rest own)

  abbrev edge_arguments : ArtifactEdge → String × Json → List String
  edge_arguments e item = e.source_id ∷ e.target_id ∷ e.edge_key ∷ item.0 ∷ to_str item.1 ∷ []

  edge_attribute_line :
      (edges : List ArtifactEdge) (e : ArtifactEdge) (item : String × Json)
      → In e edges
      → In item (items e.attributes)
      → In
          (render_fact "graph_edge_attribute" (edge_arguments e item))
          (edge_attribute_facts to_str edges)
  unfolding edge_attribute_facts
  edge_attribute_line [] e item m i = absurd m
  edge_attribute_line (k ∷ edges) e item (inr m) i =
      In-append_right _ _ _ (edge_attribute_line edges e item m i)
  edge_attribute_line (k ∷ edges) e item (inl at) i =
      let lines = λ (x : ArtifactEdge).
        map (attribute_fact to_str "graph_edge_attribute" (edge_ids x))
          (sorted_items x.attributes) in
      let own =
        In-map (attribute_fact to_str "graph_edge_attribute" (edge_ids e)) item _
          (In-sorted_items e.attributes item i) in
      let rest = edge_attribute_facts to_str edges in
      subst
        (λ (x : ArtifactEdge).
          In (render_fact "graph_edge_attribute" (edge_arguments e item)) (lines x ++ rest))
        at (In-append_left _ (lines e) rest own)

  -- What the artifact says has a line: each node, each attribute of a node, each edge, and each
  -- attribute of an edge.
  pub record IsWritten (nodes : List ArtifactNode) (edges : List ArtifactEdge) (lines : List String)
      : Type 0 where
    pub nodes_written :
        (n : ArtifactNode) → In n nodes → In (render_fact "node" (n.node_id ∷ [])) lines
    pub attributes_written :
        (n : ArtifactNode)
        → (item : String × Json) → In n nodes
        → In item (items n.attributes)
        → In (render_fact "node_attribute" (n.node_id ∷ item.0 ∷ to_str item.1 ∷ [])) lines
    pub edges_written :
        (e : ArtifactEdge) → In e edges → In (render_fact "graph_edge" (edge_ids e)) lines
    pub edge_attributes_written :
        (e : ArtifactEdge)
        → (item : String × Json) → In e edges
        → In item (items e.attributes)
        → In (render_fact "graph_edge_attribute" (edge_arguments e item)) lines

  node_line :
      (nodes : List ArtifactNode) (n : ArtifactNode)
      → In n nodes
      → In (render_fact "node" (n.node_id ∷ [])) (render_node_facts (derive_nodes nodes))
  unfolding render_node_facts
  node_line nodes n m =
      let ids = derive_nodes nodes in
      let id = In-map (λ (x : ArtifactNode). x.node_id) n nodes m in
      In-map (λ x. render_fact "node" (x ∷ [])) n.node_id (sort text_le ids)
        ((In-sort text_le n.node_id ids).1 id)

  In-sorted_edges :
      (edges : List ArtifactEdge) (e : ArtifactEdge) → In e edges → In e (sorted_edges edges)
  unfolding sorted_edges
  In-sorted_edges edges e m = (In-sort edge_le e edges).1 m

  edge_line :
      (edges : List ArtifactEdge) (e : ArtifactEdge)
      → In e edges
      → In (render_fact "graph_edge" (edge_ids e)) (render_graph_edge_facts edges)
  unfolding render_graph_edge_facts
  edge_line edges e m =
      In-map (λ (x : ArtifactEdge). render_fact "graph_edge" (edge_ids x)) e _
        (In-sorted_edges edges e m)

  -- The facts of an artifact have a line for each node, each attribute of a node, each edge and
  -- each attribute of an edge, with all its parts.
  pub fact_lines-IsWritten :
      (nodes : List ArtifactNode) (edges : List ArtifactEdge)
      → IsWritten nodes edges (fact_lines to_str nodes edges)
  unfolding fact_lines render_graph_edge_attribute_facts
  fact_lines-IsWritten nodes edges =
      let a = render_node_facts (derive_nodes nodes) in
      let b = render_node_attribute_facts to_str nodes in
      let c = render_graph_edge_facts edges in
      let d = render_graph_edge_attribute_facts to_str edges in
      record {
        nodes_written = λ n m. In-append_left _ a (b ++ (c ++ d)) (node_line nodes n m);
        attributes_written = λ n item m i.
            In-append_right _ a (b ++ (c ++ d))
              (In-append_left _ b (c ++ d) (node_attribute_line nodes n item m i));
        edges_written = λ e m.
            In-append_right _ a (b ++ (c ++ d))
              (In-append_right _ b (c ++ d) (In-append_left _ c d (edge_line edges e m)));
        edge_attributes_written = λ e item m i. In-append_right _ a (b ++ (c ++ d)) (
            In-append_right _ b (c ++ d) (
              In-append_right _ c d
                (edge_attribute_line (sorted_edges edges) e item (In-sorted_edges edges e m) i)));
      }
