-- ===== src/Topology/Build/Neighbors.antt =====
-- The neighbors in an adjacency are mapped ids, and they are all known.
use mathlib.Core.Path.{subst}
use text.Mathlib.TextEquality.{eq_iff}
use dexpi_datalog.Prelude.{
  String, ◌≡◌, refl, sym, inl, inr, Option, none, some, List, [], ◌∷◌, ◌++◌, In, In-append_cases,
  Option-cases, Bool-cases, arith, ◌==◌, string_eq, if◌then◌else◌, contains,
}
use dexpi_datalog.Prelude.Dict
use dexpi_datalog.Prelude.Dict.{Dict, get-put}
use dexpi_datalog.Prelude.Sort.{In-sort}
use dexpi_datalog.Json
use dexpi_datalog.Json.{Json, Fields, str}
use dexpi_datalog.Topology.Facts.{
  topology_attr_names, attributes_of, FactNode, FactEdge, Entry, Adjacency, Interpretation, entries,
}
use dexpi_datalog.Topology.Build.{
  Python, node_id_map, raw_identity, entry_to, add_fact_info, add_view_info, add_entry, add_edge,
  add_edges, edge_id_for_fact_edge, sort_entries, entry_le, interpret, topology_edge_id_map,
}
use dexpi_datalog.Topology.Build.Known.{Has, node_id_map-Covered}
use dexpi_datalog.Topology.Search.Total.{IsKnown}

-- An id that some raw id is mapped to.
abbrev IsValue : Dict String String → String → Type 0
IsValue m t = (raw : String) × (Dict.get raw m ≡ some t)

-- `P` holds of every entry at every node.
abbrev Everywhere : (String → Entry → Type 0) → Adjacency → Type 0
Everywhere P a = (u : String) (e : Entry) → In e (entries a u) → P u e

Everywhere-nil : (P : String → Entry → Type 0) → Everywhere P []
unfolding entries Dict.get
Everywhere-nil P u e m = absurd m

module _ (py : Python) where
  entries-add_entry :
      (u v : String) (x : Entry) (a : Adjacency)
      → entries (add_entry py u x a) v ≡ (if u == v then entries a u ++ x ∷ [] else entries a v)
  unfolding add_entry
  entries-add_entry u v x a = ground (arith, get-put u v (entries a u ++ x ∷ []) a)

  Everywhere-add_entry :
      (P : String → Entry → Type 0) (u : String) (x : Entry) (a : Adjacency)
      → P u x
      → Everywhere P a
      → Everywhere P (add_entry py u x a)
  Everywhere-add_entry P u x a new h v e m = elim (Bool-cases (u == v)) [
    | inl same ↦
        let at : u ≡ v = (eq_iff u v).0 same in
        let m' : In e (entries a u ++ x ∷ []) = rw same at (rw (entries-add_entry u v x a) at m) in
        rw (← at) (elim (In-append_cases e (entries a u) (x ∷ []) m') [
          | inl old ↦ h u e old
          | inr (inl k) ↦ rw k new
          | inr (inr none') ↦ absurd none'
        ])
    | inr other ↦ h v e (rw other at (rw (entries-add_entry u v x a) at m))
  ]

  In-sort_entries :
      (a : Adjacency) (u : String) (e : Entry)
      → In e (entries (sort_entries py a) u)
      → In e (entries a u)
  unfolding sort_entries entries Dict.get
  In-sort_entries [] u e m = m
  In-sort_entries ((w, es) ∷ a) u e m = elim (Bool-cases (w == u)) [
    | inl same ↦ rw same ((In-sort (entry_le py) e es).0 (rw same at m))
    | inr other ↦ rw other (In-sort_entries a u e (rw other at m))
  ]

  add_edge-values :
      (m : Dict String String) (known : Dict (List String) String) (edge : FactEdge) (r : String)
      (source target : Option String) (a : Adjacency)
      → ((t : String) → source ≡ some t → IsValue m t)
      → ((t : String) → target ≡ some t → IsValue m t)
      → Everywhere (λ u e. IsValue m e.neighbor) a
      → Everywhere (λ u e. IsValue m e.neighbor) (add_edge py known edge r source target a)
  unfolding add_edge
  add_edge-values m known edge r (some s) (some t) a hs ht h =
      let eid = edge_id_for_fact_edge py known edge s t in
      let P = λ (u : String) (e : Entry). IsValue m e.neighbor in
      let raw = raw_identity edge in
      Everywhere-add_entry P t (entry_to s eid r raw) (add_entry py s (entry_to t eid r raw) a)
        (hs s refl) (Everywhere-add_entry P s (entry_to t eid r raw) a (ht t refl) h)
  add_edge-values m known edge r (some s) none a hs ht h = h
  add_edge-values m known edge r none target a hs ht h = h

  add_edges-values :
      (m : Dict String String) (known : Dict (List String) String) (es : List FactEdge)
      (a : Adjacency)
      → Everywhere (λ u e. IsValue m e.neighbor) a
      → Everywhere (λ u e. IsValue m e.neighbor) (add_edges py m known es a)
  unfolding add_edges
  add_edges-values m known [] a h = h
  add_edges-values m known (edge ∷ es) a h =
      let r = py.to_str (Json.get_or "attr_name" (str "") (attributes_of edge.attributes)) in
      elim (Bool-cases (contains topology_attr_names r)) [
        | inl topological ↦ rw topological (
            add_edges-values m known es _ (
              add_edge-values m known edge r (Dict.get edge.source_id m) (Dict.get edge.target_id m)
                a (λ t p. (edge.source_id, p)) (λ t p. (edge.target_id, p)) h))
        | inr other ↦ rw other (add_edges-values m known es a h)
      ]

  some_injective : (i j : Interpretation) → some i ≡ some j → i ≡ j
  some_injective i j e = cc

  -- An interpretation that `__init__` builds has the node info of every neighbor, so no lookup of
  -- a traversal over it raises a KeyError, whatever the facts and the view.
  pub interpret-IsKnown :
      (nodes : List FactNode) (edges : List FactEdge) (view_nodes view_edges : List Json)
      (session : String) (source : Option String) (i : Interpretation)
      → interpret py nodes edges view_nodes view_edges session source ≡ some i
      → IsKnown i
  unfolding interpret
  interpret-IsKnown nodes edges view_nodes view_edges session source i h u e k =
      let m = node_id_map py view_nodes nodes in
      elim (Option-cases (add_fact_info py m nodes (add_view_info view_nodes []))) [
        | inl none' ↦ cc (rw (none', interpret) at h)
        | inr (info, made) ↦
            let same = some_injective _ i (rw (made, interpret) at h) in
            let known = topology_edge_id_map py view_edges [] in
            let there : In e (entries (sort_entries py (add_edges py m known edges [])) u) =
              subst (λ (x : Interpretation). In e (entries x.adjacency u)) (sym same) k in
            let (raw, p) =
              add_edges-values m known edges []
                (Everywhere-nil (λ _ (x : Entry). IsValue m x.neighbor)) u e
                (In-sort_entries (add_edges py m known edges []) u e there) in
            subst (λ (x : Interpretation). Has x.node_info e.neighbor) same
              (node_id_map-Covered py view_nodes nodes info made raw e.neighbor p)
      ]
