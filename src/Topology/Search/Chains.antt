-- ===== src/Topology/Search/Chains.antt =====
-- What a path through the topology is, independently of the search.
use dexpi_datalog.Prelude.{
  ℕ, ◌≤◌, String, ◌≡◌, sym, List, [], ◌∷◌, ◌++◌, map, length, In, In-append_cases, inl, inr,
}
use dexpi_datalog.Topology.Facts.{
  StructuralPathWitness, Entry, Adjacency, Interpretation, entries, raw_id,
}

-- The adjacency entries of a path from `src` to the index, in order.
pub data Chain (a : Adjacency) (src : String) : List Entry → String → Type 0 where
  here : Chain a src [] src
  step :
      {es fs : List Entry} {u v : String} (e : Entry)
      → Chain a src es u
      → In e (entries a u)
      → fs ≡ es ++ e ∷ []
      → v ≡ e.neighbor
      → Chain a src fs v

-- No text stands twice in the list.
abbrev pub IsDistinct : List String → Type 0
IsDistinct [] = Unit
IsDistinct (x ∷ xs) = (¬ In x xs) × IsDistinct xs

pub IsDistinct-snoc :
    (xs : List String) (x : String) → IsDistinct xs → ¬ In x xs → IsDistinct (xs ++ x ∷ [])
IsDistinct-snoc [] x d n = (λ h. h, tt)
IsDistinct-snoc (y ∷ xs) x d n = (
  λ m. elim (In-append_cases y xs (x ∷ []) m) [
    | inl old ↦ d.0 old
    | inr (inl e) ↦ n (inl (sym e))
    | inr (inr none') ↦ none'
  ],
  IsDistinct-snoc xs x d.1 (λ m. n (inr m)),
)

-- `w` is the record of a path from `src` to `u` with at most `max_hops` edges that meets no node
-- twice: its lists are those of one chain of adjacency entries.
pub record Explains (i : Interpretation) (src : String) (max_hops : ℕ) (u : String)
    (w : StructuralPathWitness) : Type 0 where
  pub path : List Entry
  pub chain : Chain i.adjacency src path u
  pub hops : length path ≤ max_hops
  pub nodes : w.topology_node_ids ≡ src ∷ map (λ e. e.neighbor) path
  pub edges : w.topology_edge_ids ≡ map (λ e. e.edge_id) path
  pub relations : w.relationships ≡ map (λ e. e.relationship) path
  pub raw_edges : w.raw_edges ≡ map (λ e. e.raw_edge) path
  pub raw_nodes : w.raw_node_ids ≡ raw_id i src ∷ map (λ e. raw_id i e.neighbor) path
  pub distinct : IsDistinct w.topology_node_ids
