-- ===== src/Topology/Build/Total.antt =====
-- When the constructor gets through: a KeyError comes from an unmapped fact node, and only from it.
use dexpi_datalog.Prelude.{
  ℕ, String, ◌≡◌, refl, ◌↔◌, inl, inr, Option, some, List, [], ◌∷◌, In, Option-cases, string_eq,
}
use dexpi_datalog.Prelude.Dict
use dexpi_datalog.Prelude.Dict.{Dict, get-put}
use dexpi_datalog.Prelude.Sort.{sort, In-sort}
use dexpi_datalog.Json.{Json, Fields}
use dexpi_datalog.Topology.Facts.{FactNode, FactEdge, Interpretation}
use dexpi_datalog.Topology.Build.{
  Python, add_mapped, add_view_info, add_stable, attributes_le, build_stable_node_id_map,
  node_id_map, add_fact_info, interpret,
}
use dexpi_datalog.Topology.Build.Known.{Has, Has-put, Has-put_self}

module _ (py : Python) where
  -- every fact node has an id
  abbrev pub AllMapped : Dict String String → List FactNode → Type 0
  AllMapped m ns = (n : FactNode) → In n ns → Has m n.node_id

  abbrev Returned {ℓ} : {A : Type ℓ} → Option A → Type ℓ
  Returned {A = A} o = (a : A) × (o ≡ some a)

  add_fact_info-Returned :
      (m : Dict String String) (ns : List FactNode) (info : Dict String Fields)
      → AllMapped m ns
      → Returned (add_fact_info py m ns info)
  unfolding add_fact_info
  add_fact_info-Returned m [] info h = (info, refl)
  add_fact_info-Returned m (n ∷ ns) info h =
      let (t, e) = h n (inl refl) in
      rw (e, add_fact_info) (add_fact_info-Returned m ns _ (λ x k. h x (inr k)))

  add_fact_info-AllMapped :
      (m : Dict String String) (ns : List FactNode) (info done : Dict String Fields)
      → add_fact_info py m ns info ≡ some done
      → AllMapped m ns
  unfolding add_fact_info
  add_fact_info-AllMapped m [] info done h = λ n k. absurd k
  add_fact_info-AllMapped m (n ∷ ns) info done h = elim (Option-cases (Dict.get n.node_id m)) [
    | inl e ↦ cc (rw (e, add_fact_info) at h)
    | inr (t, e) ↦ λ x k. elim k [
      | inl at ↦ rw at (t, e)
      | inr later ↦ add_fact_info-AllMapped m ns _ done (rw (e, add_fact_info) at h) x later
    ]
  ]

  add_stable-Has :
      (ns : List FactNode) (counts : Dict String ℕ) (m : Dict String String) (k : String)
      → Has m k
      → Has (add_stable py ns counts m) k
  unfolding add_stable
  add_stable-Has [] counts m k h = h
  add_stable-Has (n ∷ ns) counts m k h = add_stable-Has ns _ _ k (Has-put m n.node_id k _ h)

  add_stable-AllMapped :
      (ns : List FactNode) (counts : Dict String ℕ) (m : Dict String String)
      → AllMapped (add_stable py ns counts m) ns
  unfolding add_stable
  add_stable-AllMapped [] counts m n k = absurd k
  add_stable-AllMapped (n ∷ ns) counts m x k = elim k [
    | inl at ↦ rw at (add_stable-Has ns _ _ n.node_id (Has-put_self m n.node_id _))
    | inr later ↦ add_stable-AllMapped ns _ _ x later
  ]

  stable-AllMapped : (ns : List FactNode) → AllMapped (build_stable_node_id_map py ns) ns
  unfolding build_stable_node_id_map
  stable-AllMapped ns n k =
      add_stable-AllMapped (sort (attributes_le py) ns) [] [] n
        ((In-sort (attributes_le py) n ns).1 k)

  -- Of facts that have their keys (a node its id and attributes, an edge its ends and its key), the
  -- constructor returns exactly where every fact node has an id in the map that it uses, the view's
  -- if that maps any node, and else the stable one.
  pub interpret_returns_iff :
      (nodes : List FactNode) (edges : List FactEdge) (view_nodes view_edges : List Json)
      (session : String) (source : Option String)
      → ((i : Interpretation) × (interpret py nodes edges view_nodes view_edges session source
            ≡ some i))
        ↔ AllMapped (node_id_map py view_nodes nodes) nodes
  unfolding interpret
  interpret_returns_iff nodes edges view_nodes view_edges session source =
      let m = node_id_map py view_nodes nodes in
      let o = add_fact_info py m nodes (add_view_info view_nodes []) in
      (
        λ (i, h). elim (Option-cases o) [
          | inl e ↦ cc (rw (e, interpret) at h)
          | inr (info, e) ↦ add_fact_info-AllMapped m nodes (add_view_info view_nodes []) info e
        ],
        λ h.
            let (info, e) = add_fact_info-Returned m nodes (add_view_info view_nodes []) h in
            elim (Option-cases (interpret py nodes edges view_nodes view_edges session source)) [
              | inl none' ↦ cc (rw (e, interpret) at none')
              | inr made ↦ made
            ],
      )

  -- Without a view the constructor returns, of all facts that have their keys (a node its id and
  -- attributes, an edge its ends and its key).
  pub interpret_without_view :
      (nodes : List FactNode) (edges : List FactEdge) (view_edges : List Json) (session : String)
      (source : Option String)
      → (i : Interpretation) × (interpret py nodes edges [] view_edges session source ≡ some i)
  interpret_without_view nodes edges view_edges session source =
      (interpret_returns_iff nodes edges [] view_edges session source).1
        (unfold node_id_map add_mapped in (stable-AllMapped nodes))
