-- ===== src/Topology/Build/Known.antt =====
-- Every neighbor in the adjacency of an interpretation has its node info.
use text.Mathlib.TextEquality.{eq_iff}
use dexpi_datalog.Prelude.{
  ℕ, String, ◌≡◌, refl, sym, ◌∙◌, ◌⊎◌, inl, inr, Option, none, some, List, [], ◌∷◌, In,
  Option-cases, Bool-cases, arith, ◌==◌, string_eq,
}
use dexpi_datalog.Prelude.Dict
use dexpi_datalog.Prelude.Dict.{Dict, get-put}
use dexpi_datalog.Prelude.Sort.{sort, In-sort}
use dexpi_datalog.Json.{Json, Fields, obj, null, bool, int, str, arr}
use dexpi_datalog.Topology.Facts.{FactNode, attributes_of}
use dexpi_datalog.Topology.Build.{
  Python, text_at, put_if, put_node, add_mapped, add_view_info, add_stable, attributes_le,
  build_stable_node_id_map, or_stable, node_id_map, put_new, fact_info, add_fact_info,
}

abbrev pub Has : {V : Type 0} → Dict String V → String → Type 0
Has {V} d k = (v : V) × (Dict.get k d ≡ some v)

pub get-nil : {V : Type 0} (k : String) (v : V) → ¬ (Dict.get k [] ≡ some v)
unfolding Dict.get
get-nil k v h = cc

pub Has-put :
    {V : Type 0} (d : Dict String V) (j k : String) (v : V) → Has d k → Has (Dict.put j v d) k
Has-put d j k v (w, h) = elim (Bool-cases (j == k)) [
  | inl e ↦ (v, get-put j k v d ∙ rw e)
  | inr n ↦ (w, get-put j k v d ∙ rw n h)
]

pub Has-put_self : {V : Type 0} (d : Dict String V) (k : String) (v : V) → Has (Dict.put k v d) k
Has-put_self d k v = (v, get-put k k v d ∙ ground (arith, eq_iff k k))

-- Every value of `m` has its info.
abbrev pub Covered : Dict String String → Dict String Fields → Type 0
Covered m info = (raw topology : String) → Dict.get raw m ≡ some topology → Has info topology

put_node-Has :
    (o : Option String) (node : Fields) (info : Dict String Fields) (k : String)
    → Has info k
    → Has (put_node o node info) k
put_node-Has none node info k h = h
put_node-Has (some t) node info k h = Has-put info t k node h

put-Covered :
    (raw t : String) (node : Fields) (m : Dict String String) (info : Dict String Fields)
    → Covered m info
    → Covered (Dict.put raw t m) (Dict.put t node info)
put-Covered raw t node m info h raw' t' p = elim (Bool-cases (raw == raw')) [
  | inl e ↦
      let at : t ≡ t' = ground (arith, get-put raw raw' t m) in rw (← at) (Has-put_self info t node)
  | inr n ↦ Has-put info t t' node (h raw' t' (ground (arith, get-put raw raw' t m)))
]

put_if-Covered :
    (raw t : Option String) (node : Fields) (m : Dict String String) (info : Dict String Fields)
    → Covered m info
    → Covered (put_if raw t m) (put_node t node info)
put_if-Covered (some raw) (some t) node m info h = put-Covered raw t node m info h
put_if-Covered none none node m info h = h
put_if-Covered none (some t) node m info h = λ r k p. Has-put info t k node (h r k p)
put_if-Covered (some raw) none node m info h = h

-- The view's map and the view's info cover each other as they are built.
add_mapped-Covered :
    (ns : List Json) (m : Dict String String) (info : Dict String Fields)
    → Covered m info
    → Covered (add_mapped ns m) (add_view_info ns info)
unfolding add_mapped add_view_info
add_mapped-Covered [] m info h = h
add_mapped-Covered (obj node ∷ ns) m info h =
    add_mapped-Covered ns _ _
      (put_if-Covered (text_at "source_graph_node_id" node) (text_at "id" node) node m info h)
add_mapped-Covered (null ∷ ns) m info h = add_mapped-Covered ns m info h
add_mapped-Covered (bool b ∷ ns) m info h = add_mapped-Covered ns m info h
add_mapped-Covered (int n ∷ ns) m info h = add_mapped-Covered ns m info h
add_mapped-Covered (str s ∷ ns) m info h = add_mapped-Covered ns m info h
add_mapped-Covered (arr xs ∷ ns) m info h = add_mapped-Covered ns m info h

-- The second loop drops no info, and every mapped fact node has its own at the end.
put_new-Has :
    (t : String) (o : Option Fields) (node : Fields) (info : Dict String Fields) (k : String)
    → Has info k
    → Has (put_new t o node info) k
put_new-Has t none node info k h = Has-put info t k node h
put_new-Has t (some _) node info k h = h

put_new-Has_self :
    (t : String) (node : Fields) (info : Dict String Fields)
    → Has (put_new t (Dict.get t info) node info) t
put_new-Has_self t node info = elim (Option-cases (Dict.get t info)) [
  | inl e ↦ rw e (Has-put_self info t node)
  | inr (w, e) ↦ rw e (w, e)
]

module _ (py : Python) (m : Dict String String) where
  -- What the second loop gives, when it ends with `done`.
  record Filled (ns : List FactNode) (info done : Dict String Fields) : Type 0 where
    kept : (k : String) → Has info k → Has done k
    filled : (n : FactNode) (t : String) → In n ns → Dict.get n.node_id m ≡ some t → Has done t

  some_injective : (a c : Dict String Fields) → some a ≡ some c → a ≡ c
  some_injective a c e = cc

  add_fact_info-Filled :
      (ns : List FactNode) (info done : Dict String Fields)
      → add_fact_info py m ns info ≡ some done
      → Filled ns info done
  unfolding add_fact_info
  add_fact_info-Filled [] info done h =
      rw (← some_injective info done h) (record { kept = λ k p. p; filled = λ n t k. absurd k })
  add_fact_info-Filled (n ∷ ns) info done h = elim (Option-cases (Dict.get n.node_id m)) [
    | inl e ↦ cc (rw (e, add_fact_info) at h)
    | inr (t, e) ↦
        let node = fact_info py t n.node_id (attributes_of n.attributes) in
        let f =
          add_fact_info-Filled ns (put_new t (Dict.get t info) node info) done
            (rw (e, add_fact_info) at h) in
        record {
          kept = λ k p. f.kept k (put_new-Has t (Dict.get t info) node info k p);
          filled = λ x t' k p. elim k [
            | inl at ↦
                let same : t ≡ t' = ground (arith, e, p, at) in
                rw (← same) (f.kept t (put_new-Has_self t node info))
            | inr later ↦ f.filled x t' later p
          ];
        }
  ]

-- Every raw id of the stable map is that of a fact node.
module _ (py : Python) where
  add_stable-In :
      (ns : List FactNode) (counts : Dict String ℕ) (m : Dict String String) (raw t : String)
      → Dict.get raw (add_stable py ns counts m) ≡ some t
      → ((n : FactNode) × In n ns × (n.node_id ≡ raw)) ⊎ (Dict.get raw m ≡ some t)
  unfolding add_stable
  add_stable-In [] counts m raw t h = inr h
  add_stable-In (n ∷ ns) counts m raw t h = elim (add_stable-In ns _ _ raw t h) [
    | inl (x, k, e) ↦ inl (x, inr k, e)
    | inr p ↦ elim (Bool-cases (n.node_id == raw)) [
      | inl e ↦ inl (n, inl refl, (eq_iff n.node_id raw).0 e)
      | inr other ↦ inr (sym (get-put n.node_id raw _ m ∙ rw other) ∙ p)
    ]
  ]

  stable-In :
      (ns : List FactNode) (raw t : String)
      → Dict.get raw (build_stable_node_id_map py ns) ≡ some t
      → (n : FactNode) × In n ns × (n.node_id ≡ raw)
  unfolding build_stable_node_id_map
  stable-In ns raw t h = elim (add_stable-In (sort (attributes_le py) ns) [] [] raw t h) [
    | inl (x, k, e) ↦ (x, (In-sort (attributes_le py) x ns).0 k, e)
    | inr p ↦ absurd (get-nil _ _ p)
  ]

  or_stable-Covered :
      (ns : List FactNode) (m m' : Dict String String) (view done : Dict String Fields)
      → m' ≡ or_stable py ns m
      → Covered m view
      → Filled py m' ns view done
      → Covered m' done
  or_stable-Covered ns [] m' view done e h f raw t p =
      let (n, k, at) = stable-In ns raw t (rw (← e) p) in f.filled n t k (rw at p)
  or_stable-Covered ns (x ∷ m) m' view done e h f raw t p = f.kept t (h raw t (rw (← e) p))

  -- Whenever the constructor gets through its second loop, every mapped id has its info.
  pub node_id_map-Covered :
      (view : List Json) (ns : List FactNode) (done : Dict String Fields)
      → add_fact_info py (node_id_map py view ns) ns (add_view_info view []) ≡ some done
      → Covered (node_id_map py view ns) done
  unfolding node_id_map
  node_id_map-Covered view ns done h =
      or_stable-Covered ns (add_mapped view []) (or_stable py ns (add_mapped view []))
        (add_view_info view []) done refl
        (add_mapped-Covered view [] [] (λ raw t p. absurd (get-nil _ _ p)))
        (add_fact_info-Filled py _ ns (add_view_info view []) done h)
