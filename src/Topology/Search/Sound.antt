-- ===== src/Topology/Search/Sound.antt =====
-- Whatever the search reports is reached by the path in its witness.
use mathlib.Core.List.{map-append}
use dexpi_datalog.Prelude.{
  ℕ, suc, ◌+◌, ◌≤◌, ◌<◌, String, ◌≡◌, refl, ap, Bool, true, false, List, [], ◌∷◌, ◌++◌, map, length,
  length-append, In, In-append_cases, inl, inr, contains, string_eq, arith,
}
use text.Mathlib.TextEquality.{eq_iff}
use dexpi_datalog.Json.{Json, Fields}
use dexpi_datalog.Topology.Facts.{Entry, Interpretation, entries, raw_id}
use dexpi_datalog.Topology.Search.{
  Trail, Search, ReachableObject, done, extend, object_of, loop, start,
}
use dexpi_datalog.Topology.Search.Chains.{here, step, IsDistinct, IsDistinct-snoc, Explains}
use dexpi_datalog.Topology.Search.Rounds.{Offered, seen, far, full, taken, loop_rule}

pub length-map : {A B : Type 0} (f : A → B) (xs : List A) → length (map f xs) ≡ length xs
length-map f [] = refl
length-map f (x ∷ xs) = ap suc (length-map f xs)

-- A list and the seen ids.
abbrev pub Covers : List String → List String → Type 0
Covers vis xs = (v : String) → In v xs → contains vis v ≡ true

pub contains-cons :
    (vis : List String) (x v : String) → contains vis v ≡ true → contains (x ∷ vis) v ≡ true
contains-cons vis x v h = ground (arith, eq_iff x v)

pub Covers-snoc :
    (vis : List String) (x : String) (xs : List String)
    → Covers vis xs
    → Covers (x ∷ vis) (xs ++ x ∷ [])
Covers-snoc vis x xs h v m = elim (In-append_cases v xs (x ∷ []) m) [
  | inl old ↦ contains-cons vis x v (h v old)
  | inr (inl e) ↦ ground (arith, eq_iff x v)
  | inr (inr none') ↦ absurd none'
]

module _ (to_str : Json → String) (i : Interpretation) (src : String) (max_hops limit : ℕ) where
  -- A trail in the queue: a recorded path over seen nodes.
  pub record OnTrail (vis : List String) (t : Trail) : Type 0 where
    pub explains : Explains i src max_hops t.current_id t.witness
    pub covered : Covers vis t.witness.topology_node_ids

  OnTrail-cons : (vis : List String) (x : String) (t : Trail) → OnTrail vis t → OnTrail (x ∷ vis) t
  OnTrail-cons vis x t h = record {
    explains = h.explains;
    covered = λ v m. contains-cons vis x v (h.covered v m);
  }

  extend-OnTrail :
      (vis : List String) (t : Trail) (e : Entry)
      → OnTrail vis t
      → In e (entries i.adjacency t.current_id)
      → contains vis e.neighbor ≡ false
      → length (t.witness.topology_node_ids ++ e.neighbor ∷ []) ≤ max_hops + 1
      → OnTrail (e.neighbor ∷ vis) (extend to_str i t e)
  unfolding extend
  extend-OnTrail vis t e h m new short =
      let x = h.explains in
      let all = x.path ++ e ∷ [] in
      record {
        explains = record {
          path = all;
          chain = step e x.chain m refl refl;
          hops = omega (
            arith,
            length-append x.path (e ∷ []),
            length-append t.witness.topology_node_ids (e.neighbor ∷ []),
            ap length x.nodes,
            length-map (λ (e : Entry). e.neighbor) x.path,
          );
          nodes = rw x.nodes (rw map-append);
          edges = rw x.edges (rw map-append);
          relations = rw x.relations (rw map-append);
          raw_edges = rw x.raw_edges (rw map-append);
          raw_nodes = rw x.raw_nodes (rw map-append);
          distinct =
              IsDistinct-snoc t.witness.topology_node_ids e.neighbor x.distinct
                (λ k. cc (new, h.covered e.neighbor k));
        };
        covered = Covers-snoc vis e.neighbor t.witness.topology_node_ids h.covered;
      }

  start-OnTrail : OnTrail (src ∷ []) (record {
    current_id = src;
    witness = record {
      raw_node_ids = raw_id i src ∷ [];
      raw_edges = [];
      topology_node_ids = src ∷ [];
      topology_edge_ids = [];
      relationships = [];
    };
  })
  start-OnTrail = record {
    explains = record {
      path = [];
      chain = here;
      hops = omega arith;
      nodes = refl;
      edges = refl;
      relations = refl;
      raw_edges = refl;
      raw_nodes = refl;
      distinct = (λ m. m, tt);
    };
    covered = λ v m. elim m [ inl e ↦ ground (arith, eq_iff src v) | inr none' ↦ absurd none' ];
  }

  abbrev pub ids : Search → List String
  ids s = map (λ o. o.topology_id) s.reachable

  pub record Traced (s : Search) : Type 0 where
    pub trails : (t : Trail) → In t s.queue → OnTrail s.visited t
    pub reports :
        (o : ReachableObject) → In o s.reachable → Explains i src max_hops o.topology_id o.witness
    pub distinct : IsDistinct (src ∷ ids s)
    pub covered : Covers s.visited (src ∷ ids s)
    pub bounded : length s.reachable ≤ limit

  -- In a round the trail at work is one more that the invariant speaks of.
  record InRound (t : Trail) (s : Search) : Type 0 where
    traced : Traced s
    on_trail : OnTrail s.visited t

  -- An id more among the seen ones changes nothing that was said of the others.
  Traced-wider :
      (s : Search) (x : String) (b : Bool)
      → Traced s
      → Traced (record s { visited = x ∷ s.visited; truncated = b })
  Traced-wider s x b h = record {
    trails = λ t m. OnTrail-cons s.visited x t (h.trails t m);
    reports = h.reports;
    distinct = h.distinct;
    covered = λ v m. contains-cons s.visited x v (h.covered v m);
    bounded = h.bounded;
  }

  ids-snoc :
      (s : Search) (o : ReachableObject)
      → map (λ (x : ReachableObject). x.topology_id) (s.reachable ++ o ∷ [])
        ≡ ids s ++ o.topology_id ∷ []
  ids-snoc s o = map-append (λ (x : ReachableObject). x.topology_id) s.reachable (o ∷ [])

  InRound-taken :
      (t : Trail) (e : Entry) (s : Search) (node : Fields)
      → In e (entries i.adjacency t.current_id)
      → contains s.visited e.neighbor ≡ false
      → length (t.witness.topology_node_ids ++ e.neighbor ∷ []) ≤ max_hops + 1
      → length s.reachable < limit
      → InRound t s
      → InRound t (record s {
        visited = e.neighbor ∷ s.visited;
        reachable = s.reachable ++ object_of to_str i node (extend to_str i t e) ∷ [];
        queue = s.queue ++ extend to_str i t e ∷ [];
      })
  unfolding object_of extend
  InRound-taken t e s node m new short room h =
      let further = extend-OnTrail s.visited t e h.on_trail m new short in
      let o = object_of to_str i node (extend to_str i t e) in
      record {
        traced = record {
          trails = λ x k. elim (In-append_cases x s.queue (extend to_str i t e ∷ []) k) [
            | inl old ↦ OnTrail-cons s.visited e.neighbor x (h.traced.trails x old)
            | inr (inl same) ↦ rw same further
            | inr (inr none') ↦ absurd none'
          ];
          reports = λ x k. elim (In-append_cases x s.reachable (o ∷ []) k) [
            | inl old ↦ h.traced.reports x old
            | inr (inl same) ↦ rw same further.explains
            | inr (inr none') ↦ absurd none'
          ];
          distinct = rw (ids-snoc s o) (
              IsDistinct-snoc (src ∷ ids s) e.neighbor h.traced.distinct
                (λ k. cc (new, h.traced.covered e.neighbor k)));
          covered =
              rw (ids-snoc s o) (Covers-snoc s.visited e.neighbor (src ∷ ids s) h.traced.covered);
          bounded = omega (arith, length-append s.reachable (o ∷ []));
        };
        on_trail = OnTrail-cons s.visited e.neighbor t h.on_trail;
      }

  InRound-Offered :
      (t : Trail) (e : Entry) (es : List Entry) (s s' : Search)
      → In e (entries i.adjacency t.current_id)
      → Offered to_str i max_hops limit t e s s'
      → InRound t s
      → InRound t s'
  InRound-Offered t e es s s' m (seen _ p) h = rw p h
  InRound-Offered t e es s s' m (far p) h =
      let f = h.traced in
      rw p (record {
        traced = record {
          trails = f.trails;
          reports = f.reports;
          distinct = f.distinct;
          covered = f.covered;
          bounded = f.bounded;
        };
        on_trail = h.on_trail;
      })
  InRound-Offered t e es s s' m (full _ p) h = rw p (record {
    traced = Traced-wider s e.neighbor true h.traced;
    on_trail = OnTrail-cons s.visited e.neighbor t h.on_trail;
  })
  InRound-Offered t e es s s' m (taken node new short room p) h =
      rw p (InRound-taken t e s node m new short room h)

  start-Traced : Traced (start to_str i max_hops limit src)
  unfolding start
  start-Traced = record {
    trails = λ t m. elim m [ inl e ↦ rw e start-OnTrail | inr none' ↦ absurd none' ];
    reports = λ o m. absurd m;
    distinct = (λ m. m, tt);
    covered = λ v m. elim m [ inl e ↦ ground (arith, eq_iff src v) | inr none' ↦ absurd none' ];
    bounded = omega arith;
  }

  -- At the end every report is explained.
  pub loop-Traced :
      (fuel : ℕ) (s : Search)
      → loop to_str i max_hops limit fuel (start to_str i max_hops limit src) ≡ done s
      → Traced s
  loop-Traced fuel s h =
      (loop_rule to_str i max_hops limit Traced (λ t es x. InRound t x)
        (λ x t rest e p. record {
          traced = record {
            trails = λ y m. p.trails y (rw e (inr m));
            reports = p.reports;
            distinct = p.distinct;
            covered = p.covered;
            bounded = p.bounded;
          };
          on_trail = p.trails t (rw e (inl refl));
        })
        InRound-Offered (λ t x q. q.traced) fuel _ s h start-Traced).0
