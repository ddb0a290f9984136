-- ===== src/Topology/Search/Complete.antt =====
-- A search that says it was not truncated has reported everything that is reachable.
use mathlib.Core.List.{map-append}
use text.Mathlib.TextEquality.{eq_iff}
use dexpi_datalog.Prelude.{
  ℕ, String, ◌≡◌, ◌⊎◌, true, false, List, [], ◌∷◌, ◌++◌, map, In, In-append_cases, In-append_left,
  In-append_right, inl, inr, contains, string_eq, arith,
}
use dexpi_datalog.Json.{Json, Fields}
use dexpi_datalog.Topology.Facts.{Entry, Interpretation, entries}
use dexpi_datalog.Topology.Search.{Trail, Search, done, extend, object_of, loop, start}
use dexpi_datalog.Topology.Search.Chains.{Chain, here, step}
use dexpi_datalog.Topology.Search.Rounds.{Offered, seen, far, full, taken, loop_rule}
use dexpi_datalog.Topology.Search.Sound.{contains-cons}

abbrev Seen : Search → String → Type 0
Seen s v = contains s.visited v ≡ true

-- The nodes whose entries are still to be read.
abbrev waiting : Search → List String
waiting s = map (λ t. t.current_id) s.queue

abbrev reported : Search → List String
reported s = map (λ o. o.topology_id) s.reachable

cons_cases :
    (vis : List String) (x v : String)
    → contains (x ∷ vis) v ≡ true
    → (v ≡ x) ⊎ (contains vis v ≡ true)
cons_cases vis x v h = ground (arith, eq_iff x v)

contains_head : (vis : List String) (x : String) → contains (x ∷ vis) x ≡ true
contains_head vis x = ground (arith, eq_iff x x)

module _ (to_str : Json → String) (i : Interpretation) (src : String) (max_hops limit : ℕ) where
  abbrev ClosedAt : Search → String → Type 0
  ClosedAt s v = (e : Entry) → In e (entries i.adjacency v) → Seen s e.neighbor

  record Complete (s : Search) : Type 0 where
    source : Seen s src
    told : s.truncated ≡ false → (v : String) → Seen s v → (v ≡ src) ⊎ In v (reported s)
    closed : s.truncated ≡ false → (v : String) → Seen s v → In v (waiting s) ⊎ ClosedAt s v

  -- The same in a round on `t`, whose entries `es` have been read.
  record InRound (t : Trail) (es : List Entry) (s : Search) : Type 0 where
    source : Seen s src
    told : s.truncated ≡ false → (v : String) → Seen s v → (v ≡ src) ⊎ In v (reported s)
    closed :
        s.truncated ≡ false
        → (v : String) → Seen s v
        → (v ≡ t.current_id) ⊎ (In v (waiting s) ⊎ ClosedAt s v)
    read : s.truncated ≡ false → (e : Entry) → In e es → Seen s e.neighbor

  read-snoc :
      (es : List Entry) (e : Entry) (vis : List String)
      → ((x : Entry) → In x es → contains vis x.neighbor ≡ true)
      → contains vis e.neighbor ≡ true
      → (x : Entry) → In x (es ++ e ∷ [])
      → contains vis x.neighbor ≡ true
  read-snoc es e vis h new x m = elim (In-append_cases x es (e ∷ []) m) [
    | inl old ↦ h x old
    | inr (inl same) ↦ rw same new
    | inr (inr none') ↦ absurd none'
  ]

  InRound-taken :
      (t : Trail) (e : Entry) (es : List Entry) (s : Search) (node : Fields)
      → InRound t es s
      → InRound t (es ++ e ∷ []) (record s {
        visited = e.neighbor ∷ s.visited;
        reachable = s.reachable ++ object_of to_str i node (extend to_str i t e) ∷ [];
        queue = s.queue ++ extend to_str i t e ∷ [];
      })
  unfolding object_of extend
  InRound-taken t e es s node h =
      let t' = extend to_str i t e in
      let o = object_of to_str i node t' in
      let wider = λ (v : String). contains-cons s.visited e.neighbor v in
      record {
        source = wider src h.source;
        told = λ ok v m. rw map-append (elim (cons_cases s.visited e.neighbor v m) [
          | inl new ↦ inr (In-append_right v (reported s) (e.neighbor ∷ []) (inl new))
          | inr old ↦ elim (h.told ok v old) [
            | inl at ↦ inl at
            | inr k ↦ inr (In-append_left v (reported s) (e.neighbor ∷ []) k)
          ]
        ]);
        closed = λ ok v m. rw map-append (elim (cons_cases s.visited e.neighbor v m) [
          | inl new ↦ inr (inl (In-append_right v (waiting s) (e.neighbor ∷ []) (inl new)))
          | inr old ↦ elim (h.closed ok v old) [
            | inl at ↦ inl at
            | inr (inl k) ↦ inr (inl (In-append_left v (waiting s) (e.neighbor ∷ []) k))
            | inr (inr all) ↦ inr (inr (λ x k. wider x.neighbor (all x k)))
          ]
        ]);
        read = λ ok.
            read-snoc es e (e.neighbor ∷ s.visited) (λ x k. wider x.neighbor (h.read ok x k))
              (contains_head s.visited e.neighbor);
      }

  InRound-Offered :
      (t : Trail) (e : Entry) (es : List Entry) (s s' : Search)
      → In e (entries i.adjacency t.current_id)
      → Offered to_str i max_hops limit t e s s'
      → InRound t es s
      → InRound t (es ++ e ∷ []) s'
  InRound-Offered t e es s s' m (seen old p) h = rw p (record {
    source = h.source;
    told = h.told;
    closed = h.closed;
    read = λ ok. read-snoc es e s.visited (h.read ok) old;
  })
  InRound-Offered t e es s s' m (far p) h =
      rw p (record { source = h.source; told = λ ok. cc; closed = λ ok. cc; read = λ ok. cc })
  InRound-Offered t e es s s' m (full _ p) h = rw p (record {
    source = contains-cons s.visited e.neighbor src h.source;
    told = λ ok. cc;
    closed = λ ok. cc;
    read = λ ok. cc;
  })
  InRound-Offered t e es s s' m (taken node _ _ _ p) h = rw p (InRound-taken t e es s node h)

  start-Complete : Complete (start to_str i max_hops limit src)
  unfolding start
  start-Complete = record {
    source = contains_head [] src;
    told = λ ok v m. elim (cons_cases [] src v m) [ inl at ↦ inl at | inr no' ↦ cc ];
    closed = λ ok v m. elim (cons_cases [] src v m) [ inl at ↦ inl (inl at) | inr no' ↦ cc ];
  }

  In-waiting :
      (s : Search) (t : Trail) (rest : List Trail) (v : String)
      → s.queue ≡ t ∷ rest
      → In v (waiting s)
      → (v ≡ t.current_id) ⊎ In v (map (λ (t : Trail). t.current_id) rest)
  In-waiting s t rest v e m = rw e at m

  end-Complete :
      (t : Trail) (s : Search) → InRound t (entries i.adjacency t.current_id) s → Complete s
  end-Complete t s h = record {
    source = h.source;
    told = h.told;
    closed = λ ok v m. elim (h.closed ok v m) [
      | inl at ↦ inr (λ e k. h.read ok e (rw at at k))
      | inr other ↦ other
    ];
  }

  begin-InRound :
      (s : Search) (t : Trail) (rest : List Trail)
      → s.queue ≡ t ∷ rest
      → Complete s
      → InRound t [] (record s { queue = rest })
  begin-InRound s t rest e h = record {
    source = h.source;
    told = h.told;
    closed = λ ok v m. elim (h.closed ok v m) [
      | inl k ↦ elim (In-waiting s t rest v e k) [ inl at ↦ inl at | inr later ↦ inr (inl later) ]
      | inr all ↦ inr (inr all)
    ];
    read = λ ok x m. absurd m;
  }

  loop-Complete :
      (fuel : ℕ) (s : Search)
      → loop to_str i max_hops limit fuel (start to_str i max_hops limit src) ≡ done s
      → Complete s × (s.queue ≡ [])
  loop-Complete fuel s h =
      loop_rule to_str i max_hops limit Complete InRound begin-InRound InRound-Offered end-Complete
        fuel _ s h start-Complete

  -- With nothing waiting, the seen nodes are closed under the entries.
  Chain-Seen :
      (s : Search)
      → Complete s
      → s.queue ≡ []
      → s.truncated ≡ false
      → {es : List Entry} {v : String} → Chain i.adjacency src es v
      → Seen s v
  Chain-Seen s h empty ok here = h.source
  Chain-Seen s h empty ok (step {u = u} e c m _ at) =
      elim (h.closed ok u (Chain-Seen s h empty ok c)) [
        | inl k ↦ absurd (rw empty at k)
        | inr all ↦ rw at (all e m)
      ]

  pub loop_reports_all :
      (fuel : ℕ) (s : Search)
      → loop to_str i max_hops limit fuel (start to_str i max_hops limit src) ≡ done s
      → s.truncated ≡ false
      → (es : List Entry) (v : String) → Chain i.adjacency src es v
      → (v ≡ src) ⊎ In v (reported s)
  loop_reports_all fuel s h ok es v c =
      let (f, empty) = loop-Complete fuel s h in f.told ok v (Chain-Seen s f empty ok c)
