-- ===== src/Topology/Search/Total.antt =====
-- The search ends within its rounds, and no KeyError escapes where every neighbor is known.
use dexpi_datalog.Prelude.{
  ℕ, zero, suc, ◌+◌, ◌-◌, ◌≤◌, String, ◌≡◌, refl, ap, ◌∙◌, Bool, true, false, Option, none, some,
  List, [], ◌∷◌, ◌++◌, length, length-append, In, inl, inr, contains, string_eq, arith, List-cases,
  ltb, leb, if◌then◌else◌,
}
use dexpi_datalog.Prelude.Dict
use dexpi_datalog.Json.{Json, Fields}
use dexpi_datalog.Topology.Facts.{Entry, Interpretation, entries}
use dexpi_datalog.Topology.Search.{
  Trail, Search, done, extend, object_of, report, offer, scan, expand, loop, start,
}
use dexpi_datalog.Topology.Search.Rounds.{Offered, seen, far, full, taken, offer_cases}

-- Every neighbor in the adjacency has its node info.
abbrev pub IsKnown : Interpretation → Type 0
IsKnown i =
    (u : String) (e : Entry)
    → In e (entries i.adjacency u)
    → (node : Fields) × (Dict.get e.neighbor i.node_info ≡ some node)

abbrev Returns : Option Search → Type 0
Returns o = (s : Search) × (o ≡ some s)

if-Returns : (c : Bool) (x y : Option Search) → Returns x → Returns y → Returns (if c then x else y)
if-Returns true x y h k = h
if-Returns false x y h k = k

module _ (to_str : Json → String) (i : Interpretation) (max_hops limit : ℕ) where
  -- Each round takes one trail, and adds as many as it reports objects.
  abbrev work : Search → ℕ
  work s = length s.queue + (limit - length s.reachable)

  record Conserves (s s' : Search) : Type 0 where
    bounded : length s'.reachable ≤ limit
    same_work : work s' ≡ work s

  Offered-Conserves :
      (t : Trail) (e : Entry) (s s' : Search)
      → length s.reachable ≤ limit
      → Offered to_str i max_hops limit t e s s'
      → Conserves s s'
  Offered-Conserves t e s s' b (seen _ h) = rw h (record { bounded = b; same_work = refl })
  Offered-Conserves t e s s' b (far h) = rw h (record { bounded = b; same_work = refl })
  Offered-Conserves t e s s' b (full _ h) = rw h (record { bounded = b; same_work = refl })
  Offered-Conserves t e s s' b (taken node _ _ room h) =
      let t' = extend to_str i t e in
      let more = length-append s.reachable (object_of to_str i node t' ∷ []) in
      rw h (record {
        bounded = omega (arith, more);
        same_work = omega (arith, more, length-append s.queue (t' ∷ []));
      })

  report-Returns :
      (s : Search) (t : Trail) (o : Option Fields) (node : Fields)
      → o ≡ some node
      → Returns (report to_str i max_hops limit s t o)
  unfolding report
  report-Returns s t none node h = cc
  report-Returns s t (some n) node h = (_, refl)

  offer_total :
      (t : Trail) (e : Entry) (s : Search) (node : Fields)
      → Dict.get e.neighbor i.node_info ≡ some node
      → (s' : Search) × (offer to_str i max_hops limit t e s ≡ some s')
  unfolding offer
  offer_total t e s node known =
      let s' = record s { visited = e.neighbor ∷ s.visited } in
      if-Returns (contains s.visited e.neighbor) _ _ (s, refl)
        (if-Returns (ltb (max_hops + 1) (length (t.witness.topology_node_ids ++ e.neighbor ∷ []))) _
          _ (record s { truncated = true }, refl)
          (if-Returns (leb limit (length s.reachable)) (some (record s' { truncated = true })) _
            (record s' { truncated = true }, refl)
            (report-Returns s' (extend to_str i t e) _ node known)))

  scan_total :
      (t : Trail) (es : List Entry) (s : Search)
      → ((e : Entry) → In e es → (node : Fields) × (Dict.get e.neighbor i.node_info ≡ some node))
      → length s.reachable ≤ limit
      → (s' : Search) × (scan to_str i max_hops limit t es s ≡ some s') × Conserves s s'
  unfolding scan
  scan_total t [] s all b = (s, refl, record { bounded = b; same_work = refl })
  scan_total t (e ∷ es) s all b =
      let (node, known) = all e (inl refl) in
      let (s1, h) = offer_total t e s node known in
      let c = Offered-Conserves t e s s1 b (offer_cases to_str i max_hops limit t e s s1 h) in
      let (s2, k, d) = scan_total t es s1 (λ x m. all x (inr m)) c.bounded in
      (s2, rw (h, scan) k, record { bounded = d.bounded; same_work = d.same_work ∙ c.same_work })

  loop_total :
      (fuel : ℕ) (s : Search)
      → IsKnown i
      → length s.reachable ≤ limit
      → work s ≤ fuel
      → (s' : Search) × (loop to_str i max_hops limit fuel s ≡ done s')
  unfolding loop expand
  loop_total zero s known b w = elim (List-cases s.queue) [
    | inl empty ↦ (s, simp (empty, loop))
    | inr (t, rest, e) ↦ absurd (omega (arith, ap length e))
  ]
  loop_total (suc fuel) s known b w = elim (List-cases s.queue) [
    | inl empty ↦ (s, simp (empty, loop))
    | inr (t, rest, e) ↦
        let (s1, h, c) =
          scan_total t (entries i.adjacency t.current_id) (record s { queue = rest })
            (known t.current_id) b in
        let less : work s1 ≤ fuel = omega (arith, c.same_work, ap length e) in
        let (s2, k) = loop_total fuel s1 known c.bounded less in
        (s2, simp (e, loop) (rw (h, expand) k))
  ]

  -- From the start the search is done within `limit + 1` rounds.
  pub search_returns :
      (u : String)
      → IsKnown i
      → (s : Search) × (loop to_str i max_hops limit (suc limit) (start to_str i max_hops limit u)
          ≡ done s)
  unfolding start
  search_returns u known = loop_total (suc limit) _ known (omega arith) (omega arith)
