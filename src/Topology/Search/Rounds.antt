-- ===== src/Topology/Search/Rounds.antt =====
-- The cases of the loop body, and a rule for invariants of the loop.
use dexpi_datalog.Prelude.{
  ℕ, zero, suc, ◌+◌, ◌≤◌, ◌<◌, String, ◌≡◌, refl, sym, true, false, some, List, [], ◌∷◌, ◌++◌,
  length, In, inl, inr, contains, string_eq, arith, ltb, leb, Bool-cases, Option-cases, List-cases,
}
use mathlib.Core.Path.{subst}
use mathlib.Core.List.{append_assoc, append-nil}
use dexpi_datalog.Prelude.Dict
use dexpi_datalog.Json.{Json, Fields}
use dexpi_datalog.Topology.Facts.{Entry, Interpretation, entries}
use dexpi_datalog.Topology.Search.{
  Trail, Search, done, extend, object_of, report, offer, scan, expand, loop,
}

module _ (to_str : Json → String) (i : Interpretation) (max_hops limit : ℕ) where
  -- the trail's length in nodes
  abbrev pub nodes_of : Trail → ℕ
  nodes_of t = length t.witness.topology_node_ids

  -- What one adjacency entry does to the search.
  pub data Offered (t : Trail) (e : Entry) (s s' : Search) : Type 0 where
    seen : contains s.visited e.neighbor ≡ true → s' ≡ s → Offered t e s s'
    far : s' ≡ record s { truncated = true } → Offered t e s s'
    full :
        contains s.visited e.neighbor ≡ false
        → s' ≡ record s { visited = e.neighbor ∷ s.visited; truncated = true }
        → Offered t e s s'
    taken :
        (node : Fields)
        → contains s.visited e.neighbor ≡ false
        → length (t.witness.topology_node_ids ++ e.neighbor ∷ []) ≤ max_hops + 1
        → length s.reachable < limit
        → s' ≡ record s {
          visited = e.neighbor ∷ s.visited;
          reachable = s.reachable ++ object_of to_str i node (extend to_str i t e) ∷ [];
          queue = s.queue ++ extend to_str i t e ∷ [];
        }
        → Offered t e s s'

  some_injective : (s s' : Search) → some s ≡ some s' → s' ≡ s
  some_injective s s' e = cc

  done_injective : (s s' : Search) → done s ≡ done s' → s ≡ s'
  done_injective s s' e = cc

  pub offer_cases :
      (t : Trail) (e : Entry) (s s' : Search)
      → offer to_str i max_hops limit t e s ≡ some s'
      → Offered t e s s'
  unfolding offer
  offer_cases t e s s' h = elim (Bool-cases (contains s.visited e.neighbor)) [
    | inl old ↦ seen old (some_injective _ _ (rw (old, offer) at h))
    | inr new ↦
        elim (Bool-cases
          (ltb (max_hops + 1) (length (t.witness.topology_node_ids ++ e.neighbor ∷ [])))) [
            | inl long ↦ far (some_injective _ _ (rw long at (rw (new, offer) at h)))
            | inr short ↦ elim (Bool-cases (leb limit (length s.reachable))) [
              | inl over ↦
                  full new (some_injective _ _ (rw over at (rw short at (rw (new, offer) at h))))
              | inr room ↦ elim (Option-cases (Dict.get e.neighbor i.node_info)) [
                | inl lost ↦
                    cc (rw (lost, report) at (rw room at (rw short at (rw (new, offer) at h))))
                | inr (node, known) ↦ taken node new (ground arith) (ground arith) (
                    some_injective _ _
                      (rw (known, report) at (rw room at (rw short at (rw (new, offer) at h)))))
              ]
            ]
          ]
  ]

  module _ {κ}
      -- between two rounds; in a round on a trail, with the entries that are behind it
      (P : Search → Type κ) (Q : Trail → List Entry → Search → Type κ)
      (begin : (s : Search) (t : Trail) (rest : List Trail)
        → s.queue ≡ t ∷ rest
        → P s
        → Q t [] (record s { queue = rest }))
      (round : (t : Trail) (e : Entry) (es : List Entry) (s s' : Search)
        → In e (entries i.adjacency t.current_id)
        → Offered t e s s'
        → Q t es s
        → Q t (es ++ e ∷ []) s')
      (end : (t : Trail) (s : Search) → Q t (entries i.adjacency t.current_id) s → P s) where
    scan_rule :
        (t : Trail) (before es : List Entry) (s s' : Search)
        → ((e : Entry) → In e es → In e (entries i.adjacency t.current_id))
        → scan to_str i max_hops limit t es s ≡ some s'
        → Q t before s
        → Q t (before ++ es) s'
    unfolding scan
    scan_rule t before [] s s' all h q =
        rw append-nil (subst (Q t before) (sym (some_injective s s' h)) q)
    scan_rule t before (e ∷ es) s s' all h q =
        elim (Option-cases (offer to_str i max_hops limit t e s)) [
          | inl bad ↦ cc (rw (bad, scan) at h)
          | inr (s1, fine) ↦ rw (← append_assoc before (e ∷ []) es) (
              scan_rule t (before ++ e ∷ []) es s1 s' (λ x m. all x (inr m)) (rw (fine, scan) at h)
                (round t e before s s1 (all e (inl refl)) (offer_cases t e s s1 fine) q))
        ]

    expand_rule :
        (s s' : Search) (t : Trail) (rest : List Trail)
        → s.queue ≡ t ∷ rest
        → expand to_str i max_hops limit t rest s ≡ some s'
        → P s
        → P s'
    unfolding expand
    expand_rule s s' t rest e h p = end t s' (
        scan_rule t [] (entries i.adjacency t.current_id) (record s { queue = rest }) s' (λ x m. m)
          h (begin s t rest e p))

    ended : (s s' : Search) → done s ≡ done s' → s.queue ≡ [] → P s → P s' × (s'.queue ≡ [])
    ended s s' h empty p =
        let same : s ≡ s' = done_injective s s' h in (subst P same p, rw (← same) empty)

    -- An invariant of the rounds holds at the end, where the queue is empty.
    pub loop_rule :
        (fuel : ℕ) (s s' : Search)
        → loop to_str i max_hops limit fuel s ≡ done s'
        → P s
        → P s' × (s'.queue ≡ [])
    unfolding loop
    loop_rule zero s s' h p = elim (List-cases s.queue) [
      | inl empty ↦ ended s s' (rw (empty, loop) at h) empty p
      | inr (t, rest, e) ↦ cc (rw (e, loop) at h)
    ]
    loop_rule (suc fuel) s s' h p = elim (List-cases s.queue) [
      | inl empty ↦ ended s s' (rw (empty, loop) at h) empty p
      | inr (t, rest, e) ↦ elim (Option-cases (expand to_str i max_hops limit t rest s)) [
        | inl bad ↦ cc (rw (bad, loop) at (rw (e, loop) at h))
        | inr (s1, fine) ↦
            loop_rule fuel s1 s' (rw (fine, loop) at (rw (e, loop) at h))
              (expand_rule s s1 t rest e fine p)
      ]
    ]
