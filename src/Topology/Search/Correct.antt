-- ===== src/Topology/Search/Correct.antt =====
-- What `reachable_from` promises.
use mathlib.Core.Path.{subst}
use dexpi_datalog.Prelude.{
  ℕ, suc, ◌≤◌, String, ◌≡◌, ◌≢◌, refl, ◌⊎◌, Bool, false, Option, none, some, List, [], ◌∷◌, map,
  length, In, inl, inr, Option-cases, string_eq,
}
use dexpi_datalog.Prelude.Dict
use dexpi_datalog.Json.{Json, Fields}
use dexpi_datalog.Topology.Facts.{Entry, Interpretation}
use dexpi_datalog.Topology.Search.{
  Search, ReachableObject, Outcome, done, key_error, out_of_fuel, loop, start, ReachabilityResult,
  found, unknown_equipment, limit_of, result_of, reachable_from,
}
use dexpi_datalog.Topology.Search.Chains.{Chain, Explains, IsDistinct}
use dexpi_datalog.Topology.Search.Total.{IsKnown, search_returns}
use dexpi_datalog.Topology.Search.Sound.{loop-Traced}
use dexpi_datalog.Topology.Search.Complete.{loop_reports_all}

abbrev pub ids : List ReachableObject → List String
ids = map (λ o. o.topology_id)

module _ (to_str : Json → String) (i : Interpretation) (u : String) (max_hops : ℕ)
    (result_limit : Option ℕ) where
  abbrev limit : ℕ
  limit = limit_of result_limit

  -- A known equipment id gets a result, an unknown one the error that names it; no KeyError
  -- escapes, and the loop ends.
  pub reachable_from_returns :
      IsKnown i
      → ((node : Fields) × (Dict.get u i.node_info ≡ some node)
          × (objs : List ReachableObject) × (b : Bool) × (reachable_from to_str i u max_hops
                result_limit
              ≡ some (found objs b)))
        ⊎ ((Dict.get u i.node_info ≡ none)
            × (reachable_from to_str i u max_hops result_limit ≡ some (unknown_equipment u)))
  unfolding reachable_from
  reachable_from_returns known = elim (Option-cases (Dict.get u i.node_info)) [
    | inl e ↦ inr (e, rw (e, reachable_from))
    | inr (node, e) ↦
        let (s, h) = search_returns to_str i max_hops limit u known in
        inl (node, e, s.reachable, s.truncated, rw (e, reachable_from) (rw (h, result_of)))
  ]

  some_injective : (r q : ReachabilityResult) → some r ≡ some q → r ≡ q
  some_injective r q e = cc

  found_injective :
      (xs ys : List ReachableObject) (b c : Bool) → found xs b ≡ found ys c → (xs ≡ ys) × (b ≡ c)
  found_injective xs ys b c e = (cc, cc)

  result_cases :
      (o : Outcome) (objs : List ReachableObject) (b : Bool)
      → result_of to_str i o ≡ some (found objs b)
      → (s : Search) × (o ≡ done s) × (s.reachable ≡ objs) × (s.truncated ≡ b)
  unfolding result_of
  result_cases (done s) objs b h =
      let (p, q) = found_injective _ _ _ _ (some_injective _ _ h) in (s, refl, p, q)
  result_cases key_error objs b h = cc
  result_cases out_of_fuel objs b h = cc

  -- the search behind a result
  abbrev Ran : List ReachableObject → Bool → Type 0
  Ran objs b =
      (s : Search) × (loop to_str i max_hops limit (suc limit) (start to_str i max_hops limit u)
        ≡ done s)
      × (s.reachable ≡ objs)
      × (s.truncated ≡ b)

  found-Ran :
      (objs : List ReachableObject) (b : Bool)
      → reachable_from to_str i u max_hops result_limit ≡ some (found objs b)
      → Ran objs b
  unfolding reachable_from
  found-Ran objs b h = elim (Option-cases (Dict.get u i.node_info)) [
    | inl e ↦ cc (rw (e, reachable_from) at h)
    | inr (node, e) ↦ result_cases _ objs b (rw (e, reachable_from) at h)
  ]

  -- what a result says of its objects
  pub record IsSupported (objs : List ReachableObject) : Type 0 where
    pub explained :
        (o : ReachableObject) → In o objs → Explains i u max_hops o.topology_id o.witness
    pub distinct : IsDistinct (u ∷ ids objs)
    pub bounded : length objs ≤ limit

  -- Every reported object comes with a witness that is the record of a real path: its node, edge,
  -- relationship, raw node and raw edge lists are those of one chain of adjacency entries from the
  -- start to the object, of at most `max_hops` edges and without a repeated node. No object is
  -- reported twice, the start is not reported, and there are at most as many as the limit.
  pub reachable_from-IsSupported :
      (objs : List ReachableObject) (b : Bool)
      → reachable_from to_str i u max_hops result_limit ≡ some (found objs b)
      → IsSupported objs
  reachable_from-IsSupported objs b h =
      let (s, ran, same, _) = found-Ran objs b h in
      let t = loop-Traced to_str i u max_hops limit (suc limit) s ran in
      rw (← same) (record { explained = t.reports; distinct = t.distinct; bounded = t.bounded })

  -- A result that is not truncated is exact: the reported ids, with the start, are the nodes to
  -- which some chain of adjacency entries leads from the start, whatever its length.
  pub reachable_from_exact :
      (objs : List ReachableObject)
      → reachable_from to_str i u max_hops result_limit ≡ some (found objs false)
      → (v : String) → v ≢ u
      → (In v (ids objs) → (path : List Entry) × Chain i.adjacency u path v)
        × ((path : List Entry) → Chain i.adjacency u path v → In v (ids objs))
  reachable_from_exact objs h v other = (
    λ m. listed objs (reachable_from-IsSupported objs false h).explained v m,
    λ path c.
        let (s, ran, same, ok) = found-Ran objs false h in
        elim (loop_reports_all to_str i u max_hops limit (suc limit) s ran ok path v c) [
          | inl at ↦ absurd (other at)
          | inr m ↦ subst (λ x. In v (ids x)) same m
        ],
  )
    where
      listed :
          (xs : List ReachableObject)
          → ((o : ReachableObject) → In o xs → Explains i u max_hops o.topology_id o.witness)
          → (v : String) → In v (ids xs)
          → (path : List Entry) × Chain i.adjacency u path v
      listed [] h v m = absurd m
      listed (o ∷ xs) h v (inl at) = let x = h o (inl refl) in (x.path, rw at x.chain)
      listed (o ∷ xs) h v (inr m) = listed xs (λ y k. h y (inr k)) v m
