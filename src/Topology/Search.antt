-- ===== src/Topology/Search.antt =====
-- `TopologyInterpretation.reachable_from` of semantics/topology_interpretation.py.
pub mod Chains
pub mod Rounds
pub mod Total
pub mod Sound
pub mod Complete
pub mod Correct
use dexpi_datalog.Prelude.{
  ℕ, zero, suc, ◌+◌, String, ◌≡◌, refl, Bool, true, false, Option, none, some, List, [], ◌∷◌, ◌++◌,
  length, ltb, leb, ◌==◌, nat_eq, string_eq, contains, if◌then◌else◌,
}
use dexpi_datalog.Prelude.Dict
use dexpi_datalog.Json
use dexpi_datalog.Json.{Json, Fields, str, truthy}
use dexpi_datalog.Topology.Facts.{
  RawEdgeIdentity, StructuralPathWitness, Entry, Basis, classify_path_direction_basis,
  Interpretation, entries, raw_id,
}

pub record ReachableObject : Type 0 where
  pub topology_id : String
  pub label : String
  pub node_class : String
  pub category : String
  pub source_id : String
  pub direction_status : Basis
  pub witness : StructuralPathWitness

-- A queue entry: where it stands, and how it came there.
pub record Trail : Type 0 where
  pub current_id : String
  pub witness : StructuralPathWitness

pub record Search : Type 0 where
  pub visited : List String
  pub queue : List Trail
  pub reachable : List ReachableObject
  pub truncated : Bool

-- `key_error` is the KeyError of `self._node_info_by_topology_id[neighbor_id]`.
pub data Outcome : Type 0 where
  done : Search → Outcome
  key_error out_of_fuel : Outcome

-- `ReachabilityResult`
pub data ReachabilityResult : Type 0 where
  found : List ReachableObject → Bool → ReachabilityResult
  unknown_equipment : String → ReachabilityResult

abbrev pub default_result_limit : ℕ
default_result_limit = 30

-- result_limit or self.DEFAULT_RESULT_LIMIT
abbrev pub limit_of : Option ℕ → ℕ
limit_of none = default_result_limit
limit_of (some n) = if n == 0 then default_result_limit else n

-- a or b, for values of a dict
abbrev or_else : Option Json → Json → Json
or_else none v = v
or_else (some w) v = if truthy w then w else v

abbrev source_or : Option String → String → String
source_or none session = session
source_or (some s) session = if s == "" then session else s

module _ (to_str : Json → String) (i : Interpretation) where
  label_of : Option Fields → String → String
  label_of none u = u
  label_of (some node) u = to_str (
      or_else (Json.get "display_name" node)
        (or_else (Json.get "tag_name" node) (or_else (Json.get "label" node) (str u))))

  -- `_node_label`
  node_label : String → String
  unfolding label_of
  node_label u = label_of (Dict.get u i.node_info) u

  -- the trail one entry further
  unfoldable pub extend : Trail → Entry → Trail
  extend t e = record {
    current_id = e.neighbor;
    witness = record {
      raw_node_ids = t.witness.raw_node_ids ++ raw_id i e.neighbor ∷ [];
      raw_edges = t.witness.raw_edges ++ e.raw_edge ∷ [];
      topology_node_ids = t.witness.topology_node_ids ++ e.neighbor ∷ [];
      topology_edge_ids = t.witness.topology_edge_ids ++ e.edge_id ∷ [];
      relationships = t.witness.relationships ++ e.relationship ∷ [];
    };
  }

  unfoldable pub object_of : Fields → Trail → ReachableObject
  unfolding node_label
  object_of node t = record {
    topology_id = t.current_id;
    label = node_label t.current_id;
    node_class =
        to_str (or_else (Json.get "class_name" node) (or_else (Json.get "label" node) (str "")));
    category = to_str (or_else (Json.get "category" node) (str "other"));
    source_id = source_or i.source_id i.session_id;
    direction_status = classify_path_direction_basis t.witness.relationships;
    witness = t.witness;
  }

  module _ (max_hops limit : ℕ) where
    report : Search → Trail → Option Fields → Option Search
    report s t none = none
    report s t (some node) =
        some
          (record s { reachable = s.reachable ++ object_of node t ∷ []; queue = s.queue ++ t ∷ [] })

    -- the body of the inner loop; `none` is the KeyError
    unfoldable pub offer : Trail → Entry → Search → Option Search
    unfolding report
    offer t e s =
        if contains s.visited e.neighbor
        then some s
        else if ltb (max_hops + 1) (length (t.witness.topology_node_ids ++ e.neighbor ∷ []))
        then some (record s { truncated = true })
        else let s' = record s { visited = e.neighbor ∷ s.visited } in
          if leb limit (length s.reachable)
          then some (record s' { truncated = true })
          else report s' (extend t e) (Dict.get e.neighbor i.node_info)

    unfoldable pub scan : Trail → List Entry → Search → Option Search
    scan t [] s = some s
    scan t (e ∷ es) s = elim (offer t e s) [ none ↦ none | some s' ↦ scan t es s' ]

    -- one round of the outer loop, with `t` from the left end of the queue
    unfoldable pub expand : Trail → List Trail → Search → Option Search
    unfolding scan
    expand t rest s = scan t (entries i.adjacency t.current_id) (record s { queue = rest })

    unfoldable pub loop : ℕ → Search → Outcome
    unfolding expand
    loop zero s = elim s.queue [ [] ↦ done s | _ ∷ _ ↦ out_of_fuel ]
    loop (suc fuel) s = elim s.queue [
      | [] ↦ done s
      | t ∷ rest ↦ elim (expand t rest s) [ none ↦ key_error | some s' ↦ loop fuel s' ]
    ]

    unfoldable pub start : String → Search
    start u = record {
      visited = u ∷ [];
      queue =
          record {
            current_id = u;
            witness = record {
              raw_node_ids = raw_id i u ∷ [];
              raw_edges = [];
              topology_node_ids = u ∷ [];
              topology_edge_ids = [];
              relationships = [];
            };
          }
          ∷ [];
      reachable = [];
      truncated = false;
    }

  -- `none` is an escaping KeyError. Each round but the first takes up a reported object, so
  -- `limit + 1` rounds are enough.
  result_of : Outcome → Option ReachabilityResult
  result_of (done s) = some (found s.reachable s.truncated)
  result_of key_error = none
  result_of out_of_fuel = none

  unfoldable pub reachable_from : String → ℕ → Option ℕ → Option ReachabilityResult
  unfolding result_of
  reachable_from u max_hops result_limit = elim (Dict.get u i.node_info) [
    | none ↦ some (unknown_equipment u)
    | some _ ↦
        let limit = limit_of result_limit in
        result_of (loop max_hops limit (suc limit) (start max_hops limit u))
  ]
