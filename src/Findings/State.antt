-- ===== src/Findings/State.antt =====
-- verification/validation_state.py: the findings that remain, by the objects they affect.
use dexpi_datalog.Prelude.{
  String, ◌≡◌, refl, ap, ◌∙◌, inl, inr, Option, none, some, List, [], ◌∷◌, ◌++◌, ◌==◌, string_eq,
  list_eq, list_beq_iff, ==_refl, length, ltb, map, In, In-append_left, In-append_right, Bool-cases,
  if◌then◌else◌,
}
use dexpi_datalog.Prelude.Dict
use dexpi_datalog.Prelude.Dict.{Dict, get-put}
use dexpi_datalog.Prelude.Sets.{distinct, In-distinct}
use dexpi_datalog.Prelude.Sort.{sort, text_le, In-sort}
use dexpi_datalog.Findings.Suppress.{Finding}

pub record ValidationState : Type 0 where
  pub affected_object_ids : List String
  pub state : String
  pub source_rule_ids : List String

abbrev Groups : Type 0
Groups = Dict (List String) (List Finding)

abbrev found_or_nil : Option (List Finding) → List Finding
found_or_nil none = []
found_or_nil (some fs) = fs

-- grouped_findings.setdefault(key, []).append(finding)
add_finding : Finding → Groups → Groups
add_finding f d =
    Dict.put f.affected_object_ids (found_or_nil (Dict.get f.affected_object_ids d) ++ f ∷ []) d

group : List Finding → Groups → Groups
group [] d = d
group (f ∷ fs) d = group fs (add_finding f d)

-- sorted({finding["rule_id"] for finding in findings})
source_rule_ids : List Finding → List String
unfolding distinct
source_rule_ids fs = sort text_le (distinct (map (λ f. f.rule_id) fs))

abbrev state_of : List String → List Finding → ValidationState
state_of key fs = record {
  affected_object_ids = key;
  state = if ltb 1 (length (source_rule_ids fs)) then "conflicted" else "needs_review";
  source_rule_ids = source_rule_ids fs;
}

states : Groups → List ValidationState
states [] = []
states ((key, fs) ∷ d) = state_of key fs ∷ states d

unfoldable pub derive_validation_state : List Finding → List ValidationState
unfolding states group source_rule_ids add_finding
derive_validation_state suppressed_findings = states (group suppressed_findings [])

-- the finding stands in the group of its objects
abbrev IsGrouped : Groups → Finding → Type 0
IsGrouped d f = (fs : List Finding) × (Dict.get f.affected_object_ids d ≡ some fs) × In f fs

add_finding-IsGrouped : (g f : Finding) (d : Groups) → IsGrouped d f → IsGrouped (add_finding g d) f
unfolding add_finding
add_finding-IsGrouped g f d (fs, e, m) =
    let j = g.affected_object_ids in
    let k = f.affected_object_ids in
    let new = found_or_nil (Dict.get j d) ++ g ∷ [] in
    let there = get-put j k new d in
    elim (Bool-cases (j == k)) [
      | inr n ↦ (fs, there ∙ rw n e, m)
      | inl y ↦
          let at : j ≡ k = (list_beq_iff j k).0 y in
          let old : found_or_nil (Dict.get j d) ≡ fs = rw at (rw e) in
          (new, there ∙ rw y, rw old (In-append_left f fs (g ∷ []) m))
    ]

add_finding_self : (f : Finding) (d : Groups) → IsGrouped (add_finding f d) f
unfolding add_finding
add_finding_self f d =
    let k = f.affected_object_ids in
    let old = found_or_nil (Dict.get k d) in
    (
      old ++ f ∷ [],
      get-put k k (old ++ f ∷ []) d ∙ rw (==_refl k),
      In-append_right f old (f ∷ []) (inl refl),
    )

group_keeps :
    (fs : List Finding) (d : Groups) (f : Finding) → IsGrouped d f → IsGrouped (group fs d) f
unfolding group
group_keeps [] d f h = h
group_keeps (g ∷ fs) d f h = group_keeps fs (add_finding g d) f (add_finding-IsGrouped g f d h)

group-IsGrouped :
    (fs : List Finding) (d : Groups) (f : Finding) → In f fs → IsGrouped (group fs d) f
unfolding group
group-IsGrouped [] d f m = absurd m
group-IsGrouped (g ∷ fs) d f (inl at) =
    rw at (group_keeps fs (add_finding g d) g (add_finding_self g d))
group-IsGrouped (g ∷ fs) d f (inr m) = group-IsGrouped fs (add_finding g d) f m

In-rule :
    (f : Finding) (fs : List Finding) → In f fs → In f.rule_id (map (λ (g : Finding). g.rule_id) fs)
In-rule f [] m = absurd m
In-rule f (g ∷ fs) (inl at) = inl (ap (λ (h : Finding). h.rule_id) at)
In-rule f (g ∷ fs) (inr m) = inr (In-rule f fs m)

In-source_rule_ids : (f : Finding) (fs : List Finding) → In f fs → In f.rule_id (source_rule_ids fs)
unfolding source_rule_ids
In-source_rule_ids f fs m =
    (In-sort text_le f.rule_id (distinct (map (λ g. g.rule_id) fs))).1
      ((In-distinct (map (λ g. g.rule_id) fs) f.rule_id).1 (In-rule f fs m))

-- A state for the objects of the finding that names its rule.
pub record IsReported (f : Finding) (ss : List ValidationState) : Type 0 where
  pub reported : ValidationState
  pub listed : In reported ss
  pub same_objects : reported.affected_object_ids ≡ f.affected_object_ids
  pub named : In f.rule_id reported.source_rule_ids

some_injective : (gs fs : List Finding) → some gs ≡ some fs → gs ≡ fs
some_injective gs fs e = cc

states-IsReported : (d : Groups) (f : Finding) → IsGrouped d f → IsReported f (states d)
unfolding states Dict.get
states-IsReported [] f (fs, e, m) = cc
states-IsReported ((key, gs) ∷ d) f (fs, e, m) = elim (Bool-cases (key == f.affected_object_ids)) [
  | inl y ↦
      let same : gs ≡ fs = some_injective gs fs (rw y at e) in
      record {
        reported = state_of key gs;
        listed = inl refl;
        same_objects = (list_beq_iff key f.affected_object_ids).0 y;
        named = In-source_rule_ids f gs (rw same m);
      }
  | inr n ↦
      let r = states-IsReported d f (fs, rw n at e, m) in
      record {
        reported = r.reported;
        listed = inr r.listed;
        same_objects = r.same_objects;
        named = r.named;
      }
]

-- Every finding that remains after suppression is in the result: some state lists exactly the
-- objects that the finding affects, and names its rule.
pub derive_validation_state-IsReported :
    (fs : List Finding) (f : Finding) → In f fs → IsReported f (derive_validation_state fs)
unfolding derive_validation_state
derive_validation_state-IsReported fs f m =
    states-IsReported (group fs []) f (group-IsGrouped fs [] f m)
