-- ===== src/Promotion.antt =====
-- verification/promote_advisory.py: advisory guidance as draft rules. str.lower, the two regular
-- expressions of component presence, the substitution that makes a rule id, and str are parameters.
pub mod Lines
pub mod Version
pub mod Confirmed
pub mod Revised
mod Tests
use dexpi_datalog.Prelude.{
  ℕ, zero, suc, String, Bool, true, false, ◌&&◌, ◌||◌, Option, none, some, List, [], ◌∷◌, ◌++◌,
  ◌==◌, string_eq, if◌then◌else◌,
}
use dexpi_datalog.Prelude.Text.{◌⊕◌, occurs, starts_with, strip, rstrip, join}
use dexpi_datalog.Json
use dexpi_datalog.Json.{
  ℤ, pos, negsuc, Json, null, bool, int, str, arr, obj, Items, nil, cons, Fields, end, field,
  truthy,
}
use dexpi_datalog.Gate.Layers.{value_at}

-- `OUTSIDE_ISLAND_MARKERS`
abbrev pub outside_island_markers : List String
outside_island_markers =
    "adequate" ∷ "adequacy" ∷ "sufficient" ∷ "worst-case" ∷ "worst case" ∷ "unless"
    ∷ "should consider" ∷ "engineering judgment" ∷ []

-- `PUMP_PRESENT_FENCE`, by its lines
abbrev pump_present_fence : String
pump_present_fence = join "\n" (
    ".decl pump(id:symbol)" ∷ "pump(id) :- node_label(id, \"CentrifugalPump\")." ∷ ""
    ∷ ".decl rule_result(subject_id:symbol, result_type:symbol)"
    ∷ "rule_result(id, \"pass\") :- pump(id)." ∷ ""
    ∷ ".decl rule_message(subject_id:symbol, message:symbol)"
    ∷ "rule_message(id, \"A centrifugal pump is present in the prepared graph.\") :- pump(id)." ∷ ""
    ∷ ".decl rule_subject_attr(subject_id:symbol, attr:symbol, value:symbol)"
    ∷ "rule_subject_attr(id, \"pump_id\", id) :- pump(id)."
    ∷ "rule_subject_attr(id, \"discharge_nozzle_id\", \"n/a\") :- pump(id)." ∷ ""
    ∷ ".decl rule_engine_attr(subject_id:symbol, key:symbol, value:symbol)"
    ∷ "rule_engine_attr(id, \"engine\", \"souffle\") :- pump(id)." ∷ "" ∷ ".output rule_result"
    ∷ ".output rule_message" ∷ ".output rule_subject_attr" ∷ ".output rule_engine_attr" ∷ "" ∷ [])

abbrev pub has_marker : String → List String → Bool
unfolding occurs
has_marker s [] = false
has_marker s (m ∷ ms) = occurs m s || has_marker s ms

-- A proposal, or the exception.
pub data Proposal : Type 0 where
  draft : Fields → Proposal
  abstained : Fields → Proposal
  unknown_section : String → Proposal
  no_pack_id : Proposal
  not_iterable : Proposal

-- the dict of a draft
abbrev draft_dict : String → String → String → Fields
draft_dict pack_id title rule_id = field "pack_id" (str pack_id) (
    field "advisory_title" (str title) (
      field "rule_id" (str rule_id) (
        field "title" (str title) (
          field "trust" (str "pending_author_confirmation") (
            field "authoritative" (bool false) (
              field "outcomes"
                (arr
                  (cons (str "satisfied") (cons (str "violated") (cons (str "indeterminate") nil))))
                (field "restatement"
                  (obj (
                    field "kind" (str "plain") (
                      field "plain_language_meaning"
                        (str
                          "If the prepared diagram is under review, then it must include at least one node labeled CentrifugalPump.")
                        end)))
                  (field "executable_logic"
                    (obj (
                      field "kind" (str "datalog") (
                        field "language" (str "souffle_datalog") (
                          field "content" (str pump_present_fence) (
                            field "inspectable" (bool true) (
                              field "editable" (bool false)
                                (field "disclosure" (str "collapsed") end)))))))
                    end))))))))

-- the dict of an abstention
abbrev abstention : String → Fields
abstention title = field "status" (str "abstained") (
    field "code" (str "promote.outside_island") (
      field "message"
        (str
          "This clause is outside the expressible predicate island (topology/reachability, component/class presence, or numeric attribute thresholds). It remains advisory pack guidance.")
        (field "advisory_title" (str title) end)))

module _ (to_str : Json → String) (lower : String → String)
    (names_pump asks_presence : String → Bool) (slug : String → String) where
  -- `classify_expressible_island(clause_text) == "in_island"`
  unfoldable pub classify_expressible_island : String → Bool
  classify_expressible_island clause_text =
      if has_marker (lower clause_text) outside_island_markers
      then false
      else names_pump clause_text && asks_presence clause_text

  -- The loop of `_find_advisory`.
  unfoldable pub find_section : String → Items → Option Fields
  unfolding value_at
  find_section title nil = none
  find_section title (cons (obj d) xs) =
      let rest = find_section title xs in
      if to_str (value_at "title" d) == title then some d else rest
  find_section title (cons _ xs) = find_section title xs

  -- `_slug_rule_id`
  abbrev slug_rule_id : String → String
  slug_rule_id title = let s = slug title in if s == "" then "promoted_rule" else s

  abbrev body_of : Json → String
  body_of body = if truthy body then to_str body else ""

  abbrev pub propose : Fields → String → Fields → Proposal
  unfolding classify_expressible_island value_at Json.get
  propose pack title section =
      if classify_expressible_island (body_of (value_at "body" section))
      then elim (Json.get "pack_id" pack) [
        | some v ↦ draft (
            field "status" (str "draft")
              (field "draft" (obj (draft_dict (to_str v) title (slug_rule_id title))) end))
        | none ↦ no_pack_id
      ]
      else abstained (abstention title)

  abbrev pub propose_in : Fields → String → Option Fields → Proposal
  propose_in pack title none = unknown_section title
  propose_in pack title (some section) = propose pack title section

  -- `_find_advisory` and what follows it: a text and the keys of a dict hold no sections.
  abbrev pub propose_from : Fields → String → Json → Proposal
  unfolding find_section
  propose_from pack title (arr sections) = propose_in pack title (find_section title sections)
  propose_from pack title (bool true) = not_iterable
  propose_from pack title (int z) = if truthy (int z) then not_iterable else unknown_section title
  propose_from pack title _ = unknown_section title

  -- `propose_advisory_promotion`
  unfoldable pub propose_advisory_promotion : Fields → String → Proposal
  unfolding value_at
  propose_advisory_promotion pack title =
      propose_from pack title (value_at "advisory_guidance" pack)
