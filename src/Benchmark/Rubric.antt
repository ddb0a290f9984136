-- ===== src/Benchmark/Rubric.antt =====
-- benchmark/trap_rubric.py: the judgments of a trap answer, read from a model or from a script.
pub mod Credit
use dexpi_datalog.Prelude.{
  String, Bool, true, false, not, ◌&&◌, Option, none, some, List, [], ◌∷◌, ◌==◌, string_eq,
  contains, all_of, if◌then◌else◌,
}
use dexpi_datalog.Prelude.Dict
use dexpi_datalog.Prelude.Dict.{Dict}
use dexpi_datalog.Prelude.Text.{strip, starts_with}
use dexpi_datalog.Json.{Json, bool, str, obj, Fields, end, field}
use dexpi_datalog.Gate.Layers.{value_at}
use dexpi_datalog.Benchmark.Contract.{TrapJudgment}
use dexpi_datalog.Intent.{keys}

abbrev pub malformed : TrapJudgment
malformed = record {
  grounded_refusal = false;
  graceful_redirect = false;
  rationale = "Malformed or refused trap-judge output; no rubric credit.";
}

abbrev pub judgment_keys : List String
judgment_keys = "grounded_refusal" ∷ "graceful_redirect" ∷ "rationale" ∷ []

-- set(payload) == {…}
abbrev pub has_judgment_keys : Fields → Bool
has_judgment_keys payload =
    all_of (contains judgment_keys) (keys payload) && all_of (contains (keys payload)) judgment_keys

abbrev pub judgment_of : Json → Json → Json → TrapJudgment
judgment_of (bool refusal) (bool redirect) (str rationale) =
    if strip rationale == ""
    then malformed
    else record { grounded_refusal = refusal; graceful_redirect = redirect; rationale = rationale }
judgment_of _ _ _ = malformed

abbrev pub judgment_in : Option Json → TrapJudgment
judgment_in (some (obj payload)) =
    if has_judgment_keys payload
    then judgment_of (value_at "grounded_refusal" payload) (value_at "graceful_redirect" payload)
        (value_at "rationale" payload)
    else malformed
judgment_in _ = malformed

-- json.loads gives `none` where it raises a JSONDecodeError.
module _ (loads : String → Option Json) (dumps : Json → String) where
  -- `_parse_judgment`
  unfoldable pub parse_judgment : Json → TrapJudgment
  unfolding strip value_at
  parse_judgment (str raw) = judgment_in (loads raw)
  parse_judgment _ = malformed

  -- What a scripted judgment is refused for, with its question.
  pub data Loaded : Type 0 where
    loaded : Dict String TrapJudgment → Loaded
    not_an_object : Loaded
    invalid_entry : String → Loaded
    invalid_judgment : String → Loaded

  abbrev load_entry : String → TrapJudgment → Loaded → Loaded
  unfolding starts_with
  load_entry question_id judgment rest =
      if starts_with judgment.rationale "Malformed or refused"
      then invalid_judgment question_id
      else rest

  -- The loop over the entries.
  unfoldable pub load_entries : Fields → Dict String TrapJudgment → Loaded
  unfolding load_entry parse_judgment
  load_entries end judgments = loaded judgments
  load_entries (field question_id (obj payload) rest) judgments =
      let judgment = parse_judgment (str (dumps (obj payload))) in
      load_entry question_id judgment (load_entries rest (Dict.put question_id judgment judgments))
  load_entries (field question_id _ rest) judgments = invalid_entry question_id

  -- `load_scripted_trap_judgments`, from the value in the file
  unfoldable pub load_scripted_trap_judgments : Json → Loaded
  unfolding load_entries
  load_scripted_trap_judgments (obj raw) = load_entries raw []
  load_scripted_trap_judgments _ = not_an_object
