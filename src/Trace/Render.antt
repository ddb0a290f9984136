-- ===== src/Trace/Render.antt =====
-- `render_execution_trace` of web/execution_trace.py: the events of a run, grouped, as trace
-- artifacts in the store and envelopes that name them. The artifacts are kept as JSON values.
use dexpi_datalog.Prelude.{
  ℕ, zero, suc, ◌-◌, String, Bool, ◌&&◌, Option, none, some, List, [], ◌∷◌, ◌++◌, ◌==◌, string_eq,
  nat_eq, contains, take, length, ltb, if◌then◌else◌,
}
use dexpi_datalog.Prelude.Sort.{sort, text_le}
use dexpi_datalog.Prelude.Text.{◌⊕◌, slice_to}
use dexpi_datalog.Json
use dexpi_datalog.Json.{
  pos, Json, int, str, arr, obj, Items, nil, cons, Fields, end, field, to_items, single,
}
use dexpi_datalog.Gate.Layers.{value_at}
use dexpi_datalog.Store.{ArtifactStore}
use dexpi_datalog.Trace.Envelope.{
  Texts, max_evidence_references, items_of, kind_category, safe_value, string_list, event_kind,
  sanitize_event_detail, status_of, summary,
}

abbrev pub max_trace_events : ℕ
max_trace_events = 64

abbrev pub max_group_occurrences : ℕ
max_group_occurrences = 20

-- The dict of a group; the group of omitted events has no status.
pub record Group : Type 0 where
  pub kind : String
  pub template_id : String
  pub outcome : String
  pub status : Option String
  pub count : ℕ
  pub first : Fields
  pub evidence : List String
  pub occurrences : List Json

-- `_key` of a trace artifact, of the session, the turn and the event
abbrev pub trace_key : String → String → String → String
trace_key session_id turn_id event_id =
    session_id ⊕ ("/turns/" ⊕ (turn_id ⊕ (".trace/" ⊕ (event_id ⊕ ".json"))))

abbrev pub count_items : Items → ℕ
count_items nil = 0
count_items (cons x xs) = suc (count_items xs)

abbrev pub take_items : ℕ → Items → Items
take_items zero xs = nil
take_items (suc n) nil = nil
take_items (suc n) (cons x xs) = cons x (take_items n xs)

-- the references that are not there yet, at the end
abbrev pub add_references : List String → List String → List String
add_references seen [] = seen
add_references seen (r ∷ rs) =
    if contains seen r then add_references seen rs else add_references (seen ++ r ∷ []) rs

abbrev pub same_group : Group → Group → Bool
same_group g h = g.kind == h.kind && g.template_id == h.template_id && g.outcome == h.outcome

-- One more event in its group, the last of which gives the status.
abbrev pub joined : Group → Group → Group
joined g e = record g {
  status = e.status;
  count = suc g.count;
  evidence = add_references g.evidence e.evidence;
  occurrences =
      if ltb (length g.occurrences) max_group_occurrences
      then g.occurrences ++ e.occurrences
      else g.occurrences;
}

-- The groups in the order of their first events.
abbrev pub add_event : Group → List Group → List Group
add_event e [] = e ∷ []
add_event e (g ∷ gs) =
    let rest = add_event e gs in if same_group g e then joined g e ∷ gs else g ∷ rest

module _ (texts : Texts) where
  open texts use {to_str, sha256_hex}

  -- An event as a group of its own.
  abbrev group_of : Fields → Group
  unfolding event_kind safe_value sanitize_event_detail status_of string_list value_at
  group_of raw =
      let kind = event_kind texts (to_str (Json.get_or "event" (str "activity") raw)) in
      let sanitized = sanitize_event_detail texts raw in
      record {
        kind = kind;
        template_id = safe_value texts (value_at "template_id" raw);
        outcome = safe_value texts (value_at "outcome" raw);
        status = some (status_of texts kind sanitized);
        count = 1;
        first = sanitized;
        evidence = string_list texts (value_at "evidence_references" raw);
        occurrences = obj sanitized ∷ [];
      }

  -- the loop over the events
  unfoldable pub group_events : Items → List Group → List Group
  unfolding group_of
  group_events nil gs = gs
  group_events (cons (obj raw) xs) gs = group_events xs (add_event (group_of raw) gs)
  group_events (cons _ xs) gs = group_events xs gs

  unfoldable pub event_id_of : String → Group → String
  unfolding slice_to
  event_id_of turn_id g =
      slice_to 16
        (sha256_hex (turn_id ⊕ ("\n" ⊕ (g.kind ⊕ ("\n" ⊕ (g.template_id ⊕ ("\n" ⊕ g.outcome)))))))

  abbrev pub detail_of : Group → Json
  detail_of g = obj (
      field "schema_version" (int (pos 1)) (
        field "kind" (str g.kind) (
          field "occurrences" (arr (to_items g.occurrences))
            (field "omitted_occurrence_count" (int (pos (g.count - length g.occurrences))) end))))

  abbrev pub envelope_of : String → String → List String → String → Group → Json
  unfolding kind_category summary
  envelope_of turn_id event_id evidence status g = obj (
      field "schema_version" (int (pos 1)) (
        field "event_id" (str event_id) (
          field "kind" (str g.kind) (
            field "category" (str (kind_category g.kind)) (
              field "status" (str status) (
                field "summary" (str (summary texts g.kind g.first g.count)) (
                  field "occurrence_count" (int (pos g.count)) (
                    field "evidence_references" (arr (items_of evidence))
                      (single_detail turn_id event_id)))))))))
    where
      single_detail : String → String → Fields
      single_detail turn_id event_id =
          field "detail"
            (obj (
              field "display" (str "artifact") (
                field "artifact"
                  (obj (
                    field "kind" (str "execution_trace_detail") (
                      field "path" (str ("turns/" ⊕ (turn_id ⊕ (".trace/" ⊕ (event_id ⊕ ".json")))))
                        (field "media_type" (str "application/json") end))))
                  end)))
            end

  abbrev pub evidence_shown : Group → List String → List String
  unfolding sort text_le
  evidence_shown g fallback =
      let evidence = take max_evidence_references (sort text_le g.evidence) in
      if g.kind == "grounded_qa.evidence.result_observed" && length evidence == 0
      then take max_evidence_references fallback
      else evidence

-- What a rendering comes to: envelopes, the exception of a write that was refused, or the KeyError
-- of a group without a status.
pub data Rendering : Type 0 where
  envelopes : List Json → Rendering
  refused : Rendering
  no_status : Rendering

-- str(group["status"]), and the envelope with it
abbrev pub status_shown : Option String → (String → Json) → Rendering
status_shown none envelope = no_status
status_shown (some status) envelope = envelopes (envelope status ∷ [])

-- Where one rendering went through, the next one comes after it.
abbrev pub and_then : {S : Type 0} → S × Rendering → S × Rendering → S × Rendering
and_then (s, envelopes es) (s', envelopes fs) = (s', envelopes (es ++ fs))
and_then (s, envelopes es) (s', e) = (s', e)
and_then (s, e) next = (s, e)

-- the group of the events that were left out
abbrev pub omitted_group : ℕ → Group
omitted_group omitted = record {
  kind = "grounded_qa.activity.omitted";
  template_id = "";
  outcome = "";
  status = none;
  count = 1;
  first = field "omitted_count" (int (pos omitted)) end;
  evidence = [];
  occurrences = single "omitted_count" (int (pos omitted)) ∷ [];
}

-- The events beyond the bound.
abbrev pub omitted_groups : ℕ → List Group
omitted_groups n = if ltb max_trace_events n then omitted_group (n - max_trace_events) ∷ [] else []

module _ {D : Type 0} (store : ArtifactStore D) (value : Json → D) (texts : Texts) where
  -- `_render_group`
  unfoldable pub render_group :
      String → String → List String → store.State → Group → store.State × Rendering
  unfolding event_id_of evidence_shown
  render_group session_id turn_id fallback s g =
      let event_id = event_id_of texts turn_id g in
      elim (store.write s (trace_key session_id turn_id event_id) (value (detail_of texts g))) [
        | none ↦ (s, refused)
        | some s' ↦ (
          s',
          status_shown g.status (λ status.
              envelope_of texts turn_id event_id (evidence_shown texts g fallback) status g),
        )
      ]

  unfoldable pub render_groups :
      String → String → List String → store.State → List Group → store.State × Rendering
  unfolding render_group
  render_groups session_id turn_id fallback s [] = (s, envelopes [])
  render_groups session_id turn_id fallback s (g ∷ gs) =
      let r = render_group session_id turn_id fallback s g in
      and_then r (render_groups session_id turn_id fallback r.0 gs)

  -- The groups of a result's events; those beyond the bound are one group that has no status.
  abbrev pub groups_of : Items → List Group
  unfolding group_events
  groups_of xs =
      group_events texts (take_items max_trace_events xs) [] ++ omitted_groups (count_items xs)

  -- `render_execution_trace`
  unfoldable pub render_execution_trace :
      store.State → String → String → Option Json → Json → store.State × Rendering
  unfolding render_groups group_events string_list
  render_execution_trace s session_id turn_id (some (arr xs)) fallback =
      render_groups session_id turn_id (string_list texts fallback) s (groups_of xs)
  render_execution_trace s session_id turn_id _ fallback = (s, envelopes [])
