-- ===== src/Turn/Outcome/Kept.antt =====
-- The events of a result go behind those that were there, and end in the one for its status.
use dexpi_datalog.Prelude.{
  ◌≡◌, refl, sym, List, Bool, true, false, Option, none, some, ◌||◌, ◌==◌, string_eq, if◌then◌else◌,
}
use mathlib.Core.Path.{subst}
use dexpi_datalog.Json
use dexpi_datalog.Json.{Json, Fields, str, truthy, arr, nil, end, obj, field, single}
use dexpi_datalog.Turn.Defs.{
  Status, Turn, Backend, append, append_all, text, evidence, execution_trace, paused, canceled,
  failed, completed, review_required, cancellation, failure, completion, EventType,
}
use dexpi_datalog.Turn.Keys.{IsId}
use dexpi_datalog.Turn.Invariant.{
  IsNumbered, IsTurn, closing, append-IsTurn, Grows, Grows-refl, Grows-trans, Grows-append,
  Grows-append_all, Grows-relabel,
}
use dexpi_datalog.Turn.Outcome.{add_text, add_evidence, close, shown_of, add_outcome}

Grows-if : (c : Bool) (t u v : Turn) → Grows t u → Grows t v → Grows t (if c then u else v)
Grows-if true t u v g h = g
Grows-if false t u v g h = h

add_text-Grows : (t : Turn) (o : Option Json) → Grows t (add_text t o)
add_text-Grows t (some (str s)) =
    Grows-if (s == "") t t (append t text (single "text" (str s))) (Grows-refl t)
      (Grows-append t text _)
add_text-Grows t (some _) = Grows-refl t
add_text-Grows t none = Grows-refl t

add_evidence-Grows : (t : Turn) (r h : Json) → Grows t (add_evidence t r h)
add_evidence-Grows t r h =
    Grows-if (truthy r || truthy h) t
      (append t evidence (obj (field "evidence_references" r (field "evidence_highlight" h end)))) t
      (Grows-append t evidence _) (Grows-refl t)

-- what closing a turn gives
pub record Closes (t u : Turn) : Type 0 where
  pub grows : Grows t u
  pub is_turn : IsNumbered 0 t.events → IsId t.turn_id → IsTurn u

Closes-append :
    (t : Turn) (st : Status) (kind : EventType) (p : Json)
    → kind ≡ closing st
    → Closes t (append (record t { status = st }) kind p)
Closes-append t st kind p e = record {
  grows =
      Grows-trans (Grows-relabel t st t.result t.steering)
        (Grows-append (record t { status = st }) kind p);
  is_turn = λ h n. append-IsTurn (record t { status = st }) kind p h n e;
}

Closes-after : {t u v : Turn} → Grows t u → Closes u v → Closes t v
Closes-after g c = record {
  grows = Grows-trans g c.grows;
  is_turn = λ h n. c.is_turn (g.numbered_on h) (subst IsId (sym g.continues.same_turn) n);
}

Closes-if : (c : Bool) (t u v : Turn) → Closes t u → Closes t v → Closes t (if c then u else v)
Closes-if true t u v g h = g
Closes-if false t u v g h = h

module _ (b : Backend) where
  close-Closes : (t : Turn) (r : Fields) → Closes t (close b t r)
  unfolding close
  close-Closes t r = Closes-if _ t _ _ (Closes-append t paused review_required _ refl) (
      Closes-if _ t _ _ (Closes-append t canceled cancellation _ refl) (
        Closes-if _ t _ _ (Closes-append t failed failure _ refl)
          (Closes-append t completed completion _ refl)))

  pub add_outcome-Closes :
      (t : Turn) (trace : List Json) (r : Fields) → Closes t (add_outcome b t trace r)
  unfolding add_outcome shown_of Json.get_or
  add_outcome-Closes t trace r =
      let references = Json.get_or "evidence_references" (arr nil) r in
      let highlight = Json.get_or "evidence_highlight" (obj end) r in
      let traced = append_all t execution_trace trace in
      let answered = add_text traced (Json.get "answer_text" r) in
      Closes-after
        (Grows-trans (Grows-append_all t execution_trace trace) (
          Grows-trans (add_text-Grows traced (Json.get "answer_text" r))
            (add_evidence-Grows answered references highlight)))
        (close-Closes (add_evidence answered references highlight) r)
