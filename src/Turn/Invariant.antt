-- ===== src/Turn/Invariant.antt =====
-- What every stored turn satisfies, and how one turn goes on from another.
use mathlib.Core.List.{append_assoc, append-nil}
use dexpi_datalog.Prelude.{
  ℕ, suc, ◌+◌, String, ◌≡◌, refl, sym, ap, ◌∙◌, Option, none, some, List, [], ◌∷◌, ◌++◌, arith,
  length, Extends, string_eq,
}
use dexpi_datalog.Json.{Json, Fields}
use dexpi_datalog.Turn.Keys.{IsId}
use dexpi_datalog.Turn.Defs.{
  Status, active, paused, canceled, failed, completed, EventType, tool_progress, review_required,
  cancellation, failure, completion, Event, Turn, append, append_all,
}

-- The events carry the numbers n, n + 1, ….
abbrev pub IsNumbered : ℕ → List Event → Type 0
IsNumbered n [] = Unit
IsNumbered n (e ∷ es) = (e.sequence ≡ n) × IsNumbered (suc n) es

abbrev pub last_kind : List Event → Option EventType
last_kind [] = none
last_kind (e ∷ []) = some e.kind
last_kind (e ∷ f ∷ es) = last_kind (f ∷ es)

-- The kind of event that brings a turn into a status.
abbrev pub closing : Status → EventType
closing active = tool_progress
closing paused = review_required
closing canceled = cancellation
closing failed = failure
closing completed = completion

pub record IsTurn (t : Turn) : Type 0 where
  pub numbered : IsNumbered 0 t.events
  pub told : last_kind t.events ≡ some (closing t.status)
  pub named : IsId t.turn_id

-- `u` is a later state of `t`: the same request, with its events at the front.
pub record Continues (t u : Turn) : Type 0 where
  pub same_session : u.session_id ≡ t.session_id
  pub same_turn : u.turn_id ≡ t.turn_id
  pub same_request : u.request_id ≡ t.request_id
  pub same_question : u.question ≡ t.question
  pub events_kept : Extends t.events u.events

IsNumbered-snoc :
    (n : ℕ) (es : List Event) (e : Event)
    → IsNumbered n es
    → e.sequence ≡ n + length es
    → IsNumbered n (es ++ e ∷ [])
IsNumbered-snoc n [] e h p = (omega arith, tt)
IsNumbered-snoc n (x ∷ es) e h p = (h.0, IsNumbered-snoc (suc n) es e h.1 (omega arith))

last_kind-snoc : (es : List Event) (e : Event) → last_kind (es ++ e ∷ []) ≡ some e.kind
last_kind-snoc [] e = refl
last_kind-snoc (x ∷ []) e = refl
last_kind-snoc (x ∷ y ∷ es) e = last_kind-snoc (y ∷ es) e

pub append-IsNumbered :
    (t : Turn) (kind : EventType) (p : Json)
    → IsNumbered 0 t.events
    → IsNumbered 0 (append t kind p).events
unfolding append
append-IsNumbered t kind p h = IsNumbered-snoc 0 t.events _ h (omega arith)

-- An event of the kind that goes with the status makes a turn of its numbered events.
pub append-IsTurn :
    (t : Turn) (kind : EventType) (p : Json)
    → IsNumbered 0 t.events
    → IsId t.turn_id
    → kind ≡ closing t.status
    → IsTurn (append t kind p)
unfolding append
append-IsTurn t kind p h named e = record {
  named = named;
  numbered = IsNumbered-snoc 0 t.events _ h (omega arith);
  told = last_kind-snoc t.events _ ∙ ap some e;
}

pub Continues-refl : (t : Turn) → Continues t t
Continues-refl t = record {
  same_session = refl;
  same_turn = refl;
  same_request = refl;
  same_question = refl;
  events_kept = ([], sym (append-nil t.events));
}

pub Continues-trans : {t u v : Turn} → Continues t u → Continues u v → Continues t v
Continues-trans {t} {u} {v} h k = record {
  same_session = k.same_session ∙ h.same_session;
  same_turn = k.same_turn ∙ h.same_turn;
  same_request = k.same_request ∙ h.same_request;
  same_question = k.same_question ∙ h.same_question;
  events_kept = (
    h.events_kept.0 ++ k.events_kept.0,
    k.events_kept.1
        ∙ ap (λ es. es ++ k.events_kept.0) h.events_kept.1
        ∙ append_assoc t.events h.events_kept.0 k.events_kept.0,
  );
}

-- What an append under new status, result or steering keeps.
pub append-Continues : (t : Turn) (kind : EventType) (p : Json) → Continues t (append t kind p)
unfolding append
append-Continues t kind p = record {
  same_session = refl;
  same_turn = refl;
  same_request = refl;
  same_question = refl;
  events_kept = (_, refl);
}

append_all-IsNumbered :
    (t : Turn) (kind : EventType) (ps : List Json)
    → IsNumbered 0 t.events
    → IsNumbered 0 (append_all t kind ps).events
unfolding append_all
append_all-IsNumbered t kind [] h = h
append_all-IsNumbered t kind (p ∷ ps) h =
    append_all-IsNumbered (append t kind p) kind ps (append-IsNumbered t kind p h)

append_all-Continues :
    (t : Turn) (kind : EventType) (ps : List Json) → Continues t (append_all t kind ps)
unfolding append_all
append_all-Continues t kind [] = Continues-refl t
append_all-Continues t kind (p ∷ ps) =
    Continues-trans (append-Continues t kind p) (append_all-Continues (append t kind p) kind ps)

-- One or more events are added, and they are numbered on.
pub record Grows (t u : Turn) : Type 0 where
  pub continues : Continues t u
  pub numbered_on : IsNumbered 0 t.events → IsNumbered 0 u.events

pub Grows-refl : (t : Turn) → Grows t t
Grows-refl t = record { continues = Continues-refl t; numbered_on = λ h. h }

pub Grows-trans : {t u v : Turn} → Grows t u → Grows u v → Grows t v
Grows-trans g h = record {
  continues = Continues-trans g.continues h.continues;
  numbered_on = λ n. h.numbered_on (g.numbered_on n);
}

pub Grows-append : (t : Turn) (kind : EventType) (p : Json) → Grows t (append t kind p)
Grows-append t kind p = record {
  continues = append-Continues t kind p;
  numbered_on = append-IsNumbered t kind p;
}

pub Grows-append_all :
    (t : Turn) (kind : EventType) (ps : List Json) → Grows t (append_all t kind ps)
Grows-append_all t kind ps = record {
  continues = append_all-Continues t kind ps;
  numbered_on = append_all-IsNumbered t kind ps;
}

-- A change of status, result or steering moves no event.
pub Grows-relabel :
    (t : Turn) (st : Status) (r : Option Fields) (d : Option String)
    → Grows t (record t { status = st; result = r; steering = d })
Grows-relabel t st r d = record {
  continues = record {
    same_session = refl;
    same_turn = refl;
    same_request = refl;
    same_question = refl;
    events_kept = ([], sym (append-nil t.events));
  };
  numbered_on = λ h. h;
}
