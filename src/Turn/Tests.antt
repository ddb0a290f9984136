-- ===== src/Turn/Tests.antt =====
-- The turn lifecycle on a concrete store, and instances of its theorems.
use mathlib.Core.Option
use dexpi_datalog.Prelude.{
  ℕ, zero, suc, String, ◌≡◌, refl, Option, some, [], inl, inr, Bool-cases, not, arith, true, ◌==◌,
  string_eq, if◌then◌else◌,
}
use dexpi_datalog.Json
use dexpi_datalog.Json.{Json, Fields, null, str, arr, obj, Items, nil, cons, end, field, single}
use dexpi_datalog.Prelude.Text.{len}
use dexpi_datalog.Store.Key.Beside.{is_flat}
use dexpi_datalog.Turn.Keys.{compute_turn_id-IsId}
use dexpi_datalog.Turn.Rendered.{HasFewEvents}
use dexpi_datalog.Store.Local.{Files, local_store, read, write, read-nil}
use dexpi_datalog.Turn.Defs.{
  Turn, Document, canceled, paused, completed, Status, cancellation, Attempt, returned, ok, err,
  request_conflict, Backend, turn_key, compute_turn_id, append, append_all,
}
use dexpi_datalog.Turn.Invariant.{Continues}
use dexpi_datalog.Turn.Outcome.{append_result_events, close, trace_of}
use dexpi_datalog.Turn.Lifecycle.{
  get, begin, start, resume, cancel, steering_directive, stop, new_turn, finish,
}
use dexpi_datalog.Turn.Sound.{IsSound, Holds}
use dexpi_datalog.Turn.Sections.{IsSafe, begin-IsSafe, IsSafe-refl}
use dexpi_datalog.Turn.Steps.{
  Reach, here, next, begins, cancels, finishes, Reach-IsSafe, start-IsSafe, resume-IsSafe,
}
use dexpi_datalog.Turn.Final.Canceled.{canceled_is_final}
use dexpi_datalog.Turn.Again.{start_again, cancel-stops}
use dexpi_datalog.Turn.Beyond.{RaisesIn, finish_beyond}
use dexpi_datalog.Turn.Settled.{IsSettled, start_settles}

abbrev text_of : Json → String
text_of (str s) = s
text_of _ = ""

-- A digest of 64 digits, one for the request of the tests and another for everything else.
abbrev digest : String → String
digest s =
    if s == "s\nr"
    then "0123456789abcdef0123456789abcdef0123456789abcdef0123456789abcdef"
    else "fedcba9876543210fedcba9876543210fedcba9876543210fedcba9876543210"

digest_length : (s : String) → len (digest s) ≡ 64
digest_length s = elim (Bool-cases (s == "s\nr")) [ inl y ↦ rw y | inr n ↦ rw n ]

digest_flat : (s : String) → is_flat (digest s) ≡ true
unfolding is_flat
digest_flat s = elim (Bool-cases (s == "s\nr")) [ inl y ↦ rw y | inr n ↦ rw n ]

-- A local store; letters stay as they are, and a text is safe or a kind where it is not empty.
abbrev backend : Backend
backend = record {
  store = local_store Document;
  texts = record {
    lower = λ s. s;
    to_str = text_of;
    sha256_hex = digest;
    matches_kind = λ s. not (s == "");
    matches_safe = λ s. not (s == "");
    substitute_kind = λ s. s;
  };
  sha256_length = digest_length;
  sha256_flat = digest_flat;
}

abbrev workspace : Files Document
workspace = []

workspace-IsSound : IsSound backend workspace
workspace-IsSound = record {
  is_turn = λ k t p. cc (read-nil {D = Document} k);
  keyed = λ k t p. cc (read-nil {D = Document} k);
}

abbrev begun : Files Document
begun = (begin backend workspace "s" "r" "Which pumps?").0

begun-IsSafe : IsSafe backend workspace begun
begun-IsSafe = begin-IsSafe backend workspace "s" "r" "Which pumps?" workspace-IsSound

abbrev turn_id : String
turn_id = "0123456789abcdef0123"

abbrev stopped : Files Document
stopped = (cancel backend begun "s" turn_id).0

begun_then_stopped : Reach backend workspace stopped
begun_then_stopped =
    next (next here (begins "s" "r" "Which pumps?" refl)) (cancels "s" turn_id refl)

Reach-IsSafe_example : IsSafe backend workspace stopped
Reach-IsSafe_example = Reach-IsSafe backend workspace-IsSound begun_then_stopped

-- An answered question, with one event of its run, completes its turn.
abbrev answered : Attempt
answered = returned (
    field "answer_text" (str "Two.") (
      field "trace_events" (arr (cons (obj (field "event" (str "template_executed") end)) nil))
        end))

abbrev answer : Files Document → Files Document × Attempt
answer s = (s, answered)

start-IsSafe_example :
    IsSafe backend workspace (start backend workspace "s" "r" "Which pumps?" answer).0
start-IsSafe_example =
    start-IsSafe backend workspace "s" "r" "Which pumps?" answer workspace-IsSound
      (λ w v. IsSafe-refl backend v)

start_again_example :
    (t' : Turn) × Continues (new_turn backend "s" "r" "Which pumps?") t'
    × ((question' : String) (execute : Files Document → Files Document × Attempt)
        → start backend stopped "s" "r" question' execute
          ≡ (stopped, if "Which pumps?" == question' then ok t' else err request_conflict))
unfolding begin compute_turn_id read write
start_again_example =
    start_again backend workspace begun stopped "s" "r" "Which pumps?"
      (new_turn backend "s" "r" "Which pumps?") workspace-IsSound refl
      (next here (cancels "s" turn_id refl))

cancel-stops_example : steering_directive backend stopped "s" turn_id ≡ some stop
unfolding begin get compute_turn_id read write
cancel-stops_example =
    cancel-stops backend begun stopped "s" turn_id (new_turn backend "s" "r" "Which pumps?")
      begun-IsSafe.sound refl refl here

-- A question whose flow direction wants a review pauses its turn.
abbrev review : Files Document → Files Document × Attempt
review s = (s, returned (field "status" (str "needs_direction_review") end))

abbrev waiting : Files Document
waiting = (start backend workspace "s" "r" "Which pumps?" review).0

waiting-IsSafe : IsSafe backend workspace waiting
waiting-IsSafe =
    start-IsSafe backend workspace "s" "r" "Which pumps?" review workspace-IsSound
      (λ w v. IsSafe-refl backend v)

resume-IsSafe_example : IsSafe backend waiting (resume backend waiting "s" turn_id answer).0
resume-IsSafe_example =
    resume-IsSafe backend waiting "s" turn_id answer waiting-IsSafe.sound
      (λ w v. IsSafe-refl backend v)

abbrev resumed_status : Files Document → Option Status
resumed_status s = Option.map (λ (t : Turn). t.status) (get backend s "s" turn_id)

resume_runs :
    (resumed_status waiting ≡ some paused)
    × (resumed_status (resume backend waiting "s" turn_id answer).0 ≡ some completed)
unfolding start resume get compute_turn_id read write append_result_events append_all close
    Json.get_or trace_of
resume_runs = (refl, refl)

abbrev canceled_record : Turn
canceled_record =
    append (record (new_turn backend "s" "r" "Which pumps?") { status = canceled }) cancellation
      (single "message" (str "The turn was canceled by the user."))

-- The run that was interrupted comes back with its answer.
abbrev late : Files Document
late = (finish backend stopped "s" turn_id (new_turn backend "s" "r" "Which pumps?") answered).0

canceled_is_final_example : Holds backend late (turn_key "s" turn_id) canceled_record
unfolding begin cancel compute_turn_id read write append
canceled_is_final_example =
    canceled_is_final backend (turn_key "s" turn_id) canceled_record Reach-IsSafe_example.sound
      (next here (
        finishes "s" turn_id (new_turn backend "s" "r" "Which pumps?") answered
          (record {
            numbered = (refl, tt);
            named = compute_turn_id-IsId backend "s" "r";
            place = refl;
          })
          refl))
      refl refl

few : HasFewEvents answered
unfolding Json.get
few = omega arith

start_settles_example : IsSettled backend (start backend workspace "s" "r" "Which pumps?" answer)
unfolding get compute_turn_id read
start_settles_example =
    start_settles backend workspace "s" "r" "Which pumps?" answer workspace-IsSound
      (λ w v. IsSafe-refl backend v) (λ w. few) refl refl

-- As many events as there are steps in the number.
repeated : ℕ → Items
repeated zero = nil
repeated (suc n) = cons (obj end) (repeated n)

abbrev long : Fields
long = field "trace_events" (arr (repeated 65)) end

finish_beyond_example :
    (u : Files Document) × RaisesIn backend u
      (finish backend begun "s" turn_id (new_turn backend "s" "r" "Which pumps?") (returned long))
    × (get backend u "s" turn_id ≡ some (new_turn backend "s" "r" "Which pumps?"))
unfolding begin get compute_turn_id read write Json.get repeated
finish_beyond_example =
    finish_beyond backend begun "s" turn_id (new_turn backend "s" "r" "Which pumps?")
      (new_turn backend "s" "r" "Which pumps?") long (repeated 65) begun-IsSafe.sound refl refl refl
      (omega arith)
