-- ===== src/Turn/Defs.antt =====
-- web/turn_lifecycle.py: the record of a turn, and what the class uses from elsewhere.
use dexpi_datalog.Prelude.{ℕ, String, Bool, false, Option, List, [], ◌∷◌, ◌++◌, length, ◌≡◌, true}
use dexpi_datalog.Prelude.Text.{◌⊕◌, len, slice_to}
use dexpi_datalog.Json.{Json, Fields}
use dexpi_datalog.Store.{ArtifactStore}
use dexpi_datalog.Store.Key.Beside.{is_flat}
use dexpi_datalog.Trace.Envelope.{Texts}

pub data Status : Type 0 where
  active paused canceled failed completed : Status

pub data EventType : Type 0 where
  tool_progress execution_trace text evidence review_required cancellation failure completion :
      EventType

pub record Event : Type 0 where
  pub sequence : ℕ
  pub kind : EventType
  pub payload : Json

-- The JSON document of a turn; `schema_version` is always 1.
pub record Turn : Type 0 where
  pub session_id : String
  pub turn_id : String
  pub request_id : String
  pub question : String
  pub status : Status
  pub events : List Event
  pub result : Option Fields
  pub steering : Option String

-- What a store holds: the turns, and every other artifact.
pub data Document : Type 0 where
  turn : Turn → Document
  value : Json → Document

-- How `execute` ends: with a result, or by raising with a message.
pub data Attempt : Type 0 where
  returned : Fields → Attempt
  raised : String → Attempt

pub data Error : Type 0 where
  request_conflict invalid_key missing_status : Error

pub data Result (A : Type 0) : Type 0 where
  ok : A → Result A
  err : Error → Result A

-- `_append`
unfoldable pub append : Turn → EventType → Json → Turn
append t kind payload = record t {
  events = t.events ++ record { sequence = length t.events; kind = kind; payload = payload } ∷ [];
}

unfoldable pub append_all : Turn → EventType → List Json → Turn
unfolding append
append_all t kind [] = t
append_all t kind (p ∷ ps) = append_all (append t kind p) kind ps

-- `_key`
abbrev pub turn_key : String → String → String
turn_key session_id turn_id = session_id ⊕ ("/turns/" ⊕ (turn_id ⊕ ".json"))

abbrev pub is_active : Status → Bool
is_active active = true
is_active _ = false

abbrev pub is_canceled : Status → Bool
is_canceled canceled = true
is_canceled _ = false

abbrev pub is_paused : Status → Bool
is_paused paused = true
is_paused _ = false

-- What the class calls and does not define: the store, and functions on texts. A digest of
-- `hashlib.sha256` has 64 hex digits, of which the model uses the number and that none is a slash.
pub record Backend : Type 1 where
  pub store : ArtifactStore Document
  pub texts : Texts
  pub sha256_length : (s : String) → len (texts.sha256_hex s) ≡ 64
  pub sha256_flat : (s : String) → is_flat (texts.sha256_hex s) ≡ true

-- `compute_turn_id`
unfoldable pub compute_turn_id : (b : Backend) → String → String → String
unfolding slice_to
compute_turn_id b session_id request_id =
    slice_to 20 (b.texts.sha256_hex (session_id ⊕ ("\n" ⊕ request_id)))
