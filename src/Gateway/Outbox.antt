-- ===== src/Gateway/Outbox.antt =====
-- gateway/outbox.py and gateway/observer_bridge.py: the events that wait for the observer. The table
-- `gateway_observer_outbox` is the list of its rows, in the order of their insertion; a statement
-- is one step, and the database does not fail. A text is its code points. The clock is in seconds.
pub mod Queue
pub mod Retries
mod Tests
use mnemostroma.Prelude.{
  ℕ, ◌+◌, ◌*◌, String, Bool, true, false, not, ◌&&◌, ◌||◌, Option, none, some, List, [], ◌∷◌, ◌++◌,
  map, ◌==◌, string_eq, leb, ltb, if◌then◌else◌, length, any, select, take,
}
use mnemostroma.Prelude.Sort.{sort}

-- `ObservationStatus`
pub data Status : Type 0 where
  complete partial cancelled failed : Status

pub data Role : Type 0 where
  user assistant : Role

pub record ObservationEvent : Type 0 where
  pub event_id : String
  pub request_id : String
  pub conversation_id : String
  pub client_id : String
  pub project_id : Option String
  pub role : Role
  pub text : List ℕ
  pub status : Status
  pub provider_id : String
  pub model : String
  pub created_at : ℕ
  pub dedupe_key : String × Role

pub data RowState : Type 0 where
  pending processing delivered dead_letter : RowState

-- A row. Its `payload_json` is the text of the event, from which the event is read back.
pub record Row : Type 0 where
  pub event_id : String
  pub dedupe_key : String × Role
  pub payload : ObservationEvent
  pub state : RowState
  pub attempts : ℕ
  pub next_attempt_at : ℕ
  pub last_error_code : Option String
  pub created_at : ℕ
  pub delivered_at : Option ℕ

abbrev same_role : Role → Role → Bool
same_role Role.user Role.user = true
same_role Role.user Role.assistant = false
same_role Role.assistant Role.user = false
same_role Role.assistant Role.assistant = true

-- The dedupe key is the text `{request_id}:{role}`, which two pairs share only if they are equal.
abbrev pub same_key : String × Role → String × Role → Bool
same_key (r, x) (s, y) = r == s && same_role x y

-- One of the two uniqueness constraints that an insertion of `event` would break.
abbrev pub clashes : ObservationEvent → Row → Bool
clashes event row = (row.event_id == event.event_id) || same_key row.dedupe_key event.dedupe_key

abbrev pub new_row : ObservationEvent → Row
new_row event = record {
  event_id = event.event_id;
  dedupe_key = event.dedupe_key;
  payload = event;
  state = RowState.pending;
  attempts = 0;
  next_attempt_at = event.created_at;
  last_error_code = none;
  created_at = event.created_at;
  delivered_at = none;
}

-- The insertion that breaks a constraint is rolled back.
unfoldable pub enqueue : ObservationEvent → List Row → List Row
enqueue event rows = if any (clashes event) rows then rows else rows ++ new_row event ∷ []

pub is_pending : RowState → Bool
is_pending RowState.pending = true
is_pending RowState.processing = false
is_pending RowState.delivered = false
is_pending RowState.dead_letter = false

pub is_ready : ℕ → Row → Bool
unfolding is_pending
is_ready now row = is_pending row.state && leb row.next_attempt_at now

pub fetch_ready_batch : ℕ → ℕ → List Row → List Row
unfolding is_ready
fetch_ready_batch batch_size now rows =
    take batch_size (sort (λ row. row.next_attempt_at) (select (is_ready now) rows))

-- `UPDATE … WHERE event_id = ?`
abbrev pub update : (Row → Row) → String → List Row → List Row
update f event_id [] = []
update f event_id (row ∷ rows) =
    let rest = update f event_id rows in (if row.event_id == event_id then f row else row) ∷ rest

pub mark_delivered : ℕ → String → List Row → List Row
mark_delivered now event_id rows =
    update (λ row. record row { state = RowState.delivered; delivered_at = some now }) event_id rows

-- `SELECT attempts … WHERE event_id = ?`, and 0 without a row
pub attempts_of : String → List Row → ℕ
attempts_of event_id [] = 0
attempts_of event_id (row ∷ rows) =
    let rest = attempts_of event_id rows in if row.event_id == event_id then row.attempts else rest

-- `at` is the time with the backoff added.
pub retried : ℕ → ℕ → String → ℕ → Row → Row
retried max_attempts attempts error_code at row = record row {
  state = if leb max_attempts attempts then RowState.dead_letter else RowState.pending;
  attempts = attempts;
  next_attempt_at = at;
  last_error_code = some error_code;
}

pub mark_retry : ℕ → String → String → ℕ → List Row → List Row
unfolding attempts_of retried
mark_retry max_attempts event_id error_code at rows =
    update (retried max_attempts (attempts_of event_id rows + 1) error_code at) event_id rows

is_delivered : RowState → Bool
is_delivered RowState.pending = false
is_delivered RowState.processing = false
is_delivered RowState.delivered = true
is_delivered RowState.dead_letter = false

-- `delivered_at < cutoff`, which is not true of a null
pub before : ℕ → ℕ → Option ℕ → Bool
before now retention_hours none = false
before now retention_hours (some at) = ltb (at + retention_hours * 3600) now

pub is_expired : ℕ → ℕ → Row → Bool
unfolding is_delivered before
is_expired now retention_hours row =
    is_delivered row.state && before now retention_hours row.delivered_at

-- The number of the rows that are deleted, and those that stay.
pub cleanup_delivered : ℕ → ℕ → List Row → ℕ × List Row
unfolding is_expired
cleanup_delivered now retention_hours rows = (
  length (select (is_expired now retention_hours) rows),
  select (λ row. not (is_expired now retention_hours row)) rows,
)
