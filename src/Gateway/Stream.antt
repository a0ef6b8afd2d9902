-- ===== src/Gateway/Stream.antt =====
-- gateway/openai_facade.py (`_stream_response`) and gateway/observer_bridge.py: a streamed reply, the
-- turn that is recorded for the observer, and the audit of the request. What the upstream sends,
-- and how the stream ends, is an argument. A text is its code points.
pub mod Endings
mod Tests
use mnemostroma.Prelude.{
  ℕ, ◌+◌, String, Bool, true, false, not, ◌&&◌, Option, none, some, is_some, List, [], ◌∷◌, ◌++◌,
  string_eq, ltb, if◌then◌else◌, length, concat, take,
}
use mnemostroma.Prelude.Dict.{Dict, put}
use mnemostroma.Gateway.Outbox.{Status, Role, ObservationEvent, Row, enqueue}

-- The parts of a `GatewayRequest` that the stream and the bridge read.
pub record GatewayRequest : Type 0 where
  pub request_id : String
  pub conversation_id : String
  pub client_id : String
  pub project_id : Option String
  pub provider_id : String
  pub model : String
  pub observe_user : Bool
  pub observe_assistant : Bool
  pub allow_partial_capture : Bool

-- How the iteration over the upstream ends: at its end, by an UpstreamDispatchError, by another
-- `Exception`, or by a cancellation or a closed generator, which are no `Exception`.
pub data Ending : Type 0 where
  finished dispatch_error raised cancelled : Ending

-- The row of `gateway_request_audit`, without the columns that are constant.
pub record Audit : Type 0 where
  pub conv_hash : String
  pub client_id : String
  pub provider_id : String
  pub model : String
  pub memory_injected : Bool
  pub status : Status
  pub created_at : ℕ
  pub completed_at : ℕ

-- The two tables.
pub record Tables : Type 0 where
  pub outbox : List Row
  pub audit : Dict String Audit

-- The identifiers and times that are made on the way, and the hash of the conversation id.
pub record Fresh : Type 0 where
  pub event_id : String
  pub now : ℕ
  pub sha256 : String → String

pub event_of : GatewayRequest → Role → List ℕ → Status → Fresh → ObservationEvent
event_of r role text status f = record {
  event_id = f.event_id;
  request_id = r.request_id;
  conversation_id = r.conversation_id;
  client_id = r.client_id;
  project_id = r.project_id;
  role = role;
  text = text;
  status = status;
  provider_id = r.provider_id;
  model = r.model;
  created_at = f.now;
  dedupe_key = (r.request_id, role);
}

pub record_user_received : GatewayRequest → List ℕ → Fresh → List Row → List Row
unfolding event_of
record_user_received r text f rows =
    if not r.observe_user then rows else enqueue (event_of r Role.user text Status.complete f) rows

-- The statuses that the bridge takes on, by the policy of the request.
takes_on : GatewayRequest → Status → Bool
takes_on r Status.complete = r.observe_assistant
takes_on r Status.cancelled = r.observe_assistant
takes_on r Status.failed = false
takes_on r Status.partial = r.observe_assistant && r.allow_partial_capture

pub record_assistant_finalized : GatewayRequest → List ℕ → Status → Fresh → List Row → List Row
unfolding event_of takes_on
record_assistant_finalized r text status f rows =
    if takes_on r status then enqueue (event_of r Role.assistant text status f) rows else rows

-- The row that `record_audit` writes, with no completion time given.
abbrev pub audit_of : GatewayRequest → Bool → Status → ℕ → Fresh → Audit
audit_of r memory_injected status created_at f = record {
  conv_hash = f.sha256 r.conversation_id;
  client_id = r.client_id;
  provider_id = r.provider_id;
  model = r.model;
  memory_injected = memory_injected;
  status = status;
  created_at = created_at;
  completed_at = f.now;
}

-- `INSERT OR REPLACE`
pub record_audit : GatewayRequest → Bool → Status → ℕ → Fresh → Tables → Tables
record_audit r memory_injected status created_at f t = record t {
  audit = put t.audit r.request_id (audit_of r memory_injected status created_at f);
}

-- The loop over the chunks, each by its text: a text that is empty is not collected, and none is
-- once the collected texts have reached the limit.
pub collect : ℕ → List (List ℕ) → ℕ → List (List ℕ) → List (List ℕ)
collect cap collected collected_len [] = collected
collect cap collected collected_len ([] ∷ chunks) = collect cap collected collected_len chunks
collect cap collected collected_len ((c ∷ text) ∷ chunks) =
    if ltb collected_len cap
    then collect cap (collected ++ (c ∷ text) ∷ []) (collected_len + length (c ∷ text)) chunks
    else collect cap collected collected_len chunks

-- `status` after the loop: only `except Exception` sets it to "cancelled".
pub status_after : Ending → Status
status_after Ending.finished = Status.complete
status_after Ending.dispatch_error = Status.complete
status_after Ending.raised = Status.cancelled
status_after Ending.cancelled = Status.complete

-- The status of the audit row, which a dispatch error writes before the `finally` part.
pub audit_status : Ending → Status
audit_status Ending.finished = Status.complete
audit_status Ending.dispatch_error = Status.failed
audit_status Ending.raised = Status.cancelled
audit_status Ending.cancelled = Status.complete

observe_collected : Status → GatewayRequest → ℕ → List (List ℕ) → Fresh → List Row → List Row
unfolding record_assistant_finalized
observe_collected status r cap [] f rows = rows
observe_collected Status.cancelled r cap (text ∷ texts) f rows =
    if ltb 20 (length (concat (text ∷ texts)))
    then record_assistant_finalized r (take cap (concat (text ∷ texts))) Status.partial f rows
    else rows
observe_collected Status.complete r cap (text ∷ texts) f rows =
    record_assistant_finalized r (take cap (concat (text ∷ texts))) Status.complete f rows
observe_collected Status.partial r cap (text ∷ texts) f rows =
    record_assistant_finalized r (take cap (concat (text ∷ texts))) Status.complete f rows
observe_collected Status.failed r cap (text ∷ texts) f rows =
    record_assistant_finalized r (take cap (concat (text ∷ texts))) Status.complete f rows

-- `_stream_response`: what it leaves in the tables.
pub stream_response :
    GatewayRequest → Bool → ℕ → ℕ → List (List ℕ) → Ending → Fresh → Tables → Tables
unfolding record_audit collect status_after audit_status observe_collected
stream_response r memory_injected start_time cap chunks ending f t =
    let t' = record_audit r memory_injected (audit_status ending) start_time f t in
    record t' {
      outbox = observe_collected (status_after ending) r cap (collect cap [] 0 chunks) f t'.outbox;
    }
