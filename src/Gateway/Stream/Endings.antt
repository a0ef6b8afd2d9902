-- ===== src/Gateway/Stream/Endings.antt =====
-- What is recorded of a streamed reply, by how the stream ended.
use mnemostroma.Prelude.{
  ℕ, ◌&&◌, Option, none, some, List, [], string_eq, ltb, if◌then◌else◌, length, concat,
}
use mnemostroma.Gateway.Outbox.{Status, Role, Row, enqueue}
use mnemostroma.Gateway.Stream.{GatewayRequest, Ending, Fresh, event_of, collect}

-- The status under which a reply with `n` collected characters is recorded, if it is.
abbrev pub recorded : GatewayRequest → Ending → ℕ → Option Status
recorded r Ending.raised n =
    if ltb 20 n && (r.observe_assistant && r.allow_partial_capture)
    then some Status.partial
    else none
recorded r Ending.finished n = if ltb 0 n && r.observe_assistant then some Status.complete else none
recorded r Ending.dispatch_error n =
    if ltb 0 n && r.observe_assistant then some Status.complete else none
recorded r Ending.cancelled n =
    if ltb 0 n && r.observe_assistant then some Status.complete else none

abbrev pub enqueue_as : GatewayRequest → List ℕ → Fresh → List Row → Option Status → List Row
enqueue_as r text f rows none = rows
enqueue_as r text f rows (some status) = enqueue (event_of r Role.assistant text status f) rows

-- The number of characters that are collected.
abbrev pub captured : ℕ → List (List ℕ) → ℕ
captured cap chunks = length (concat (collect cap [] 0 chunks))
