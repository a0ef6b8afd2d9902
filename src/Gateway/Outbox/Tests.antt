-- ===== src/Gateway/Outbox/Tests.antt =====
-- A concrete outbox with a limit of two attempts.
use mnemostroma.Prelude.{◌≡◌, refl, none, some, List, [], ◌∷◌, string_eq, arith}
use mnemostroma.Gateway.Outbox.{Status, Role, ObservationEvent, Row, new_row, enqueue, mark_retry}
use mnemostroma.Gateway.Outbox.Queue.{
  Reach, start, next, enqueued, retried_later, IsQueue, Reach-IsQueue,
}
use mnemostroma.Gateway.Outbox.Retries.{find}

abbrev event : ObservationEvent
event = record {
  event_id = "e1";
  request_id = "r1";
  conversation_id = "c";
  client_id = "k";
  project_id = none;
  role = Role.user;
  text = 104 ∷ 105 ∷ [];
  status = Status.complete;
  provider_id = "p";
  model = "gpt-4o";
  created_at = 50;
  dedupe_key = ("r1", Role.user);
}

abbrev reply : ObservationEvent
reply = record event { event_id = "e2"; role = Role.assistant; dedupe_key = ("r1", Role.assistant) }

abbrev queue : List Row
queue = enqueue reply (enqueue event [])

queue-Reach : Reach 2 queue
queue-Reach = next (next start (enqueued event)) (enqueued reply)

Reach-IsQueue_example : IsQueue 2 (mark_retry 2 "e1" "timeout" 90 queue)
Reach-IsQueue_example =
    Reach-IsQueue 2 (omega arith) (next queue-Reach (retried_later "e1" "timeout" 90))

-- The second event of the user for the same request is not taken on.
taken_once : enqueue (record event { event_id = "e3" }) queue ≡ queue
unfolding enqueue
taken_once = refl

there : find "e1" queue ≡ some (new_row event)
unfolding enqueue
there = refl
