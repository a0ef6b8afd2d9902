-- ===== src/Gateway/RequestPolicy/Complete.antt =====
-- Completeness of the request policy: every request within the limits is accepted as it is.
use mnemostroma.Prelude.{
  ℕ, suc, ◌+◌, ◌≤◌, ◌<◌, String, ◌≡◌, refl, false, List, [], ◌∷◌, arith, string_eq, length, All,
}
use mnemostroma.Prelude.Result.{ok, err}
use mnemostroma.Gateway.Json.{Json, Items, nil, cons, Fields, end, field, is_hashable}
use mnemostroma.Gateway.Contracts.{ChatMessage, ChatRequest}
use mnemostroma.Gateway.RequestPolicy.{
  max_messages, max_model_length, ParseError, unhashable_role, Tally, no_messages, add_message,
  check_model, check_role, check_content, check_message, check_messages, items_length, check_list,
  check_totals, check_stream, validate_chat_request,
}
use mnemostroma.Gateway.RequestPolicy.Limits.{
  IsText, IsMessage, IsWithinLimits, count_role, content_length, add_message_lem,
}

-- The body of a client that sends `r`.
abbrev pub message_object : ChatMessage → Json
message_object m =
    Json.obj (field "role" (Json.str m.role) (field "content" (Json.str m.content) end))

abbrev pub message_items : List ChatMessage → Items
message_items [] = nil
message_items (m ∷ ms) = cons (message_object m) (message_items ms)

abbrev pub to_body : ChatRequest → Fields
to_body r = field "model" (Json.str r.model) (
    field "messages" (Json.arr (message_items r.messages))
      (field "stream" (Json.bool r.stream) end))

check_message-object :
    (i : ℕ) (m : ChatMessage) → IsMessage m → check_message i (message_object m) ≡ ok m
unfolding check_message check_role check_content
check_message-object i m h = ground arith

add_all : List ChatMessage → Tally → Tally
add_all [] t = t
add_all (m ∷ ms) t = add_all ms (add_message m t)

check_messages-items :
    (i : ℕ) (ms : List ChatMessage) (t : Tally)
    → All IsMessage ms
    → check_messages i (message_items ms) t ≡ ok (ms, add_all ms t)
unfolding check_messages add_all
check_messages-items i [] t h = refl
check_messages-items i (m ∷ ms) t h =
    ground
      (arith, check_message-object i m h.0, check_messages-items (i + 1) ms (add_message m t) h.1)

add_all_lem :
    (ms : List ChatMessage) (t : Tally)
    → ((add_all ms t).system_count ≡ t.system_count + count_role "system" ms)
      × ((add_all ms t).user_count ≡ t.user_count + count_role "user" ms)
      × ((add_all ms t).assistant_count ≡ t.assistant_count + count_role "assistant" ms)
      × ((add_all ms t).total_content ≡ t.total_content + content_length ms)
unfolding add_all
add_all_lem [] t = ground arith
add_all_lem (m ∷ ms) t = ground (arith, add_message_lem m t, add_all_lem ms (add_message m t))

items_length-items : (ms : List ChatMessage) → items_length (message_items ms) ≡ length ms
unfolding items_length
items_length-items [] = refl
items_length-items (m ∷ ms) = omega (arith, items_length-items ms)

check_list-items :
    (ms : List ChatMessage)
    → 1 ≤ length ms
    → length ms ≤ max_messages
    → check_list (Json.arr (message_items ms)) ≡ ok (message_items ms)
unfolding check_list
check_list-items [] h k = absurd (omega arith)
check_list-items (m ∷ ms) h k = ground (arith, items_length-items (m ∷ ms))

-- A request within the limits is accepted, and comes back unchanged.
pub validate-to_body :
    (r : ChatRequest) → IsWithinLimits r → validate_chat_request (to_body r) ≡ ok r
unfolding validate_chat_request check_model check_totals check_stream
validate-to_body r h = ground (
  arith,
  check_list-items r.messages,
  check_messages-items 0 r.messages no_messages,
  add_all_lem r.messages no_messages,
)

-- The messages `ms`, and one more value.
abbrev pub items_then : List ChatMessage → Json → Items
items_then [] j = cons j nil
items_then (m ∷ ms) j = cons (message_object m) (items_then ms j)

items_length-then :
    (ms : List ChatMessage) (j : Json) → items_length (items_then ms j) ≡ length ms + 1
unfolding items_length
items_length-then [] j = omega arith
items_length-then (m ∷ ms) j = omega (arith, items_length-then ms j)

check_list-then :
    (ms : List ChatMessage) (j : Json)
    → length ms < max_messages
    → check_list (Json.arr (items_then ms j)) ≡ ok (items_then ms j)
unfolding check_list
check_list-then [] j k = ground (arith, items_length-then [] j)
check_list-then (m ∷ ms) j k = ground (arith, items_length-then (m ∷ ms) j)

check_message-unhashable :
    (i : ℕ) (role content : Json)
    → is_hashable role ≡ false
    → check_message i (Json.obj (field "role" role (field "content" content end)))
      ≡ err (unhashable_role i)
unfolding check_message check_role
check_message-unhashable i (Json.arr vs) content h = ground arith
check_message-unhashable i (Json.obj fs) content h = ground arith
check_message-unhashable i _ content h = cc

check_messages-then :
    (i : ℕ) (ms : List ChatMessage) (j : Json) (e : ℕ → ParseError) (t : Tally)
    → All IsMessage ms
    → check_message (i + length ms) j ≡ err (e (i + length ms))
    → check_messages i (items_then ms j) t ≡ err (e (i + length ms))
unfolding check_messages
check_messages-then i [] j e t h f = let same : i + 0 ≡ i = omega arith in ground arith
check_messages-then i (m ∷ ms) j e t h f =
    let same : i + 1 + length ms ≡ i + suc (length ms) = omega arith in
    ground (
      arith,
      check_message-object i m h.0,
      check_messages-then (i + 1) ms j e (add_message m t) h.1,
    )

-- A role that is a list or an object, on a message with no other field than `role` and `content`
-- that follows acceptable ones, leaves the policy by a TypeError, and by none of its own errors.
pub unhashable_role_raises :
    (model : String) (ms : List ChatMessage) (role content : Json) (rest : Fields)
    → IsText max_model_length model
    → All IsMessage ms
    → length ms < max_messages
    → is_hashable role ≡ false
    → validate_chat_request (
        field "model" (Json.str model) (
          field "messages"
            (Json.arr (items_then ms (Json.obj (field "role" role (field "content" content end)))))
            rest))
      ≡ err (unhashable_role (length ms))
unfolding validate_chat_request check_model
unhashable_role_raises model ms role content rest hm h hl hr =
    let j = Json.obj (field "role" role (field "content" content end)) in
    let same : 0 + length ms ≡ length ms = omega arith in
    ground (
      arith,
      same,
      check_list-then ms j,
      check_message-unhashable (length ms) role content hr,
      check_messages-then 0 ms j unhashable_role no_messages h,
    )
