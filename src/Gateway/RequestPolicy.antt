-- ===== src/Gateway/RequestPolicy.antt =====
-- gateway/request_policy.py: what a chat completion request must be to be accepted. Each error
-- stands for one `raise GatewayParseError(...)`, with the index of its message; `unhashable_role` is
-- the TypeError of `role not in _ALLOWED_ROLES` on a role that is a list or an object.
mod Tests
pub mod Limits
pub mod Complete
use mnemostroma.Prelude.{
  ℕ, ◌+◌, String, Bool, true, false, not, ◌||◌, Option, none, some, List, [], ◌∷◌, ◌++◌, ◌==◌,
  string_eq, ltb, if◌then◌else◌, length, contains, any,
}
use mnemostroma.Prelude.Result.{Result, ok, err, raise_if, ◌>>=◌, ◌>>◌}
use mnemostroma.Prelude.Text.{is_blank, has_nul, len}
use mnemostroma.Gateway.Json.{
  Json, Items, nil, cons, Fields, get_field, get_or_null, keys_within, is_hashable,
}
use mnemostroma.Gateway.Contracts.{ChatMessage, ChatRequest}

abbrev pub max_messages : ℕ
max_messages = 64

abbrev pub max_model_length : ℕ
max_model_length = 256

abbrev pub max_message_content : ℕ
max_message_content = 32768

abbrev pub max_total_content : ℕ
max_total_content = 131072

abbrev pub max_system_messages : ℕ
max_system_messages = 8

abbrev pub max_user_messages : ℕ
max_user_messages = 32

abbrev pub max_assistant_messages : ℕ
max_assistant_messages = 32

abbrev pub raw_body_max : ℕ
raw_body_max = 1048576

pub data ParseError : Type 0 where
  model_required model_nul model_too_long : ParseError
  messages_required too_many_messages : ParseError
  not_object unknown_fields bad_role unhashable_role : ℕ → ParseError
  content_not_string content_blank content_nul content_too_long : ℕ → ParseError
  too_many_system too_many_user too_many_assistant total_too_long : ParseError
  user_required stream_not_bool stream_unsupported : ParseError
  body_too_large : ParseError

abbrev allowed_roles : List String
allowed_roles = "system" ∷ "user" ∷ "assistant" ∷ []

-- `read_bounded_body` over the chunks of the request, each given by its bytes
unfoldable pub read_bounded_body : ℕ → ℕ → List ℕ → List (List ℕ) → Result ParseError (List ℕ)
read_bounded_body max_bytes total joined [] = ok joined
read_bounded_body max_bytes total joined (chunk ∷ rest) =
    let total' = total + length chunk in
    let more = read_bounded_body max_bytes total' (joined ++ chunk) rest in
    if ltb max_bytes total' then err body_too_large else more

-- The checks on `model`.
check_model : Json → Result ParseError String
check_model (Json.str model) = do
  raise_if (is_blank model) model_required
  raise_if (has_nul model) model_nul
  raise_if (ltb max_model_length (len model)) model_too_long
  ok model
check_model Json.null = err model_required
check_model (Json.bool _) = err model_required
check_model (Json.int _) = err model_required
check_model (Json.neg_int _) = err model_required
check_model (Json.float _) = err model_required
check_model (Json.arr _) = err model_required
check_model (Json.obj _) = err model_required

-- `role not in _ALLOWED_ROLES`
check_role : ℕ → Json → Result ParseError String
check_role i (Json.str role) = if contains role allowed_roles then ok role else err (bad_role i)
check_role i (Json.arr _) = err (unhashable_role i)
check_role i (Json.obj _) = err (unhashable_role i)
check_role i Json.null = err (bad_role i)
check_role i (Json.bool _) = err (bad_role i)
check_role i (Json.int _) = err (bad_role i)
check_role i (Json.neg_int _) = err (bad_role i)
check_role i (Json.float _) = err (bad_role i)

check_content : ℕ → Json → Result ParseError String
check_content i (Json.str content) = do
  raise_if (is_blank content) (content_blank i)
  raise_if (has_nul content) (content_nul i)
  raise_if (ltb max_message_content (len content)) (content_too_long i)
  ok content
check_content i Json.null = err (content_not_string i)
check_content i (Json.bool _) = err (content_not_string i)
check_content i (Json.int _) = err (content_not_string i)
check_content i (Json.neg_int _) = err (content_not_string i)
check_content i (Json.float _) = err (content_not_string i)
check_content i (Json.arr _) = err (content_not_string i)
check_content i (Json.obj _) = err (content_not_string i)

-- One message of the loop.
check_fields : ℕ → Fields → Result ParseError ChatMessage
unfolding check_role check_content
check_fields i fs = do
  raise_if (not (keys_within ("role" ∷ "content" ∷ []) fs)) (unknown_fields i)
  role ← check_role i (get_or_null "role" fs)
  content ← check_content i (get_or_null "content" fs)
  ok (record { role = role; content = content })

check_message : ℕ → Json → Result ParseError ChatMessage
unfolding check_fields
check_message i (Json.obj fs) = check_fields i fs
check_message i Json.null = err (not_object i)
check_message i (Json.bool _) = err (not_object i)
check_message i (Json.int _) = err (not_object i)
check_message i (Json.neg_int _) = err (not_object i)
check_message i (Json.float _) = err (not_object i)
check_message i (Json.str _) = err (not_object i)
check_message i (Json.arr _) = err (not_object i)

-- The loop's variables.
pub record Tally : Type 0 where
  pub system_count : ℕ
  pub user_count : ℕ
  pub assistant_count : ℕ
  pub total_content : ℕ

abbrev pub no_messages : Tally
no_messages = record { system_count = 0; user_count = 0; assistant_count = 0; total_content = 0 }

unfoldable pub add_message : ChatMessage → Tally → Tally
add_message m t = record {
  system_count = if m.role == "system" then t.system_count + 1 else t.system_count;
  user_count =
      if m.role == "system"
      then t.user_count
      else if m.role == "user"
      then t.user_count + 1
      else t.user_count;
  assistant_count =
      if m.role == "system"
      then t.assistant_count
      else if m.role == "user"
      then t.assistant_count
      else if m.role == "assistant"
      then t.assistant_count + 1
      else t.assistant_count;
  total_content = t.total_content + len m.content;
}

unfoldable pub check_messages : ℕ → Items → Tally → Result ParseError (List ChatMessage × Tally)
unfolding check_message add_message
check_messages i nil t = ok ([], t)
check_messages i (cons msg rest) t = do
  m ← check_message i msg
  (parsed, t') ← check_messages (i + 1) rest (add_message m t)
  ok (m ∷ parsed, t')

items_length : Items → ℕ
items_length nil = 0
items_length (cons _ rest) = items_length rest + 1

-- `isinstance(raw_messages, list)` and the bounds on it
check_list : Json → Result ParseError Items
unfolding items_length
check_list (Json.arr nil) = err messages_required
check_list (Json.arr (cons m rest)) = do
  raise_if (ltb max_messages (items_length (cons m rest))) too_many_messages
  ok (cons m rest)
check_list Json.null = err messages_required
check_list (Json.bool _) = err messages_required
check_list (Json.int _) = err messages_required
check_list (Json.neg_int _) = err messages_required
check_list (Json.float _) = err messages_required
check_list (Json.str _) = err messages_required
check_list (Json.obj _) = err messages_required

abbrev pub is_user : ChatMessage → Bool
is_user m = m.role == "user"

check_totals : Tally → List ChatMessage → Result ParseError (Unit {0})
check_totals t parsed = do
  raise_if (ltb max_system_messages t.system_count) too_many_system
  raise_if (ltb max_user_messages t.user_count) too_many_user
  raise_if (ltb max_assistant_messages t.assistant_count) too_many_assistant
  raise_if (ltb max_total_content t.total_content) total_too_long
  raise_if (not (any is_user parsed)) user_required

-- `body.get("stream", False)`
check_stream : Option Json → Result ParseError (Unit {0})
check_stream none = ok tt
check_stream (some (Json.bool false)) = ok tt
check_stream (some (Json.bool true)) = err stream_unsupported
check_stream (some Json.null) = err stream_not_bool
check_stream (some (Json.int _)) = err stream_not_bool
check_stream (some (Json.neg_int _)) = err stream_not_bool
check_stream (some (Json.float _)) = err stream_not_bool
check_stream (some (Json.str _)) = err stream_not_bool
check_stream (some (Json.arr _)) = err stream_not_bool
check_stream (some (Json.obj _)) = err stream_not_bool

pub validate_chat_request : Fields → Result ParseError ChatRequest
validate_chat_request body = do
  model ← check_model (get_or_null "model" body)
  raw ← check_list (get_or_null "messages" body)
  (parsed, t) ← check_messages 0 raw no_messages
  check_totals t parsed
  check_stream (get_field "stream" body)
  ok (record {
    model = model;
    messages = parsed;
    stream = false;
    temperature = none;
    max_tokens = none;
  })
