-- ===== src/Gateway/RequestPolicy/Tests.antt =====
-- Concrete request bodies.
use mnemostroma.Prelude.{ℕ, ◌≡◌, refl, false, none, List, [], ◌∷◌, arith, string_eq}
use mnemostroma.Prelude.Result.{ok}
use mnemostroma.Prelude.Text.{is_blank, has_nul, len}
use mnemostroma.Gateway.Json.{Json, Items, get_or_null}
use mnemostroma.Gateway.Contracts.{ChatMessage, ChatRequest}
use mnemostroma.Gateway.RequestPolicy.{max_message_content, max_model_length, validate_chat_request}
use mnemostroma.Gateway.RequestPolicy.Limits.{
  IsText, IsMessage, IsWithinLimits, Reads, validate-IsWithinLimits,
}
use mnemostroma.Gateway.RequestPolicy.Complete.{to_body, validate-to_body}

abbrev hello : ChatMessage
hello = record { role = "user"; content = "hello" }

abbrev request : ChatRequest
request = record {
  model = "gpt-4o";
  messages = record { role = "system"; content = "be brief" } ∷ hello ∷ [];
  stream = false;
  temperature = none;
  max_tokens = none;
}

IsText-hello : IsText max_message_content "hello"
unfolding is_blank has_nul len
IsText-hello = record { present = refl; clean = refl; fits = omega arith }

IsText-brief : IsText max_message_content "be brief"
unfolding is_blank has_nul len
IsText-brief = record { present = refl; clean = refl; fits = omega arith }

IsText-model : IsText max_model_length "gpt-4o"
unfolding is_blank has_nul len
IsText-model = record { present = refl; clean = refl; fits = omega arith }

hello-IsMessage : IsMessage hello
unfolding is_blank has_nul len
hello-IsMessage = record { role_allowed = refl; text = IsText-hello }

request-IsWithinLimits : IsWithinLimits request
unfolding is_blank has_nul len
request-IsWithinLimits = record {
  model_text = IsText-model;
  some_message = omega arith;
  few_messages = omega arith;
  every_message = (record { role_allowed = refl; text = IsText-brief }, (hello-IsMessage, tt));
  system_bound = omega arith;
  user_bound = omega arith;
  assistant_bound = omega arith;
  content_bound = omega arith;
  has_user = refl;
  not_stream = refl;
  no_temperature = refl;
  no_max_tokens = refl;
}

validate-to_body_example : validate_chat_request (to_body request) ≡ ok request
validate-to_body_example = validate-to_body request request-IsWithinLimits

validate-IsWithinLimits_example :
    IsWithinLimits request
    × ((raw : Items) × (get_or_null "messages" (to_body request) ≡ Json.arr raw)
        × Reads raw request.messages)
    × (get_or_null "model" (to_body request) ≡ Json.str "gpt-4o")
validate-IsWithinLimits_example =
    validate-IsWithinLimits (to_body request) request
      (validate-to_body request request-IsWithinLimits)

abbrev chunks : List (List ℕ)
chunks = (1 ∷ 2 ∷ []) ∷ (3 ∷ 4 ∷ 5 ∷ []) ∷ []
