-- ===== src/Gateway/Normalize/Tests.antt =====
-- A concrete reply of a provider.
use mnemostroma.Prelude.{◌≡◌, refl, arith}
use mnemostroma.Prelude.Result.{ok}
use mnemostroma.Prelude.Text.{is_blank, has_nul, len}
use mnemostroma.Gateway.Json.{Json, nil, cons, end, field}
use mnemostroma.Gateway.Normalize.{
  as_object, first_choice, check_content, finish_reason_of, usage_field, Completion,
  normalize_completion, to_json,
}
use mnemostroma.Gateway.Normalize.Stable.{IsStable, normalize-IsStable, normalize-to_json}

abbrev answer : Completion
answer = record {
  id = "chatcmpl-1";
  created = 1700000000;
  model = "gpt-4o";
  content = "hi";
  finish_reason = "stop";
  prompt_tokens = Json.int 12;
  completion_tokens = Json.int 3;
  total_tokens = 15;
}

-- A reply without a finish reason, with a negative count and with a total of its own.
abbrev reply : Json
reply = Json.obj (
    field "choices"
      (Json.arr (
        cons (Json.obj (field "message" (Json.obj (field "content" (Json.str "hi") end)) end)) nil))
      (field "usage"
        (Json.obj (
          field "prompt_tokens" (Json.int 12)
            (field "completion_tokens" (Json.neg_int 4) (field "total_tokens" (Json.int 99) end))))
        end))

normalized :
    normalize_completion reply "gpt-4o" 1700000000 "chatcmpl-1"
    ≡ ok (record answer { completion_tokens = Json.int 0; total_tokens = 12 })
unfolding normalize_completion is_blank has_nul len as_object first_choice check_content
    finish_reason_of usage_field
normalized = refl

normalize-IsStable_example :
    IsStable "gpt-4o" (record answer { completion_tokens = Json.int 0; total_tokens = 12 })
normalize-IsStable_example =
    normalize-IsStable reply "gpt-4o" 1700000000 "chatcmpl-1"
      (record answer { completion_tokens = Json.int 0; total_tokens = 12 }) normalized

answer-IsStable : IsStable "gpt-4o" answer
unfolding is_blank has_nul len
answer-IsStable = record {
  model = refl;
  present = refl;
  clean = refl;
  fits = omega arith;
  finish = refl;
  prompt = tt;
  completion = tt;
  total = refl;
}

normalize-to_json_example :
    normalize_completion (to_json answer) "gpt-4o" 1700000000 "chatcmpl-1" ≡ ok answer
normalize-to_json_example = normalize-to_json "gpt-4o" answer answer-IsStable
