-- ===== src/Gateway/Normalize.antt =====
-- gateway/normalize.py: the provider's completion made stable. `clock` and `id_factory` are the
-- values that those functions return.
mod Tests
pub mod Stable
use mnemostroma.Prelude.{
  ℕ, ◌+◌, String, Bool, true, false, Option, none, some, List, [], ◌∷◌, ◌||◌, string_eq, ltb,
  if◌then◌else◌, contains,
}
use mnemostroma.Prelude.Result.{Result, ok, err, raise_if, ◌>>=◌, ◌>>◌}
use mnemostroma.Prelude.Text.{is_blank, has_nul, len}
use mnemostroma.Gateway.Json.{Json, Items, nil, cons, Fields, end, field, get_field, get_or_null}

abbrev pub content_cap : ℕ
content_cap = 100000

abbrev pub allowed_finish_reasons : List String
allowed_finish_reasons = "stop" ∷ "length" ∷ "content_filter" ∷ []

-- The messages of `ProviderTransportError(502, "provider_invalid_response", ...)`, the TypeError of
-- a finish reason that cannot be hashed, and the AttributeError of a body that has no `get`.
pub data NormalizeError : Type 0 where
  no_choices choice_not_object no_message no_content content_nul content_too_long : NormalizeError
  unhashable_finish_reason : NormalizeError
  no_get : NormalizeError

pub record Completion : Type 0 where
  pub id : String
  pub created : ℕ
  pub model : String
  pub content : String
  pub finish_reason : String
  pub prompt_tokens : Json
  pub completion_tokens : Json
  pub total_tokens : ℕ

as_object : NormalizeError → Json → Result NormalizeError Fields
as_object e (Json.obj fs) = ok fs
as_object e Json.null = err e
as_object e (Json.bool _) = err e
as_object e (Json.int _) = err e
as_object e (Json.neg_int _) = err e
as_object e (Json.float _) = err e
as_object e (Json.str _) = err e
as_object e (Json.arr _) = err e

-- `choices[0]` of a list that is not empty
first_choice : Json → Result NormalizeError Json
first_choice (Json.arr nil) = err no_choices
first_choice (Json.arr (cons c _)) = ok c
first_choice Json.null = err no_choices
first_choice (Json.bool _) = err no_choices
first_choice (Json.int _) = err no_choices
first_choice (Json.neg_int _) = err no_choices
first_choice (Json.float _) = err no_choices
first_choice (Json.str _) = err no_choices
first_choice (Json.obj _) = err no_choices

check_content : Json → Result NormalizeError String
check_content (Json.str content) = do
  raise_if (is_blank content) no_content
  raise_if (has_nul content) content_nul
  raise_if (ltb content_cap (len content)) content_too_long
  ok content
check_content Json.null = err no_content
check_content (Json.bool _) = err no_content
check_content (Json.int _) = err no_content
check_content (Json.neg_int _) = err no_content
check_content (Json.float _) = err no_content
check_content (Json.arr _) = err no_content
check_content (Json.obj _) = err no_content

-- `finish_reason not in _ALLOWED_FINISH_REASONS`
finish_reason_of : Json → Result NormalizeError String
finish_reason_of (Json.str s) = ok (if contains s allowed_finish_reasons then s else "stop")
finish_reason_of (Json.arr _) = err unhashable_finish_reason
finish_reason_of (Json.obj _) = err unhashable_finish_reason
finish_reason_of Json.null = ok "stop"
finish_reason_of (Json.bool _) = ok "stop"
finish_reason_of (Json.int _) = ok "stop"
finish_reason_of (Json.neg_int _) = ok "stop"
finish_reason_of (Json.float _) = ok "stop"

-- `p if isinstance(p, int) and p >= 0 else 0`; a bool is an int, and is kept as it is
token_count : Option Json → Json
token_count none = Json.int 0
token_count (some (Json.int n)) = Json.int n
token_count (some (Json.bool b)) = Json.bool b
token_count (some Json.null) = Json.int 0
token_count (some (Json.neg_int _)) = Json.int 0
token_count (some (Json.float _)) = Json.int 0
token_count (some (Json.str _)) = Json.int 0
token_count (some (Json.arr _)) = Json.int 0
token_count (some (Json.obj _)) = Json.int 0

-- `isinstance(usage_raw, dict)`: the usage's field, or 0
usage_field : String → Json → Json
unfolding token_count
usage_field k (Json.obj fs) = token_count (get_field k fs)
usage_field k Json.null = Json.int 0
usage_field k (Json.bool _) = Json.int 0
usage_field k (Json.int _) = Json.int 0
usage_field k (Json.neg_int _) = Json.int 0
usage_field k (Json.float _) = Json.int 0
usage_field k (Json.str _) = Json.int 0
usage_field k (Json.arr _) = Json.int 0

-- The number that an int or a bool is in a sum.
abbrev pub amount : Json → ℕ
amount (Json.int n) = n
amount (Json.bool true) = 1
amount (Json.bool false) = 0
amount _ = 0

pub normalize_completion : Json → String → ℕ → String → Result NormalizeError Completion
normalize_completion body requested_model clock id_factory = do
  fs ← as_object no_get body
  choice ← first_choice (get_or_null "choices" fs)
  c ← as_object choice_not_object choice
  msg ← as_object no_message (get_or_null "message" c)
  content ← check_content (get_or_null "content" msg)
  finish_reason ← finish_reason_of (get_or_null "finish_reason" c)
  let prompt_tokens = usage_field "prompt_tokens" (get_or_null "usage" fs)
  let completion_tokens = usage_field "completion_tokens" (get_or_null "usage" fs)
  ok (record {
    id = id_factory;
    created = clock;
    model = requested_model;
    content = content;
    finish_reason = finish_reason;
    prompt_tokens = prompt_tokens;
    completion_tokens = completion_tokens;
    total_tokens = amount prompt_tokens + amount completion_tokens;
  })

-- The dictionary that `normalize_completion` returns.
abbrev pub to_json : Completion → Json
to_json c = Json.obj (
    field "id" (Json.str c.id) (
      field "object" (Json.str "chat.completion") (
        field "created" (Json.int c.created) (
          field "model" (Json.str c.model) (
            field "choices"
              (Json.arr (
                cons
                  (Json.obj (
                    field "index" (Json.int 0) (
                      field "message"
                        (Json.obj (
                          field "role" (Json.str "assistant")
                            (field "content" (Json.str c.content) end)))
                        (field "finish_reason" (Json.str c.finish_reason) end))))
                  nil))
              (field "usage"
                (Json.obj (
                  field "prompt_tokens" c.prompt_tokens (
                    field "completion_tokens" c.completion_tokens
                      (field "total_tokens" (Json.int c.total_tokens) end))))
                end))))))
