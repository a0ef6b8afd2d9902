-- ===== src/Gateway/Payload/Tests.antt =====
-- A request with a bell in the text of the system, a picture, and two texts in one message.
use mnemostroma.Prelude.{ℕ, ◌≡◌, refl, true, false, ◌||◌, none, some, [], ◌∷◌, string_eq, any, All}
use mnemostroma.Prelude.Result.{ok, err}
use mnemostroma.Gateway.Payload.{
  PartType, Limits, CanonicalMessage, Request, dispatch_error, is_control, system_text,
  build_payload,
}
use mnemostroma.Gateway.Payload.Cleaned.{clean, strict, clean_content, is_refused}
use mnemostroma.Gateway.Payload.Built.{
  payload_by, IsCleanEntry, build_payload_strips, build_payload_refuses,
}

abbrev message : CanonicalMessage ℕ
message = record {
  role = "user";
  parts =
      record { type = PartType.text; content = 65 ∷ [] }
      ∷ record { type = PartType.image; content = 66 ∷ [] }
      ∷ record { type = PartType.text; content = 67 ∷ [] }
      ∷ [];
  tool_call_id = none;
  tool_calls = [];
}

abbrev request : Request ℕ
request = record {
  model = "m";
  system_parts = record { type = PartType.text; content = 7 ∷ 68 ∷ [] } ∷ [];
  messages = message ∷ [];
  stream = false;
  tools = [];
}

abbrev stripping : Limits
stripping = record {
  sanitize_control_chars = true;
  sanitize_policy = "strip";
  max_system_text_bytes = 4;
}

-- The cut falls into the memory.
stripped :
    build_payload stripping request (some (69 ∷ 70 ∷ []))
    ≡ ok (record {
      model = "m";
      messages =
          record {
            role = "system";
            content = some (68 ∷ 10 ∷ 10 ∷ 69 ∷ []);
            tool_call_id = none;
            tool_calls = [];
          }
          ∷ record {
            role = "user";
            content = some (65 ∷ 67 ∷ []);
            tool_call_id = none;
            tool_calls = [];
          }
          ∷ [];
      stream = false;
      tools = [];
    })
unfolding build_payload
stripped = refl

build_payload_strips_example :
    let p =
      payload_by stripping request (clean (system_text request.system_parts none)) clean_content in
    (build_payload stripping request none ≡ ok p) × All IsCleanEntry p.messages
build_payload_strips_example =
    build_payload_strips stripping request none
      (record { on = refl; not_passed = refl; not_refused = refl })

abbrev refusing : Limits
refusing = record stripping { sanitize_policy = "error" }

refused : build_payload refusing request none ≡ err (dispatch_error 400)
unfolding build_payload
refused = refl

build_payload_refuses_example :
    build_payload refusing request none
    ≡ strict
        (any is_control (system_text request.system_parts none) || any is_refused request.messages)
        (payload_by refusing request (system_text request.system_parts none) (λ o. o))
build_payload_refuses_example =
    build_payload_refuses refusing request none (record { on = refl; refused = refl })
