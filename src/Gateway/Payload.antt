-- ===== src/Gateway/Payload.antt =====
-- gateway/upstream_router.py: the payload of the OpenAI kind that UpstreamRouter sends for a request,
-- and how its texts are cleaned. Text is its code points. The tools, the ids and calls of tools and
-- the role of a message only travel along, and `tool_calls` is a list that is left out when it is empty.
pub mod Cleaned
pub mod Built
mod Tests
use mnemostroma.Prelude.{
  ℕ, ◌+◌, String, Bool, true, false, not, ◌&&◌, ◌||◌, Option, none, some, List, [], ◌∷◌, ◌++◌, ◌==◌,
  string_eq, ◌=ℕ◌, ltb, if◌then◌else◌, length, take, select, any, concat, map,
}
use mnemostroma.Prelude.Result.{Result, ok, err, ◌>>=◌}

abbrev pub Text : Type 0
Text = List ℕ

pub data PartType : Type 0 where
  text : PartType
  image : PartType
  tool_use : PartType
  tool_result : PartType

pub record MessagePart : Type 0 where
  pub type : PartType
  pub content : Text

pub record CanonicalMessage {ℓ} (J : Type ℓ) : Type ℓ where
  pub role : String
  pub parts : List MessagePart
  pub tool_call_id : Option String
  pub tool_calls : List J

-- The fields of GatewayLimitsConfig that are read.
pub record Limits : Type 0 where
  pub sanitize_control_chars : Bool
  pub sanitize_policy : String
  pub max_system_text_bytes : ℕ

-- The fields of GatewayRequest that are read.
pub record Request {ℓ} (J : Type ℓ) : Type ℓ where
  pub model : String
  pub system_parts : List MessagePart
  pub messages : List (CanonicalMessage J)
  pub stream : Bool
  pub tools : List J

-- UpstreamDispatchError with its status.
pub data DispatchError : Type 0 where
  dispatch_error : ℕ → DispatchError

-- A message of the payload. The content is null when no part is a text.
pub record Entry {ℓ} (J : Type ℓ) : Type ℓ where
  pub role : String
  pub content : Option Text
  pub tool_call_id : Option String
  pub tool_calls : List J

pub record Payload {ℓ} (J : Type ℓ) : Type ℓ where
  pub model : String
  pub messages : List (Entry J)
  pub stream : Bool
  pub tools : List J

-- `ord(c) < 32 and ord(c) not in (9, 10, 13)`
pub is_control : ℕ → Bool
is_control c = ltb c 32 && not (c =ℕ 9 || (c =ℕ 10 || c =ℕ 13))

pub is_empty : Text → Bool
is_empty [] = true
is_empty (c ∷ cs) = false

-- `_sanitize_text`
pub sanitize_text : Limits → Text → Result DispatchError Text
unfolding is_control
sanitize_text limits t =
    if not limits.sanitize_control_chars
    then ok t
    else if limits.sanitize_policy == "pass"
    then ok t
    else if (limits.sanitize_policy == "error") && any is_control t
    then err (dispatch_error 400)
    else ok (select (λ c. not (is_control c)) t)

is_text : MessagePart → Bool
is_text p = elim p.type [
  | PartType.text ↦ true
  | PartType.image ↦ false
  | PartType.tool_use ↦ false
  | PartType.tool_result ↦ false
]

pub texts : List MessagePart → List Text
unfolding is_text
texts parts = map (λ (p : MessagePart). p.content) (select is_text parts)

-- `"".join(text_parts) if text_parts else None`
pub content_of : List Text → Option Text
content_of [] = none
content_of (t ∷ ts) = some (concat (t ∷ ts))

-- `if sanitize_fn and content: content = sanitize_fn(content)`
pub sanitize_content : Limits → Option Text → Result DispatchError (Option Text)
unfolding sanitize_text is_empty
sanitize_content limits none = ok none
sanitize_content limits (some content) =
    if is_empty content
    then ok (some content)
    else sanitize_text limits content >>= λ cleaned. ok (some cleaned)

-- The text of the system, with the memory behind it, before it is cleaned.
pub system_text : List MessagePart → Option Text → Text
unfolding texts is_empty
system_text parts none = concat (texts parts)
system_text parts (some memory) =
    let system = concat (texts parts) in
    if is_empty memory
    then system
    else if is_empty system
    then memory
    else system ++ (10 ∷ 10 ∷ memory)

-- `if msg.tool_call_id`
pub present : Option String → Option String
present none = none
present (some i) = if i == "" then none else some i

module _ {ℓ} {J : Type ℓ} where
  pub entry_of : Limits → CanonicalMessage J → Result DispatchError (Entry J)
  unfolding texts content_of sanitize_content present
  entry_of limits m = do
    content ← sanitize_content limits (content_of (texts m.parts))
    ok (record {
      role = m.role;
      content = content;
      tool_call_id = present m.tool_call_id;
      tool_calls = m.tool_calls;
    })

  pub messages_to_openai_payload :
      Limits → List (CanonicalMessage J) → Result DispatchError (List (Entry J))
  unfolding entry_of
  messages_to_openai_payload limits [] = ok []
  messages_to_openai_payload limits (m ∷ ms) = do
    entry ← entry_of limits m
    rest ← messages_to_openai_payload limits ms
    ok (entry ∷ rest)

  pub system_entry : Text → List (Entry J)
  unfolding is_empty
  system_entry t =
      if is_empty t
      then []
      else record { role = "system"; content = some t; tool_call_id = none; tool_calls = [] } ∷ []

  pub build_payload : Limits → Request J → Option Text → Result DispatchError (Payload J)
  unfolding system_text sanitize_text system_entry messages_to_openai_payload
  build_payload limits r memory = do
    cleaned ← sanitize_text limits (system_text r.system_parts memory)
    entries ← messages_to_openai_payload limits r.messages
    ok (record {
      model = r.model;
      messages = system_entry (take limits.max_system_text_bytes cleaned) ++ entries;
      stream = r.stream;
      tools = r.tools;
    })
