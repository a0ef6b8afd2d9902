-- ===== src/Gateway/Plans.antt =====
-- gateway/memory_plan.py, gateway/dispatch.py and gateway/materialize.py: from an accepted request
-- to what is sent to the provider.
mod Tests
pub mod Injection
use mnemostroma.Prelude.{
  ℕ, ◌+◌, String, Bool, true, false, Option, none, some, is_some, List, [], ◌∷◌, ◌++◌, ◌==◌,
  string_eq, if◌then◌else◌, take, drop,
}
use mnemostroma.Gateway.Contracts.{
  ChatMessage, ChatRequest, MemoryMode, MemoryPlan, DispatchMode, ProviderPlan, ProviderRequest,
}

-- The loop over `enumerate(request.messages)`: the last index whose role is `user`.
last_user_from : ℕ → List ChatMessage → Option ℕ → Option ℕ
last_user_from i [] source_index = source_index
last_user_from i (msg ∷ rest) source_index =
    last_user_from (i + 1) rest (if msg.role == "user" then some i else source_index)

plan_for : MemoryMode → ChatRequest → Option ℕ → MemoryPlan
unfolding last_user_from
plan_for mode request max_tokens =
    let source_index = last_user_from 0 request.messages none in
    record {
      mode = mode;
      would_inject = is_some source_index;
      would_observe = false;
      source_message_index = source_index;
      max_tokens = max_tokens;
    }

-- `memory_mode` and `memory_max_tokens` are the fields of the configuration that it reads.
unfoldable pub build_memory_plan : ChatRequest → MemoryMode → Option ℕ → MemoryPlan
unfolding plan_for
build_memory_plan request MemoryMode.off max_tokens = record {
  mode = MemoryMode.off;
  would_inject = false;
  would_observe = false;
  source_message_index = none;
  max_tokens = none;
}
build_memory_plan request MemoryMode.planned max_tokens =
    plan_for MemoryMode.planned request max_tokens
build_memory_plan request MemoryMode.active max_tokens =
    plan_for MemoryMode.active request max_tokens

unfoldable pub build_dispatch_plan : DispatchMode → ProviderPlan
build_dispatch_plan DispatchMode.disabled = record {
  mode = DispatchMode.disabled;
  would_dispatch = false;
  upstream_path = none;
}
build_dispatch_plan DispatchMode.configured = record {
  mode = DispatchMode.configured;
  would_dispatch = true;
  upstream_path = some "/v1/chat/completions";
}

-- The count of leading system messages.
insert_at : List ChatMessage → ℕ
insert_at [] = 0
insert_at (m ∷ ms) = let rest = insert_at ms in if m.role == "system" then rest + 1 else 0

with_memory : List ChatMessage → Option String → List ChatMessage
unfolding insert_at
with_memory messages none = messages
with_memory messages (some injected_context) =
    take (insert_at messages) messages
    ++ (record { role = "system"; content = injected_context } ∷ drop (insert_at messages) messages)

unfoldable pub materialize_provider_request : ChatRequest → Option String → ProviderRequest
unfolding with_memory
materialize_provider_request r injected_context = record {
  model = r.model;
  messages = with_memory r.messages injected_context;
  stream = r.stream;
  temperature = r.temperature;
  max_tokens = r.max_tokens;
  memory_injection = if is_some injected_context then "injected" else "not_materialized";
}
