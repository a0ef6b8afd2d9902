-- ===== src/Gateway/Execution/Tests.antt =====
-- Concrete requests through the executor.
use mnemostroma.Prelude.{◌≡◌, refl, true, false, none, some, [], ◌∷◌, arith}
use mnemostroma.Prelude.Result.{ok}
use mnemostroma.Prelude.Text.{is_blank, has_nul, len}
use mnemostroma.Gateway.Json.{Json}
use mnemostroma.Gateway.Contracts.{ChatRequest, MemoryMode, MemoryPlan}
use mnemostroma.Gateway.Admission.{try_acquire}
use mnemostroma.Gateway.Plans.{build_memory_plan}
use mnemostroma.Gateway.Normalize.{Completion, to_json}
use mnemostroma.Gateway.Normalize.Stable.{IsStable, normalize-to_json}
use mnemostroma.Gateway.Metrics.{empty}
use mnemostroma.Gateway.Observation.{init, last_user_content}
use mnemostroma.Gateway.Execution.{
  Awaited, Injected, not_wired, Env, Gate, inject_memory, inject_from, refuse_injection, execute,
}
use mnemostroma.Gateway.Execution.Permit.{admission-execute}
use mnemostroma.Gateway.Execution.Outcomes.{
  IsAnswered, NoMemory, execute-IsAnswered, execute_closed,
}

abbrev hello : ChatRequest
hello = record {
  model = "gpt-4o";
  messages = record { role = "user"; content = "hello" } ∷ [];
  stream = false;
  temperature = none;
  max_tokens = none;
}

abbrev with_memory : MemoryPlan
with_memory = build_memory_plan hello MemoryMode.active none

-- The memory is there, and the provider does not answer in time.
abbrev slow : Env
slow = record {
  injector = some (λ s. Awaited.returned (Injected.text "likes tea"));
  send = λ r. Awaited.transport_error 504 "timeout";
  loads = λ s. none;
  has_observer = true;
  times = record {
    inj_start = 1;
    inj_end = 2;
    dispatch_start = 2;
    dispatch_end = 9;
    norm_start = 9;
    norm_end = 9;
  };
  created = 1700000000;
  new_id = "chatcmpl-1";
}

abbrev answer : Completion
answer = record {
  id = "chatcmpl-1";
  created = 1700000000;
  model = "gpt-4o";
  content = "hi";
  finish_reason = "stop";
  prompt_tokens = Json.int 0;
  completion_tokens = Json.int 0;
  total_tokens = 0;
}

answer-IsStable : IsStable "gpt-4o" answer
unfolding is_blank has_nul len
answer-IsStable = record {
  model = refl;
  present = refl;
  clean = refl;
  fits = omega arith;
  finish = refl;
  prompt = tt;
  completion = tt;
  total = refl;
}

-- A provider that answers.
abbrev good : Env
good = record slow { send = λ r. Awaited.returned "reply"; loads = λ s. some (to_json answer) }

abbrev gate : Gate
gate = record {
  admission =
      some (record { max_total = 2; max_memory = 1; current_total = 1; current_memory = 0 });
  metrics = some empty;
  registry = init none;
}

abbrev full_gate : Gate
full_gate = record gate {
  admission =
      some (record { max_total = 2; max_memory = 1; current_total = 1; current_memory = 1 });
}

admission-execute_example : (execute slow hello with_memory gate).1.admission ≡ gate.admission
admission-execute_example = admission-execute slow hello with_memory gate

memory_is_active : with_memory.mode ≡ MemoryMode.active
unfolding build_memory_plan
memory_is_active = refl

answered : (execute good hello with_memory gate).0 ≡ ok answer
unfolding execute build_memory_plan try_acquire inject_memory is_blank has_nul len last_user_content
answered = rw (normalize-to_json "gpt-4o" answer answer-IsStable) refl

execute-IsAnswered_example :
    IsAnswered good hello with_memory.mode answer × IsStable "gpt-4o" answer
execute-IsAnswered_example = execute-IsAnswered good hello with_memory gate answer answered

abbrev unwired : Env
unwired = record good { injector = none }

unwired-NoMemory : NoMemory unwired hello
unfolding inject_memory inject_from refuse_injection
unwired-NoMemory g = (not_wired, refl)

execute_closed_example :
    execute (record unwired { send = slow.send }) hello with_memory gate
    ≡ execute unwired hello with_memory gate
execute_closed_example =
    execute_closed unwired slow.send hello with_memory gate memory_is_active unwired-NoMemory
