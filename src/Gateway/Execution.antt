-- ===== src/Gateway/Execution.antt =====
-- gateway/execution.py: one request through admission, memory, provider, normalization and
-- observation. What the injector, the transport and `json.loads` do is an argument.
mod Tests
pub mod Permit
pub mod Outcomes
use mnemostroma.Prelude.{
  ℕ, String, Bool, true, false, Option, none, some, List, [], ◌∷◌, ltb, if◌then◌else◌, is_some,
}
use mnemostroma.Prelude.Result
use mnemostroma.Prelude.Result.{Result, ok, err}
use mnemostroma.Prelude.Text.{is_blank, has_nul, len}
use mnemostroma.Gateway.Json.{Json, Items, nil, cons, Fields, get_or_null}
use mnemostroma.Gateway.Contracts.{
  ChatMessage, ChatRequest, MemoryMode, MemoryPlan, ProviderRequest,
}
use mnemostroma.Gateway.Admission.{DispatchAdmission, DispatchPermit, try_acquire, release}
use mnemostroma.Gateway.Plans.{materialize_provider_request}
use mnemostroma.Gateway.Metrics.{GatewayMetrics, increment, record_end}
use mnemostroma.Gateway.Normalize.{NormalizeError, Completion, normalize_completion, to_json}
use mnemostroma.Gateway.Observation.{Registry, schedule, last_user_content}

abbrev pub memory_cap : ℕ
memory_cap = 24000

-- How an awaited call ends: a value, a ProviderTransportError by its status and code, another
-- `Exception`, or the cancellation of the request.
pub data Awaited {ℓ} (A : Type ℓ) : Type ℓ where
  returned : A → Awaited A
  transport_error : ℕ → String → Awaited A
  raised : Awaited A
  cancelled : Awaited A

-- What an injector returns: a `str`, or something else.
pub data Injected : Type 0 where
  text : String → Injected
  non_string : Injected

pub data ExecError : Type 0 where
  stream_unsupported no_user_message : ExecError
  provider_busy : ExecError
  not_wired injector_failed injected_non_string injected_blank injected_nul injected_too_long :
      ExecError
  transport_failed : ℕ → String → ExecError
  send_raised invalid_json : ExecError
  not_normal : NormalizeError → ExecError
  cancelled_error : ExecError

-- The readings of the metrics' clock.
pub record Times : Type 0 where
  pub inj_start : ℕ
  pub inj_end : ℕ
  pub dispatch_start : ℕ
  pub dispatch_end : ℕ
  pub norm_start : ℕ
  pub norm_end : ℕ

-- The parts that the executor is given, and those of them that are not under its control.
pub record Env : Type 0 where
  pub injector : Option (String → Awaited Injected)
  pub send : ProviderRequest → Awaited String
  pub loads : String → Option Json
  pub has_observer : Bool
  pub times : Times
  pub created : ℕ
  pub new_id : String

-- What a request changes.
pub record Gate : Type 0 where
  pub admission : Option DispatchAdmission
  pub metrics : Option GatewayMetrics
  pub registry : Registry

abbrev pub Exec {ℓ} : Type ℓ → Type ℓ
Exec A = Gate → Result ExecError A × Gate

infixl 5 ◌>>=◌ ◌>>◌
abbrev pub ◌>>=◌ {ℓ κ} : {A : Type ℓ} {B : Type κ} → Exec A → (A → Exec B) → Exec B
◌>>=◌ m f g = let (r, g') = m g in elim r [ Result.ok a ↦ f a g' | Result.err e ↦ (err e, g') ]

abbrev pub ◌>>◌ {ℓ} : {B : Type ℓ} → Exec (Unit {0}) → Exec B → Exec B
m >> k = m >>= λ _. k

abbrev pub pure {ℓ} : {A : Type ℓ} → A → Exec A
pure a g = (ok a, g)

abbrev pub raise {ℓ} : {A : Type ℓ} → ExecError → Exec A
raise e g = (err e, g)

abbrev pub raise_when : Bool → ExecError → Exec (Unit {0})
raise_when b e g = (if b then err e else ok tt, g)

abbrev pub measured :
    (GatewayMetrics → GatewayMetrics) → Option GatewayMetrics → Option GatewayMetrics
measured f none = none
measured f (some m) = some (f m)

-- `_incr`
abbrev pub incr : String → Exec (Unit {0})
incr name g = (ok tt, record g { metrics = measured (increment name) g.metrics })

-- `_record_end`, between two readings
abbrev pub record_duration : String → ℕ → ℕ → Exec (Unit {0})
record_duration name start_s now g =
    (ok tt, record g { metrics = measured (record_end name start_s now) g.metrics })

unfoldable pub validate_injection : Injected → Exec String
validate_injection Injected.non_string = raise injected_non_string
validate_injection (Injected.text s) = do
  raise_when (is_blank s) injected_blank
  raise_when (has_nul s) injected_nul
  raise_when (ltb memory_cap (len s)) injected_too_long
  pure s

injected : Times → Awaited Injected → Exec String
unfolding validate_injection
injected t (Awaited.returned v) = do
  record_duration "gateway_injection_duration_ms" t.inj_start t.inj_end
  validate_injection v
injected t Awaited.cancelled = raise cancelled_error
injected t Awaited.raised = do
  record_duration "gateway_injection_duration_ms" t.inj_start t.inj_end
  incr "gateway_memory_failures_total"
  raise injector_failed
injected t (Awaited.transport_error _ _) = do
  record_duration "gateway_injection_duration_ms" t.inj_start t.inj_end
  incr "gateway_memory_failures_total"
  raise injector_failed

refuse_injection : Times → ExecError → Exec String
refuse_injection t e = do
  record_duration "gateway_injection_duration_ms" t.inj_start t.inj_end
  incr "gateway_memory_failures_total"
  raise e

inject_with : Env → (String → Awaited Injected) → Option String → Exec String
unfolding injected refuse_injection
inject_with env inject none = refuse_injection env.times no_user_message
inject_with env inject (some user_content) = injected env.times (inject user_content)

inject_from : Env → Option (String → Awaited Injected) → ChatRequest → Exec String
unfolding inject_with last_user_content
inject_from env none r = refuse_injection env.times not_wired
inject_from env (some inject) r = inject_with env inject (last_user_content r.messages)

-- `_inject_memory`
unfoldable pub inject_memory : Env → ChatRequest → Exec String
unfolding inject_from
inject_memory env r = inject_from env env.injector r

sent : Times → Awaited String → Exec String
sent t (Awaited.returned body) = do
  record_duration "gateway_dispatch_duration_ms" t.dispatch_start t.dispatch_end
  pure body
sent t Awaited.cancelled = raise cancelled_error
sent t (Awaited.transport_error status code) = do
  record_duration "gateway_dispatch_duration_ms" t.dispatch_start t.dispatch_end
  incr "gateway_provider_failures_total"
  raise (transport_failed status code)
sent t Awaited.raised = do
  record_duration "gateway_dispatch_duration_ms" t.dispatch_start t.dispatch_end
  incr "gateway_provider_failures_total"
  raise send_raised

loaded : Option Json → Exec Json
loaded none = raise invalid_json
loaded (some raw) = pure raw

normalized : Times → Result NormalizeError Completion → Exec Completion
normalized t (Result.ok c) = do
  record_duration "gateway_normalization_duration_ms" t.norm_start t.norm_end
  pure c
normalized t (Result.err e) = do
  record_duration "gateway_normalization_duration_ms" t.norm_start t.norm_end
  incr "gateway_normalization_failures_total"
  raise (not_normal e)

first_item : Json → Option Json
first_item (Json.arr (cons c _)) = some c
first_item _ = none

field_of : String → Json → Option Json
field_of k (Json.obj fs) = some (get_or_null k fs)
field_of k _ = none

not_none : Json → Option Json
not_none Json.null = none
not_none j = some j

-- `assistant_content` of observer.py
unfoldable pub assistant_content : Json → Option Json
unfolding first_item field_of not_none
assistant_content completion = elim (field_of "choices" completion) [
  | none ↦ none
  | some choices ↦ elim (first_item choices) [
    | none ↦ none
    | some choice ↦ elim (field_of "message" choice) [
      | none ↦ none
      | some msg ↦ elim (field_of "content" msg) [ none ↦ none | some c ↦ not_none c ]
    ]
  ]
]

-- `_schedule_observe`, and the test of the observer before it
observe : Bool → ChatRequest → Completion → Exec (Unit {0})
unfolding assistant_content last_user_content
observe has_observer r c g =
    if has_observer
    then if is_some (last_user_content r.messages)
      then if is_some (assistant_content (to_json c))
        then (ok tt, record g { registry = (schedule g.registry).1 })
        else (ok tt, g)
      else (ok tt, g)
    else (ok tt, g)

-- What goes to the provider, and what comes back.
dispatch : Env → ChatRequest → Option String → Exec Completion
unfolding sent loaded normalized observe
dispatch env r injected_context = do
  body ← sent env.times (env.send (materialize_provider_request r injected_context))
  raw ← loaded (env.loads body)
  completion ← normalized env.times (normalize_completion raw r.model env.created env.new_id)
  observe env.has_observer r completion
  pure completion

-- The body of the `async with` block.
run : Env → ChatRequest → MemoryMode → Exec Completion
unfolding dispatch
run env r MemoryMode.active = do
  injected_context ← inject_memory env r
  dispatch env r (some injected_context)
run env r MemoryMode.off = dispatch env r none
run env r MemoryMode.planned = dispatch env r none

is_active : MemoryMode → Bool
is_active MemoryMode.active = true
is_active MemoryMode.off = false
is_active MemoryMode.planned = false

give_back : DispatchPermit → Gate → Gate
give_back p g = record g {
  admission = elim g.admission [ none ↦ none | some a ↦ some (release p a) ];
}

-- The permit is released however the block is left.
with_permit : Exec Completion → Option DispatchPermit × DispatchAdmission → Exec Completion
unfolding give_back
with_permit block (none, a) g = (err provider_busy, record g { admission = some a })
with_permit block (some p, a) g =
    let (r, g') = block (record g { admission = some a }) in (r, give_back p g')

admitted : Exec Completion → Bool → Option DispatchAdmission → Exec Completion
unfolding with_permit
admitted block memory_active none g = block g
admitted block memory_active (some a) g = with_permit block (try_acquire memory_active a) g

pub execute : Env → ChatRequest → MemoryPlan → Exec Completion
unfolding run is_active admitted
execute env r memory g =
    if r.stream
    then (err stream_unsupported, g)
    else admitted (run env r memory.mode) (is_active memory.mode) g.admission g
