-- ===== src/Gateway/Execution/Permit.antt =====
-- The admission slot of a request is given back on every path, and a full admission turns the
-- request away before anything else is done.
use mnemostroma.Prelude.{
  String, ◌≡◌, refl, ◌⊎◌, inl, inr, Bool, false, Option, none, some, arith, ◌∙◌, ◌≤◌, Bool-cases,
  Option-cases,
}
use mnemostroma.Prelude.Result.{Result, err}
use mnemostroma.Gateway.Json.{Json}
use mnemostroma.Gateway.Contracts.{ChatRequest, MemoryMode, MemoryPlan}
use mnemostroma.Gateway.Admission.{DispatchAdmission, try_acquire}
use mnemostroma.Gateway.Admission.Bounds.{release-try_acquire, try_acquire-none}
use mnemostroma.Gateway.Plans.{materialize_provider_request}
use mnemostroma.Gateway.Observation.{last_user_content}
use mnemostroma.Gateway.Normalize.{NormalizeError, Completion, normalize_completion}
use mnemostroma.Gateway.Execution.{
  Awaited, Injected, ExecError, provider_busy, no_user_message, not_wired, pure, Times, Env, Gate,
  Exec, ◌>>=◌, validate_injection, injected, refuse_injection, inject_with, inject_from,
  inject_memory, sent, loaded, normalized, observe, dispatch, run, is_active, with_permit, admitted,
  execute,
}

-- `m` leaves the admission as it finds it.
record Keeps {ℓ} {A : Type ℓ} (m : Exec A) : Type 0 where
  keeps : (g : Gate) → (m g).1.admission ≡ g.admission

module _ {ℓ κ} {A : Type ℓ} {B : Type κ} where
  bind_admission :
      (f : A → Exec B) (out : Result ExecError A × Gate)
      → ((a : A) → Keeps (f a))
      → (((λ g. out) >>= f) out.1).1.admission ≡ out.1.admission
  bind_admission f (Result.ok a, g) kf = (kf a).keeps g
  bind_admission f (Result.err e, g) kf = refl

  Keeps-bind : {m : Exec A} {f : A → Exec B} → Keeps m → ((a : A) → Keeps (f a)) → Keeps (m >>= f)
  Keeps-bind {m} {f} km kf = record { keeps = λ g. bind_admission f (m g) kf ∙ km.keeps g }

validate_injection-Keeps : (v : Injected) → Keeps (validate_injection v)
unfolding validate_injection
validate_injection-Keeps (Injected.text s) = record { keeps = λ g. ground arith }
validate_injection-Keeps Injected.non_string = record { keeps = λ g. refl }

injected-Keeps : (t : Times) (a : Awaited Injected) → Keeps (injected t a)
unfolding injected
injected-Keeps t (Awaited.returned v) = record { keeps = λ g. (validate_injection-Keeps v).keeps _ }
injected-Keeps t Awaited.cancelled = record { keeps = λ g. refl }
injected-Keeps t Awaited.raised = record { keeps = λ g. refl }
injected-Keeps t (Awaited.transport_error status code) = record { keeps = λ g. refl }

refuse_injection-Keeps : (t : Times) (e : ExecError) → Keeps (refuse_injection t e)
unfolding refuse_injection
refuse_injection-Keeps t e = record { keeps = λ g. refl }

inject_with-Keeps :
    (env : Env) (inject : String → Awaited Injected) (o : Option String)
    → Keeps (inject_with env inject o)
unfolding inject_with
inject_with-Keeps env inject none = refuse_injection-Keeps env.times no_user_message
inject_with-Keeps env inject (some s) = injected-Keeps env.times (inject s)

inject_from-Keeps :
    (env : Env) (o : Option (String → Awaited Injected)) (r : ChatRequest)
    → Keeps (inject_from env o r)
unfolding inject_from
inject_from-Keeps env none r = refuse_injection-Keeps env.times not_wired
inject_from-Keeps env (some inject) r = inject_with-Keeps env inject (last_user_content r.messages)

inject_memory-Keeps : (env : Env) (r : ChatRequest) → Keeps (inject_memory env r)
unfolding inject_memory
inject_memory-Keeps env r = inject_from-Keeps env env.injector r

sent-Keeps : (t : Times) (a : Awaited String) → Keeps (sent t a)
unfolding sent
sent-Keeps t (Awaited.returned v) = record { keeps = λ g. refl }
sent-Keeps t Awaited.cancelled = record { keeps = λ g. refl }
sent-Keeps t Awaited.raised = record { keeps = λ g. refl }
sent-Keeps t (Awaited.transport_error status code) = record { keeps = λ g. refl }

loaded-Keeps : (o : Option Json) → Keeps (loaded o)
unfolding loaded
loaded-Keeps none = record { keeps = λ g. refl }
loaded-Keeps (some j) = record { keeps = λ g. refl }

normalized-Keeps : (t : Times) (r : Result NormalizeError Completion) → Keeps (normalized t r)
unfolding normalized
normalized-Keeps t (Result.ok c) = record { keeps = λ g. refl }
normalized-Keeps t (Result.err e) = record { keeps = λ g. refl }

observe-Keeps : (b : Bool) (r : ChatRequest) (c : Completion) → Keeps (observe b r c)
unfolding observe
observe-Keeps b r c = record { keeps = λ g. ground arith }

dispatch-Keeps : (env : Env) (r : ChatRequest) (o : Option String) → Keeps (dispatch env r o)
unfolding dispatch
dispatch-Keeps env r o =
    Keeps-bind (sent-Keeps env.times (env.send (materialize_provider_request r o))) λ body.
      Keeps-bind (loaded-Keeps (env.loads body)) λ raw.
        Keeps-bind
          (normalized-Keeps env.times (normalize_completion raw r.model env.created env.new_id))
          λ c.
            Keeps-bind {f = λ u. pure c} (observe-Keeps env.has_observer r c)
              λ u. record { keeps = λ g. refl }

run-Keeps : (env : Env) (r : ChatRequest) (mode : MemoryMode) → Keeps (run env r mode)
unfolding run
run-Keeps env r MemoryMode.active =
    Keeps-bind (inject_memory-Keeps env r) λ c. dispatch-Keeps env r (some c)
run-Keeps env r MemoryMode.off = dispatch-Keeps env r none
run-Keeps env r MemoryMode.planned = dispatch-Keeps env r none

with_permit-lem :
    (block : Exec Completion) (active : Bool) (a : DispatchAdmission) (g : Gate)
    → Keeps block
    → g.admission ≡ some a
    → (with_permit block (try_acquire active a) g).1.admission ≡ g.admission
unfolding with_permit
with_permit-lem block active a g k e = elim (Option-cases (try_acquire active a).0) [
  | inl full ↦ ground (arith, try_acquire-none active a)
  | inr (p, got) ↦ ground (
    arith,
    release-try_acquire active a p got,
    k.keeps (record g { admission = some (try_acquire active a).1 }),
  )
]

-- However a request ends (refused, failed in the injector, the provider, the parse or the
-- normalization, cancelled in any of them, or answered), the admission is then as it was before:
-- its slot, if it had one, has been given back exactly once.
pub admission-execute :
    (env : Env) (r : ChatRequest) (memory : MemoryPlan) (g : Gate)
    → (execute env r memory g).1.admission ≡ g.admission
unfolding execute
admission-execute env r memory g = elim (Bool-cases r.stream) [
  | inl stream ↦ rw stream
  | inr plain ↦ elim (Option-cases g.admission) [
    | inl unlimited ↦
        simp (plain, unlimited, admitted) ((run-Keeps env r memory.mode).keeps g ∙ unlimited)
    | inr (a, e) ↦
        simp (plain, e, admitted)
          (with_permit-lem (run env r memory.mode) (is_active memory.mode) a g
              (run-Keeps env r memory.mode) e
            ∙ e)
  ]
]

-- When no slot is free for it, the request fails as busy and changes nothing: no memory is read
-- and nothing is sent, observed or counted.
pub execute_busy :
    (env : Env) (r : ChatRequest) (memory : MemoryPlan) (g : Gate) (a : DispatchAdmission)
    → r.stream ≡ false
    → g.admission ≡ some a
    → (a.max_total ≤ a.current_total)
      ⊎ ((memory.mode ≡ MemoryMode.active) × (a.max_memory ≤ a.current_memory))
    → execute env r memory g ≡ (err provider_busy, g)
unfolding execute
execute_busy env r memory g a hs ha full =
    ground (arith, try_acquire-none (is_active memory.mode) a)
