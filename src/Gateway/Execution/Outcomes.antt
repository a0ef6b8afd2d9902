-- ===== src/Gateway/Execution/Outcomes.antt =====
-- What the answer of a request says of what happened to it.
use mnemostroma.Prelude.{
  String, ◌≡◌, refl, inl, inr, Bool, Option, none, some, arith, Bool-cases, if◌then◌else◌,
}
use mathlib.Core.Path.{subst, fun_ext}
use mnemostroma.Prelude.Result.{Result, ok, err}
use mnemostroma.Gateway.Json.{Json}
use mnemostroma.Gateway.Contracts.{ChatRequest, MemoryMode, MemoryPlan, ProviderRequest}
use mnemostroma.Gateway.Admission.{DispatchAdmission, DispatchPermit, try_acquire}
use mnemostroma.Gateway.Plans.{materialize_provider_request}
use mnemostroma.Gateway.Normalize.{NormalizeError, Completion, normalize_completion}
use mnemostroma.Gateway.Normalize.Stable.{IsStable, normalize-IsStable}
use mnemostroma.Gateway.Execution.{
  Awaited, ExecError, Env, Gate, Exec, ◌>>=◌, pure, inject_memory, sent, loaded, normalized,
  observe, dispatch, run, is_active, with_permit, admitted, execute,
}

-- A result that, when it is a value, comes with a property of it.
abbrev Gives {ℓ κ} : {A : Type ℓ} → (A → Type κ) → Result ExecError A → Type κ
Gives P (Result.ok a) = P a
Gives P (Result.err e) = Unit

-- Whatever `m` returns has the property.
record Returns {ℓ κ} {A : Type ℓ} (P : A → Type κ) (m : Exec A) : Type κ where
  gives : (g : Gate) → Gives P (m g).0

module _ {ℓ κ ι} {A : Type ℓ} {B : Type κ} {P : B → Type ι} where
  bind-Gives :
      (f : A → Exec B) (out : Result ExecError A × Gate)
      → ((a : A) → out.0 ≡ ok a → Returns P (f a))
      → Gives P (((λ g. out) >>= f) out.1).0
  bind-Gives f (Result.ok a, g) h = (h a refl).gives g
  bind-Gives f (Result.err e, g) h = tt

  Returns-bind :
      (m : Exec A) {f : A → Exec B}
      → ((a : A) (g : Gate) → (m g).0 ≡ ok a → Returns P (f a))
      → Returns P (m >>= f)
  Returns-bind m {f} h = record { gives = λ g. bind-Gives f (m g) λ a e. h a g e }

-- What the provider's answer must have been, for the completion `c` of the request `r`.
abbrev pub Answers : Env → ChatRequest → Option String → Completion → Type 0
Answers env r context c =
    (body : String) × (raw : Json) × (env.send (materialize_provider_request r context)
      ≡ Awaited.returned body)
    × (env.loads body ≡ some raw)
    × (normalize_completion raw r.model env.created env.new_id ≡ ok c)

sent_ok :
    (env : Env) (a : Awaited String) (body : String) (g : Gate)
    → (sent env.times a g).0 ≡ ok body
    → a ≡ Awaited.returned body
unfolding sent
sent_ok env (Awaited.returned b) body g h = ground arith
sent_ok env Awaited.cancelled body g h = cc
sent_ok env Awaited.raised body g h = cc
sent_ok env (Awaited.transport_error status code) body g h = cc

loaded_ok : (o : Option Json) (raw : Json) (g : Gate) → (loaded o g).0 ≡ ok raw → o ≡ some raw
unfolding loaded
loaded_ok none raw g h = cc
loaded_ok (some j) raw g h = ground arith

normalized_ok :
    (env : Env) (o : Result NormalizeError Completion) (c : Completion) (g : Gate)
    → (normalized env.times o g).0 ≡ ok c
    → o ≡ ok c
unfolding normalized
normalized_ok env (Result.ok d) c g h = ground arith
normalized_ok env (Result.err e) c g h = cc

observe_ok : (b : Bool) (r : ChatRequest) (c : Completion) (g : Gate) → (observe b r c g).0 ≡ ok tt
unfolding observe
observe_ok b r c g = ground arith

dispatch-Returns :
    (env : Env) (r : ChatRequest) (context : Option String)
    → Returns (Answers env r context) (dispatch env r context)
unfolding dispatch
dispatch-Returns env r context =
    Returns-bind (sent env.times (env.send (materialize_provider_request r context))) λ body g e.
      Returns-bind (loaded (env.loads body)) λ raw g1 e1.
        Returns-bind
          (normalized env.times (normalize_completion raw r.model env.created env.new_id))
          λ c g2 e2. Returns-bind (observe env.has_observer r c) {f = λ u. pure c} λ u g3 e3.
            record {
              gives = λ g4. (
                body,
                raw,
                sent_ok env _ body g e,
                loaded_ok _ raw g1 e1,
                normalized_ok env _ c g2 e2,
              );
            }

-- Where the context of a request of the given mode comes from.
abbrev pub IsContext : Env → ChatRequest → MemoryMode → Option String → Type 0
IsContext env r MemoryMode.active context =
    (s : String) × (context ≡ some s) × ((g : Gate) × ((inject_memory env r g).0 ≡ ok s))
IsContext env r MemoryMode.off context = context ≡ none
IsContext env r MemoryMode.planned context = context ≡ none

abbrev pub IsAnswered : Env → ChatRequest → MemoryMode → Completion → Type 0
IsAnswered env r mode c =
    (context : Option String) × IsContext env r mode context × Answers env r context c

Gives-map {ℓ κ ι} :
    {A : Type ℓ} {P : A → Type κ} {Q : A → Type ι} (o : Result ExecError A)
    → ((a : A) → P a → Q a)
    → Gives P o
    → Gives Q o
Gives-map (Result.ok a) f p = f a p
Gives-map (Result.err e) f p = tt

run-Returns :
    (env : Env) (r : ChatRequest) (mode : MemoryMode)
    → Returns (IsAnswered env r mode) (run env r mode)
unfolding run
run-Returns env r MemoryMode.active =
    Returns-bind (inject_memory env r) {f = λ s. dispatch env r (some s)} λ s g e. record {
      gives = λ g1.
          Gives-map (dispatch env r (some s) g1).0 (λ c h. (some s, (s, refl, (g, e)), h))
            ((dispatch-Returns env r (some s)).gives g1);
    }
run-Returns env r MemoryMode.off = record {
  gives = λ g.
      Gives-map (dispatch env r none g).0 (λ c h. (none, refl, h))
        ((dispatch-Returns env r none).gives g);
}
run-Returns env r MemoryMode.planned = record {
  gives = λ g.
      Gives-map (dispatch env r none g).0 (λ c h. (none, refl, h))
        ((dispatch-Returns env r none).gives g);
}

Gives-ok {ℓ κ} :
    {A : Type ℓ} (P : A → Type κ) {o : Result ExecError A} {a : A} → o ≡ ok a → Gives P o → P a
Gives-ok P e h = subst (Gives P) e h

with_permit-Gives :
    {P : Completion → Type 0} (block : Exec Completion)
    (o : Option DispatchPermit × DispatchAdmission) (g : Gate)
    → Returns P block
    → Gives P (with_permit block o g).0
unfolding with_permit
with_permit-Gives block (none, a) g h = tt
with_permit-Gives block (some p, a) g h = h.gives (record g { admission = some a })

admitted-Gives :
    {P : Completion → Type 0} (block : Exec Completion) (active : Bool)
    (a : Option DispatchAdmission) (g : Gate)
    → Returns P block
    → Gives P (admitted block active a g).0
unfolding admitted
admitted-Gives block active none g h = h.gives g
admitted-Gives block active (some a) g h = with_permit-Gives block (try_acquire active a) g h

execute-Gives :
    (env : Env) (r : ChatRequest) (memory : MemoryPlan) (g : Gate)
    → Gives (IsAnswered env r memory.mode) (execute env r memory g).0
unfolding execute
execute-Gives env r memory g = elim (Bool-cases r.stream) [
  | inl stream ↦ simp (stream, if◌then◌else◌) tt
  | inr plain ↦
      simp (plain, if◌then◌else◌)
        (admitted-Gives (run env r memory.mode) (is_active memory.mode) g.admission g
          (run-Returns env r memory.mode))
]

-- A completion is answered only from what the provider sent back for the materialized request: it
-- normalizes the provider's JSON and is stable. With active memory that request carries a context
-- that the injection produced and validated, and in the other modes it carries none.
pub execute-IsAnswered :
    (env : Env) (r : ChatRequest) (memory : MemoryPlan) (g : Gate) (c : Completion)
    → (execute env r memory g).0 ≡ ok c
    → IsAnswered env r memory.mode c × IsStable r.model c
execute-IsAnswered env r memory g c h =
    let a = Gives-ok (IsAnswered env r memory.mode) h (execute-Gives env r memory g) in
    let (context, from, (body, raw, s, l, n)) = a in
    (a, normalize-IsStable raw r.model env.created env.new_id c n)

-- The injection of memory for this request raises, whatever else is going on.
abbrev pub NoMemory : Env → ChatRequest → Type 0
NoMemory env r = (g : Gate) → (e : ExecError) × ((inject_memory env r g).0 ≡ err e)

with_send : (ProviderRequest → Awaited String) → Env → Env
with_send send env = record env { send = send }

bind_err {ℓ κ} :
    {A : Type ℓ} {B : Type κ} (f f' : A → Exec B) (out : Result ExecError A × Gate) (e : ExecError)
    → out.0 ≡ err e
    → ((λ g. out) >>= f) out.1 ≡ ((λ g. out) >>= f') out.1
bind_err f f' (Result.ok a, g) e h = cc
bind_err f f' (Result.err d, g) e h = refl

run_closed :
    (env : Env) (send : ProviderRequest → Awaited String) (r : ChatRequest)
    → NoMemory env r
    → run (with_send send env) r MemoryMode.active ≡ run env r MemoryMode.active
unfolding run with_send inject_memory
run_closed env send r h = fun_ext λ g.
    bind_err (λ s. dispatch (with_send send env) r (some s)) (λ s. dispatch env r (some s))
      (inject_memory env r g) (h g).0 (h g).1

-- A request with active memory whose injection raises fails closed: the provider is not asked, so
-- that the result, and all that the request changes, are the same with any other provider.
pub execute_closed :
    (env : Env) (send : ProviderRequest → Awaited String) (r : ChatRequest) (memory : MemoryPlan)
    (g : Gate)
    → memory.mode ≡ MemoryMode.active
    → NoMemory env r
    → execute (record env { send = send }) r memory g ≡ execute env r memory g
unfolding execute with_send
execute_closed env send r memory g active h = rw (active, run_closed env send r h)
