-- ===== src/Gateway/Plans/Injection.antt =====
-- What a plan says of a request, and where the memory goes.
use mnemostroma.Prelude.{
  ℕ, zero, suc, ◌+◌, String, ◌≡◌, refl, ◌≢◌, Bool, true, false, Option, none, some, is_some, List,
  [], ◌∷◌, ◌++◌, arith, ◌==◌, string_eq, ==_iff, ap, if◌then◌else◌, any, All, take, drop,
  Bool-cases, inl, inr,
}
use mnemostroma.Gateway.Contracts.{ChatMessage, ChatRequest, MemoryMode, MemoryPlan}
use mnemostroma.Gateway.Plans.{
  last_user_from, build_memory_plan, insert_at, materialize_provider_request,
}

abbrev pub is_user : ChatMessage → Bool
is_user m = m.role == "user"

-- Message `i` is from the user, and no later one is.
abbrev pub IsLastUser : List ChatMessage → ℕ → Type 0
IsLastUser [] i = ⊥
IsLastUser (m ∷ ms) zero = (is_user m ≡ true) × (any is_user ms ≡ false)
IsLastUser (m ∷ ms) (suc i) = IsLastUser ms i

last_user_from-none :
    (i : ℕ) (ms : List ChatMessage) (o : Option ℕ)
    → any is_user ms ≡ false
    → last_user_from i ms o ≡ o
unfolding last_user_from
last_user_from-none i [] o h = refl
last_user_from-none i (m ∷ ms) o h = ground (arith, last_user_from-none (i + 1) ms o)

last_user_from-some :
    (i : ℕ) (ms : List ChatMessage) (o : Option ℕ)
    → any is_user ms ≡ true
    → (k : ℕ) × (last_user_from i ms o ≡ some (i + k)) × IsLastUser ms k
unfolding last_user_from
last_user_from-some i [] o h = cc
last_user_from-some i (m ∷ ms) o h = elim (Bool-cases (any is_user ms)) [
  | inl later ↦
      let (k, e, l) =
        last_user_from-some (i + 1) ms (if m.role == "user" then some i else o) later in
      (suc k, ground arith, l)
  | inr last ↦
      let e = last_user_from-none (i + 1) ms (if m.role == "user" then some i else o) last in
      (0, ground arith, ground arith)
]

-- What the index of a plan says of the messages.
abbrev pub IsSource : List ChatMessage → Option ℕ → Type 0
IsSource ms none = any is_user ms ≡ false
IsSource ms (some k) = IsLastUser ms k

last_user_from-IsSource : (ms : List ChatMessage) → IsSource ms (last_user_from 0 ms none)
last_user_from-IsSource ms = elim (Bool-cases (any is_user ms)) [
  | inl found ↦
      let (k, e, l) = last_user_from-some 0 ms none found in
      let e' : last_user_from 0 ms none ≡ some k = ground arith in rw e' l
  | inr missing ↦ rw (last_user_from-none 0 ms none missing) missing
]

abbrev pub IsPlanFor : ChatRequest → Option ℕ → MemoryMode → MemoryPlan → Type 0
IsPlanFor r t MemoryMode.off p =
    (p.mode ≡ MemoryMode.off) × (p.would_inject ≡ false) × (p.source_message_index ≡ none)
IsPlanFor r t mode p =
    (p.mode ≡ mode)
    × (p.would_inject ≡ any is_user r.messages)
    × IsSource r.messages p.source_message_index
    × (p.max_tokens ≡ t)

is_some-IsSource :
    (ms : List ChatMessage) (o : Option ℕ) → IsSource ms o → is_some o ≡ any is_user ms
is_some-IsSource ms none h = ground arith
is_some-IsSource [] (some k) h = absurd h
is_some-IsSource (m ∷ ms) (some zero) h = ground arith
is_some-IsSource (m ∷ ms) (some (suc k)) h = ground (arith, is_some-IsSource ms (some k) h)

-- With memory off the plan has no source and injects nothing. With memory planned or active it
-- would inject exactly when some message is from the user, its source is then the last such
-- message, and it carries the configured token limit.
pub build_memory_plan-IsPlanFor :
    (r : ChatRequest) (mode : MemoryMode) (max_tokens : Option ℕ)
    → IsPlanFor r max_tokens mode (build_memory_plan r mode max_tokens)
unfolding build_memory_plan
build_memory_plan-IsPlanFor r MemoryMode.off t = ground arith
build_memory_plan-IsPlanFor r MemoryMode.planned t =
    let source = last_user_from-IsSource r.messages in
    (refl, is_some-IsSource r.messages (last_user_from 0 r.messages none) source, source, refl)
build_memory_plan-IsPlanFor r MemoryMode.active t =
    let source = last_user_from-IsSource r.messages in
    (refl, is_some-IsSource r.messages (last_user_from 0 r.messages none) source, source, refl)

abbrev pub IsSystem : ChatMessage → Type 0
IsSystem m = m.role ≡ "system"

abbrev pub StartsOther : List ChatMessage → Type 0
StartsOther [] = Unit
StartsOther (m ∷ ms) = m.role ≢ "system"

-- `ms` with its leading system messages apart.
record IsSplit (ms pre post : List ChatMessage) : Type 0 where
  pub whole : ms ≡ pre ++ post
  pub system : All IsSystem pre
  pub other : StartsOther post

insert_at-IsSplit :
    (ms : List ChatMessage) → IsSplit ms (take (insert_at ms) ms) (drop (insert_at ms) ms)
unfolding insert_at
insert_at-IsSplit [] = record { whole = refl; system = tt; other = tt }
insert_at-IsSplit (m ∷ ms) = elim (Bool-cases (m.role == "system")) [
  | inl system ↦
      let e : insert_at (m ∷ ms) ≡ suc (insert_at ms) = ground arith in
      let ih = insert_at-IsSplit ms in
      rw e (record {
        whole = ap (λ r. m ∷ r) ih.whole;
        system = ((==_iff m.role "system").0 system, ih.system);
        other = ih.other;
      })
  | inr other ↦
      let e : insert_at (m ∷ ms) ≡ 0 = ground arith in
      rw e
        (record { whole = refl; system = tt; other = λ h. ground (arith, ==_iff m.role "system") })
]

-- Injected memory becomes one system message, right behind the leading system messages: the
-- messages of the request are all there, in their order, and nothing else is.
pub materialize_inserts :
    (r : ChatRequest) (context : String)
    → (pre post : List ChatMessage) × (r.messages ≡ pre ++ post)
      × All IsSystem pre
      × StartsOther post
      × ((materialize_provider_request r (some context)).messages
          ≡ pre ++ record { role = "system"; content = context } ∷ post)
      × ((materialize_provider_request r (some context)).memory_injection ≡ "injected")
unfolding materialize_provider_request
materialize_inserts r context =
    let ms = r.messages in
    let split = insert_at-IsSplit ms in
    (
      take (insert_at ms) ms,
      drop (insert_at ms) ms,
      split.whole,
      split.system,
      split.other,
      refl,
      refl,
    )
