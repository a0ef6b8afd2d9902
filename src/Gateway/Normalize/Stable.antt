-- ===== src/Gateway/Normalize/Stable.antt =====
-- What a normalized completion is, and that normalizing it again changes nothing.
use mathlib.Core.Path.{subst, sym}
use mnemostroma.Prelude.{
  ℕ, ◌+◌, ◌≤◌, String, ◌≡◌, refl, inl, inr, true, false, Option, none, some, arith, contains,
  string_eq, Bool-cases,
}
use mnemostroma.Prelude.Result.{ok, Result-cases}
use mnemostroma.Prelude.Text.{is_blank, has_nul, len}
use mnemostroma.Gateway.Json.{Json, Fields, get_field, get_or_null}
use mnemostroma.Gateway.Normalize.{
  content_cap, allowed_finish_reasons, no_get, choice_not_object, no_message, Completion, as_object,
  first_choice, check_content, finish_reason_of, token_count, usage_field, amount,
  normalize_completion, to_json,
}

-- A count that the gateway hands on: an int that is not negative, or a bool.
abbrev pub IsCount : Json → Type 0
IsCount (Json.int _) = Unit
IsCount (Json.bool _) = Unit
IsCount _ = ⊥

-- A completion that the gateway may return for the model `m`.
pub record IsStable (m : String) (c : Completion) : Type 0 where
  pub model : c.model ≡ m
  pub present : is_blank c.content ≡ false
  pub clean : has_nul c.content ≡ false
  pub fits : len c.content ≤ content_cap
  pub finish : contains c.finish_reason allowed_finish_reasons ≡ true
  pub prompt : IsCount c.prompt_tokens
  pub completion : IsCount c.completion_tokens
  pub total : c.total_tokens ≡ amount c.prompt_tokens + amount c.completion_tokens

token_count-IsCount : (o : Option Json) → IsCount (token_count o)
unfolding token_count
token_count-IsCount none = tt
token_count-IsCount (some Json.null) = tt
token_count-IsCount (some (Json.bool b)) = tt
token_count-IsCount (some (Json.int n)) = tt
token_count-IsCount (some _) = tt

usage_field-IsCount : (k : String) (j : Json) → IsCount (usage_field k j)
unfolding usage_field
usage_field-IsCount k (Json.obj fs) = token_count-IsCount (get_field k fs)
usage_field-IsCount k _ = tt

check_content_lem :
    (j : Json) (s : String)
    → check_content j ≡ ok s
    → (j ≡ Json.str s) × (is_blank s ≡ false) × (has_nul s ≡ false) × (len s ≤ content_cap)
unfolding check_content
check_content_lem (Json.str t) s h = ground arith
check_content_lem _ s h = cc

finish_reason_of_lem :
    (j : Json) (s : String) → finish_reason_of j ≡ ok s → contains s allowed_finish_reasons ≡ true
unfolding finish_reason_of
finish_reason_of_lem (Json.str t) s h = elim (Bool-cases (contains t allowed_finish_reasons)) [
  | inl allowed ↦
      let e : t ≡ s = ground arith in
      subst (λ r. contains r allowed_finish_reasons ≡ true) e allowed
  | inr other ↦
      let e : ◌≡◌ {A = String} "stop" s = ground arith in
      subst (λ r. contains r allowed_finish_reasons ≡ true) e refl
]
finish_reason_of_lem _ s h =
    let e : ◌≡◌ {A = String} "stop" s = ground arith in
    subst (λ r. contains r allowed_finish_reasons ≡ true) e refl

-- The parts of the body that a successful run has read.
record Parts (body : Json) (c : Completion) : Type 0 where
  pub fs : Fields
  pub finish_json : Json
  pub content_json : Json
  pub content_ok : check_content content_json ≡ ok c.content
  pub finish_ok : finish_reason_of finish_json ≡ ok c.finish_reason
  pub prompt_eq : c.prompt_tokens ≡ usage_field "prompt_tokens" (get_or_null "usage" fs)
  pub completion_eq : c.completion_tokens ≡ usage_field "completion_tokens" (get_or_null "usage" fs)
  pub total_eq : c.total_tokens ≡ amount c.prompt_tokens + amount c.completion_tokens

normalize-Parts :
    (body : Json) (model : String) (clock : ℕ) (id : String) (c : Completion)
    → normalize_completion body model clock id ≡ ok c
    → Parts body c × (c.model ≡ model) × (c.id ≡ id) × (c.created ≡ clock)
unfolding normalize_completion
normalize-Parts body model clock id c h = elim (Result-cases (as_object no_get body)) [
  | inr failed ↦ ground arith
  | inl (fs, h0) ↦ elim (Result-cases (first_choice (get_or_null "choices" fs))) [
    | inr failed ↦ ground arith
    | inl (choice, h1) ↦ elim (Result-cases (as_object choice_not_object choice)) [
      | inr failed ↦ ground arith
      | inl (ch, h2) ↦ elim (Result-cases (as_object no_message (get_or_null "message" ch))) [
        | inr failed ↦ ground arith
        | inl (msg, h3) ↦ elim (Result-cases (check_content (get_or_null "content" msg))) [
          | inr failed ↦ ground arith
          | inl (content, h4) ↦
              elim (Result-cases (finish_reason_of (get_or_null "finish_reason" ch))) [
                | inr failed ↦ ground arith
                | inl (finish, h5) ↦ (
                  record {
                    fs = fs;
                    finish_json = get_or_null "finish_reason" ch;
                    content_json = get_or_null "content" msg;
                    content_ok = ground arith;
                    finish_ok = ground arith;
                    prompt_eq = ground arith;
                    completion_eq = ground arith;
                    total_eq = ground arith;
                  },
                  ground arith,
                  ground arith,
                  ground arith,
                )
              ]
        ]
      ]
    ]
  ]
]

-- Whatever the provider sends, a completion that is returned is for the requested model, has a
-- content that is not blank, holds no NUL and is within the cap, an allowed finish reason, token
-- counts that are non-negative ints or bools, and their sum as the total.
pub normalize-IsStable :
    (body : Json) (model : String) (clock : ℕ) (id : String) (c : Completion)
    → normalize_completion body model clock id ≡ ok c
    → IsStable model c
normalize-IsStable body model clock id c h =
    let (p, m, i, t) = normalize-Parts body model clock id c h in
    let content = check_content_lem p.content_json c.content p.content_ok in
    record {
      model = m;
      present = content.1;
      clean = content.2;
      fits = content.3;
      finish = finish_reason_of_lem p.finish_json c.finish_reason p.finish_ok;
      prompt =
          subst IsCount (sym p.prompt_eq)
            (usage_field-IsCount "prompt_tokens" (get_or_null "usage" p.fs));
      completion =
          subst IsCount (sym p.completion_eq)
            (usage_field-IsCount "completion_tokens" (get_or_null "usage" p.fs));
      total = p.total_eq;
    }

token_count_count : (j : Json) → IsCount j → token_count (some j) ≡ j
unfolding token_count
token_count_count (Json.int n) h = refl
token_count_count (Json.bool b) h = refl
token_count_count _ h = absurd h

-- Normalizing is stable: a completion that may be returned, sent through the normalizer again
-- with the same clock and id, comes back as it is.
pub normalize-to_json :
    (m : String) (c : Completion)
    → IsStable m c
    → normalize_completion (to_json c) m c.created c.id ≡ ok c
unfolding normalize_completion as_object first_choice check_content finish_reason_of usage_field
normalize-to_json m c h = ground (
  arith,
  token_count_count c.prompt_tokens h.prompt,
  token_count_count c.completion_tokens h.completion,
)
