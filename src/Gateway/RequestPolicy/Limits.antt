-- ===== src/Gateway/RequestPolicy/Limits.antt =====
-- Soundness of the request policy: what an accepted request is.
use mnemostroma.Prelude.{
  ℕ, ◌+◌, ◌≤◌, String, ◌≡◌, refl, inl, inr, true, false, none, List, [], ◌∷◌, ◌++◌, arith, ◌==◌,
  string_eq, ==_iff, leb, if◌then◌else◌, length, length-append, contains, any, All, concat,
}
use mathlib.Core.List.{append-nil, append_assoc}
use mathlib.Core.Path.{subst}
use mnemostroma.Prelude.Result.{ok, err, Result-cases}
use mnemostroma.Prelude.Text.{is_blank, has_nul, len}
use mnemostroma.Gateway.Json.{Json, Items, nil, cons, Fields, get_field, get_or_null, keys_within}
use mnemostroma.Gateway.Contracts.{ChatMessage, ChatRequest}
use mnemostroma.Gateway.RequestPolicy.{
  max_messages, max_model_length, max_message_content, max_total_content, max_system_messages,
  max_user_messages, max_assistant_messages, allowed_roles, read_bounded_body, body_too_large,
  Tally, no_messages, add_message, check_model, check_role, check_content, check_message,
  check_messages, items_length, check_list, check_totals, check_stream, validate_chat_request,
  is_user,
}

-- A text that is not blank, holds no NUL and is at most `cap` characters long.
pub record IsText (cap : ℕ) (s : String) : Type 0 where
  pub present : is_blank s ≡ false
  pub clean : has_nul s ≡ false
  pub fits : len s ≤ cap

pub record IsMessage (m : ChatMessage) : Type 0 where
  pub role_allowed : contains m.role allowed_roles ≡ true
  pub text : IsText max_message_content m.content

abbrev pub count_role : String → List ChatMessage → ℕ
count_role r [] = 0
count_role r (m ∷ ms) = (if m.role == r then 1 else 0) + count_role r ms

abbrev pub content_length : List ChatMessage → ℕ
content_length [] = 0
content_length (m ∷ ms) = len m.content + content_length ms

pub record IsWithinLimits (r : ChatRequest) : Type 0 where
  pub model_text : IsText max_model_length r.model
  pub some_message : 1 ≤ length r.messages
  pub few_messages : length r.messages ≤ max_messages
  pub every_message : All IsMessage r.messages
  pub system_bound : count_role "system" r.messages ≤ max_system_messages
  pub user_bound : count_role "user" r.messages ≤ max_user_messages
  pub assistant_bound : count_role "assistant" r.messages ≤ max_assistant_messages
  pub content_bound : content_length r.messages ≤ max_total_content
  pub has_user : any is_user r.messages ≡ true
  pub not_stream : r.stream ≡ false
  pub no_temperature : r.temperature ≡ none
  pub no_max_tokens : r.max_tokens ≡ none

-- The message is read off the fields of the object at its place.
abbrev pub Reads : Items → List ChatMessage → Type 0
Reads nil [] = Unit
Reads nil (_ ∷ _) = ⊥
Reads (cons _ _) [] = ⊥
Reads (cons raw rest) (m ∷ ms) =
    ((fs : Fields) × (raw ≡ Json.obj fs)
      × (get_or_null "role" fs ≡ Json.str m.role)
      × (get_or_null "content" fs ≡ Json.str m.content)
      × (keys_within ("role" ∷ "content" ∷ []) fs ≡ true))
    × Reads rest ms

check_role-IsAllowed :
    (i : ℕ) (j : Json) (role : String)
    → check_role i j ≡ ok role
    → (j ≡ Json.str role) × (contains role allowed_roles ≡ true)
unfolding check_role
check_role-IsAllowed i (Json.str s) role h = ground arith
check_role-IsAllowed i _ role h = cc

check_content-IsText :
    (i : ℕ) (j : Json) (content : String)
    → check_content i j ≡ ok content
    → (j ≡ Json.str content) × IsText max_message_content content
unfolding check_content
check_content-IsText i (Json.str s) content h = ground arith
check_content-IsText i _ content h = cc

check_model-IsText :
    (j : Json) (model : String)
    → check_model j ≡ ok model
    → (j ≡ Json.str model) × IsText max_model_length model
unfolding check_model
check_model-IsText (Json.str s) model h = ground arith
check_model-IsText _ model h = cc

-- What reading one message off an object has established.
abbrev ReadsOne : Json → ChatMessage → Type 0
ReadsOne raw m =
    (fs : Fields) × (raw ≡ Json.obj fs)
    × (get_or_null "role" fs ≡ Json.str m.role)
    × (get_or_null "content" fs ≡ Json.str m.content)
    × (keys_within ("role" ∷ "content" ∷ []) fs ≡ true)

check_message-IsMessage :
    (i : ℕ) (j : Json) (m : ChatMessage) → check_message i j ≡ ok m → ReadsOne j m × IsMessage m
unfolding check_message
check_message-IsMessage i (Json.obj fs) m h =
    elim (Result-cases (check_role i (get_or_null "role" fs))) [
      | inr failed ↦ ground arith
      | inl (role, hr) ↦ elim (Result-cases (check_content i (get_or_null "content" fs))) [
        | inr failed ↦ ground arith
        | inl (content, hc) ↦
            let r = check_role-IsAllowed i (get_or_null "role" fs) role hr in
            let c = check_content-IsText i (get_or_null "content" fs) content hc in
            ((fs, refl, ground arith, ground arith, ground arith), ground arith)
      ]
    ]
check_message-IsMessage i _ m h = cc

-- The roles exclude one another.
not_user : (r : String) → (r == "system") ≡ true → (r == "user") ≡ false
not_user r h = rw ((==_iff r "system").0 h)

not_assistant_of_system : (r : String) → (r == "system") ≡ true → (r == "assistant") ≡ false
not_assistant_of_system r h = rw ((==_iff r "system").0 h)

not_assistant_of_user : (r : String) → (r == "user") ≡ true → (r == "assistant") ≡ false
not_assistant_of_user r h = rw ((==_iff r "user").0 h)

pub add_message_lem :
    (m : ChatMessage) (t : Tally)
    → ((add_message m t).system_count ≡ t.system_count + (if m.role == "system" then 1 else 0))
      × ((add_message m t).user_count ≡ t.user_count + (if m.role == "user" then 1 else 0))
      × ((add_message m t).assistant_count
          ≡ t.assistant_count + (if m.role == "assistant" then 1 else 0))
      × ((add_message m t).total_content ≡ t.total_content + len m.content)
unfolding add_message
add_message_lem m t =
    ground (arith, not_user m.role, not_assistant_of_system m.role, not_assistant_of_user m.role)

-- The loop keeps the messages in order, and its variables are the counts of what it has read.
check_messages_lem :
    (i : ℕ) (raw : Items) (t : Tally) (parsed : List ChatMessage) (t' : Tally)
    → check_messages i raw t ≡ ok (parsed, t')
    → Reads raw parsed
      × All IsMessage parsed
      × (length parsed ≡ items_length raw)
      × (t'.system_count ≡ t.system_count + count_role "system" parsed)
      × (t'.user_count ≡ t.user_count + count_role "user" parsed)
      × (t'.assistant_count ≡ t.assistant_count + count_role "assistant" parsed)
      × (t'.total_content ≡ t.total_content + content_length parsed)
unfolding check_messages items_length
check_messages_lem i nil t [] t' h = ground arith
check_messages_lem i nil t (p ∷ ps) t' h = ground arith
check_messages_lem i (cons j rest) t [] t' h = elim (Result-cases (check_message i j)) [
  | inr failed ↦ ground arith
  | inl (m, hm) ↦ elim (Result-cases (check_messages (i + 1) rest (add_message m t))) [
    | inr failed ↦ ground arith
    | inl more ↦ ground arith
  ]
]
check_messages_lem i (cons j rest) t (p ∷ ps) t' h = elim (Result-cases (check_message i j)) [
  | inr failed ↦ ground arith
  | inl (m, hm) ↦ elim (Result-cases (check_messages (i + 1) rest (add_message m t))) [
    | inr failed ↦ ground arith
    | inl ((ms, t2), hr) ↦
        let same : (p ≡ m) × (ps ≡ ms) × (t' ≡ t2) = ground arith in
        ground (
          arith,
          same,
          add_message_lem m t,
          check_message-IsMessage i j p,
          check_messages_lem (i + 1) rest (add_message m t) ps t',
        )
  ]
]

check_list_lem :
    (j : Json) (raw : Items)
    → check_list j ≡ ok raw
    → (j ≡ Json.arr raw) × (1 ≤ items_length raw) × (items_length raw ≤ max_messages)
unfolding check_list
check_list_lem (Json.arr nil) raw h = cc
check_list_lem (Json.arr (cons m rest)) raw h = ground arith
check_list_lem _ raw h = cc

-- The tests after the loop, on counts that are those of the messages.
check_totals_lem :
    (t : Tally) (parsed : List ChatMessage)
    → check_totals t parsed ≡ ok tt
    → (t.system_count ≤ max_system_messages)
      × (t.user_count ≤ max_user_messages)
      × (t.assistant_count ≤ max_assistant_messages)
      × (t.total_content ≤ max_total_content)
      × (any is_user parsed ≡ true)
unfolding check_totals
check_totals_lem t parsed h = ground arith

-- An accepted request is within every limit of the policy, and its messages are those of the
-- body, in order: each has the role and the content of an object with no other field.
pub validate-IsWithinLimits :
    (body : Fields) (r : ChatRequest)
    → validate_chat_request body ≡ ok r
    → IsWithinLimits r
      × ((raw : Items) × (get_or_null "messages" body ≡ Json.arr raw) × Reads raw r.messages)
      × (get_or_null "model" body ≡ Json.str r.model)
unfolding validate_chat_request
validate-IsWithinLimits body r h = elim (Result-cases (check_model (get_or_null "model" body))) [
  | inr failed ↦ ground arith
  | inl (model, hm) ↦ elim (Result-cases (check_list (get_or_null "messages" body))) [
    | inr failed ↦ ground arith
    | inl (raw, hl) ↦ elim (Result-cases (check_messages 0 raw no_messages)) [
      | inr failed ↦ ground arith
      | inl ((parsed, t), hc) ↦ elim (Result-cases (check_totals t parsed)) [
        | inr failed ↦ ground arith
        | inl (u, ht) ↦ elim (Result-cases (check_stream (get_field "stream" body))) [
          | inr failed ↦ ground arith
          | inl (v, hs) ↦
              let l = check_list_lem (get_or_null "messages" body) raw hl in
              let c = check_messages_lem 0 raw no_messages parsed t hc in
              let n = check_totals_lem t parsed ht in
              let m = check_model-IsText (get_or_null "model" body) model hm in
              let same : parsed ≡ r.messages = ground arith in
              (
                record {
                  model_text = ground (arith, m);
                  some_message = ground (arith, l, c);
                  few_messages = ground (arith, l, c);
                  every_message = subst (All IsMessage) same c.1;
                  system_bound = ground (arith, c, n);
                  user_bound = ground (arith, c, n);
                  assistant_bound = ground (arith, c, n);
                  content_bound = ground (arith, c, n);
                  has_user = subst (λ ms. any is_user ms ≡ true) same n.4;
                  not_stream = ground arith;
                  no_temperature = ground arith;
                  no_max_tokens = ground arith;
                },
                (raw, l.0, subst (Reads raw) same c.0),
                ground (arith, m),
              )
        ]
      ]
    ]
  ]
]

-- The body is read to its end only if its chunks together are within the limit, and then it is
-- their concatenation; a longer body is refused.
pub read_bounded_body_lem :
    (max_bytes : ℕ) (chunks : List (List ℕ)) (total : ℕ) (joined : List ℕ)
    → total ≡ length joined
    → total ≤ max_bytes
    → read_bounded_body max_bytes total joined chunks ≡ (
        if leb (length (joined ++ concat chunks)) max_bytes
        then ok (joined ++ concat chunks)
        else err body_too_large)
unfolding read_bounded_body
read_bounded_body_lem max_bytes [] total joined e h = rw append-nil (ground arith)
read_bounded_body_lem max_bytes (chunk ∷ rest) total joined e h = ground (
  arith,
  append_assoc joined chunk (concat rest),
  length-append joined chunk,
  length-append (joined ++ chunk) (concat rest),
  read_bounded_body_lem max_bytes rest (total + length chunk) (joined ++ chunk),
)
