-- ===== src/Gateway/Payload/Cleaned.antt =====
-- What cleaning does to a text, to a content and to the entry of a message.
use mnemostroma.Prelude.{
  ◌≡◌, refl, ◌∙◌, ap, Bool, true, false, not, Option, none, some, List, [], ◌∷◌, arith, ◌==◌,
  string_eq, if◌then◌else◌, select, any, All, Bool-cases, inl, inr, map,
}
use mnemostroma.Prelude.Result.{Result, ok, err, ◌>>=◌}
use mnemostroma.Gateway.Payload.{
  Text, Limits, CanonicalMessage, Entry, DispatchError, dispatch_error, is_control, is_empty,
  sanitize_text, sanitize_content, content_of, texts, present, entry_of, messages_to_openai_payload,
}

abbrev pub clean : Text → Text
clean t = select (λ c. not (is_control c)) t

-- No control character but tab, line feed and carriage return.
abbrev pub IsClean : Text → Type 0
IsClean t = All (λ c. is_control c ≡ false) t

pub clean-IsClean : (t : Text) → IsClean (clean t)
clean-IsClean [] = tt
clean-IsClean (c ∷ t) = elim (Bool-cases (is_control c)) [
  | inl e ↦ rw e (clean-IsClean t)
  | inr e ↦ rw e (e, clean-IsClean t)
]

-- Control characters are stripped.
pub record IsStripping (limits : Limits) : Type 0 where
  pub on : limits.sanitize_control_chars ≡ true
  pub not_passed : (limits.sanitize_policy == "pass") ≡ false
  pub not_refused : (limits.sanitize_policy == "error") ≡ false

-- A text with a control character is refused.
pub record IsStrict (limits : Limits) : Type 0 where
  pub on : limits.sanitize_control_chars ≡ true
  pub refused : limits.sanitize_policy ≡ "error"

pub sanitize_text-strips :
    (limits : Limits) (t : Text) → IsStripping limits → sanitize_text limits t ≡ ok (clean t)
unfolding sanitize_text
sanitize_text-strips limits t h = rw h.on (rw h.not_passed (rw h.not_refused refl))

clean-same : (t : Text) → any is_control t ≡ false → clean t ≡ t
clean-same [] h = refl
clean-same (c ∷ t) h =
    let first : is_control c ≡ false = ground (arith, h) in
    let others : any is_control t ≡ false = ground (arith, h) in
    rw first (ap (λ u. c ∷ u) (clean-same t others))

-- What a strict cleaning answers.
abbrev pub strict {ℓ} : {A : Type ℓ} → Bool → A → Result DispatchError A
strict refused a = if refused then err (dispatch_error 400) else ok a

pub sanitize_text-strict :
    (limits : Limits) (t : Text)
    → IsStrict limits
    → sanitize_text limits t ≡ strict (any is_control t) t
unfolding sanitize_text
sanitize_text-strict limits t h = rw h.on (
    rw h.refused (elim (Bool-cases (any is_control t)) [
      | inl e ↦ rw e refl
      | inr e ↦ rw e (ap ok (clean-same t e))
    ]))

abbrev pub clean_content : Option Text → Option Text
clean_content none = none
clean_content (some t) = some (clean t)

abbrev pub has_control : Option Text → Bool
has_control none = false
has_control (some t) = any is_control t

sanitize_content-strips :
    (limits : Limits) (o : Option Text)
    → IsStripping limits
    → sanitize_content limits o ≡ ok (clean_content o)
unfolding sanitize_content is_empty
sanitize_content-strips limits none h = refl
sanitize_content-strips limits (some []) h = refl
sanitize_content-strips limits (some (c ∷ t)) h =
    ap (λ r. r >>= λ u. ok (some u)) (sanitize_text-strips limits (c ∷ t) h)

strict-some : (b : Bool) (t : Text) → (strict b t >>= λ u. ok (some u)) ≡ strict b (some t)
strict-some true t = refl
strict-some false t = refl

sanitize_content-strict :
    (limits : Limits) (o : Option Text)
    → IsStrict limits
    → sanitize_content limits o ≡ strict (has_control o) o
unfolding sanitize_content is_empty
sanitize_content-strict limits none h = refl
sanitize_content-strict limits (some []) h = refl
sanitize_content-strict limits (some (c ∷ t)) h =
    ap (λ r. r >>= λ u. ok (some u)) (sanitize_text-strict limits (c ∷ t) h)
    ∙ strict-some (any is_control (c ∷ t)) (c ∷ t)

module _ {ℓ} {J : Type ℓ} where
  -- The entry of a message, with its content changed by a function.
  abbrev pub entry_by : (Option Text → Option Text) → CanonicalMessage J → Entry J
  entry_by f m = record {
    role = m.role;
    content = f (content_of (texts m.parts));
    tool_call_id = present m.tool_call_id;
    tool_calls = m.tool_calls;
  }

  pub messages-strips :
      (limits : Limits) (ms : List (CanonicalMessage J))
      → IsStripping limits
      → messages_to_openai_payload limits ms ≡ ok (map (entry_by clean_content) ms)
  unfolding messages_to_openai_payload entry_of
  messages-strips limits [] h = refl
  messages-strips limits (m ∷ ms) h =
      rw (sanitize_content-strips limits (content_of (texts m.parts)) h)
        (rw (messages-strips limits ms h) refl)

  -- Some message has a text with a control character.
  abbrev pub is_refused : CanonicalMessage J → Bool
  is_refused m = has_control (content_of (texts m.parts))

  pub messages-strict :
      (limits : Limits) (ms : List (CanonicalMessage J))
      → IsStrict limits
      → messages_to_openai_payload limits ms
        ≡ strict (any is_refused ms) (map (entry_by (λ o. o)) ms)
  unfolding messages_to_openai_payload entry_of
  messages-strict limits [] h = refl
  messages-strict limits (m ∷ ms) h =
      rw (sanitize_content-strict limits (content_of (texts m.parts)) h) (
        rw (messages-strict limits ms h) (elim (Bool-cases (is_refused m)) [
          | inl e ↦ rw e refl
          | inr e ↦
              rw e (elim (Bool-cases (any is_refused ms)) [ inl e ↦ rw e refl | inr e ↦ rw e refl ])
        ]))
