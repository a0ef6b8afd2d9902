-- ===== src/Gateway/Payload/Built.antt =====
-- The whole payload, when control characters are stripped and when they are refused.
use mnemostroma.Prelude.{
  ◌≡◌, refl, false, ◌||◌, Option, none, some, List, [], ◌∷◌, ◌++◌, take, any, All, All-take,
  Bool-cases, inl, inr, map,
}
use mnemostroma.Prelude.Result.{ok}
use mnemostroma.Gateway.Payload.{
  Text, Limits, CanonicalMessage, Entry, Request, Payload, is_control, is_empty, system_text,
  system_entry, build_payload, content_of, texts,
}
use mnemostroma.Gateway.Payload.Cleaned.{
  clean, IsClean, clean-IsClean, IsStripping, IsStrict, sanitize_text-strips, sanitize_text-strict,
  strict, clean_content, entry_by, is_refused, messages-strips, messages-strict,
}

abbrev IsCleanContent : Option Text → Type 0
IsCleanContent none = Unit
IsCleanContent (some t) = IsClean t

content-IsClean : (o : Option Text) → IsCleanContent (clean_content o)
content-IsClean none = tt
content-IsClean (some t) = clean-IsClean t

module _ {ℓ} {J : Type ℓ} where
  -- The payload of a request from the text of the system and the function on the contents.
  abbrev pub payload_by : Limits → Request J → Text → (Option Text → Option Text) → Payload J
  payload_by limits r system f = record {
    model = r.model;
    messages =
        system_entry (take limits.max_system_text_bytes system) ++ map (entry_by f) r.messages;
    stream = r.stream;
    tools = r.tools;
  }

  -- The content of a message, if there is one, is clean.
  abbrev pub IsCleanEntry : Entry J → Type 0
  IsCleanEntry e = IsCleanContent e.content

  entries-IsClean :
      (ms : List (CanonicalMessage J)) → All IsCleanEntry (map (entry_by clean_content) ms)
  entries-IsClean [] = tt
  entries-IsClean (m ∷ ms) = (content-IsClean (content_of (texts m.parts)), entries-IsClean ms)

  system_entry-IsClean :
      (t : Text) (es : List (Entry J))
      → IsClean t
      → All IsCleanEntry es
      → All IsCleanEntry (system_entry t ++ es)
  unfolding system_entry is_empty
  system_entry-IsClean [] es h g = g
  system_entry-IsClean (c ∷ t) es h g = (h, g)

  -- When control characters are stripped, a payload is built for every request, and never an error: at
  -- the front the text of the system, if there is any, cut to its limit; then an entry for each
  -- message, in order, with the texts of its parts joined and nothing removed but control
  -- characters. No content of the payload has a control character but tab, line feed and
  -- carriage return.
  pub build_payload_strips :
      (limits : Limits) (r : Request J) (memory : Option Text)
      → IsStripping limits
      → let p = payload_by limits r (clean (system_text r.system_parts memory)) clean_content in
        (build_payload limits r memory ≡ ok p) × All IsCleanEntry p.messages
  unfolding build_payload
  build_payload_strips limits r memory h =
      let system : Text = system_text r.system_parts memory in
      (
        rw (sanitize_text-strips limits system h) (rw (messages-strips limits r.messages h) refl),
        system_entry-IsClean (take limits.max_system_text_bytes (clean system))
            (map (entry_by clean_content) r.messages)
            (All-take (λ c. is_control c ≡ false) limits.max_system_text_bytes (clean system)
              (clean-IsClean system))
            (entries-IsClean r.messages),
      )

  -- When they are refused, the request fails with status 400 exactly when the text of the system or the
  -- joined text of some message has a control character, and otherwise every text goes out as it
  -- is, but for the cut of the text of the system.
  pub build_payload_refuses :
      (limits : Limits) (r : Request J) (memory : Option Text)
      → IsStrict limits
      → let system = system_text r.system_parts memory in
        build_payload limits r memory
        ≡ strict
            (any is_control system || any is_refused r.messages)
            (payload_by limits r system (λ o. o))
  unfolding build_payload
  build_payload_refuses limits r memory h =
      let system : Text = system_text r.system_parts memory in
      rw (sanitize_text-strict limits system h) (
        rw (messages-strict limits r.messages h) (elim (Bool-cases (any is_control system)) [
          | inl e ↦ rw e refl
          | inr e ↦ rw e (elim (Bool-cases (any is_refused r.messages)) [
            | inl e ↦ rw e refl
            | inr e ↦ rw e refl
          ])
        ]))
