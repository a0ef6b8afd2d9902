-- ===== src/Integration/Proxy/Injected.antt =====
-- What a prompt is given, and what an injection leaves in the proxy.
use mnemostroma.Prelude.{
  ℕ, ◌+◌, ◌≤◌, ◌≡◌, ◌≢◌, ◌∙◌, sym, ap, inl, inr, Bool, true, false, Option, none, some, List,
  String, arith, length, Bool-cases, if◌then◌else◌,
}
use mnemostroma.Prelude.Dict.{Dict}
use mnemostroma.Integration.Proxy.{
  Texts, Session, Urgency, StaticCache, Proxy, not_empty, is_empty, build_static_cache,
}

-- The three capped sections keep to their caps.
pub record IsCapped (c : StaticCache) : Type 0 where
  pub few_decisions : length c.decisions ≤ 7
  pub few_principles : length c.principles ≤ 5
  pub few_conflicts : length c.conflicts ≤ 5

abbrev pub AllCapped : Option StaticCache → Type 0
AllCapped none = Unit
AllCapped (some c) = IsCapped c

none≢some : {c : StaticCache} → none ≢ some c
none≢some e = cc

-- The static sections are those of a cache that is at most five seconds old, or else they are made of
-- the sessions and the urgent items.
pub data Origin (t : Texts) (ram : List Session) (urgency_index : Dict String Urgency) (now : ℕ)
    (p : Proxy) : StaticCache → Bool → Type 0 where
  from_cache :
      (c : StaticCache)
      → p.static_cache ≡ some c
      → now ≤ p.cache_updated_at + 5000
      → Origin t ram urgency_index now p c true
  from_sessions : Origin t ram urgency_index now p (build_static_cache t ram urgency_index) false

present :
    (o : Option StaticCache) (c : StaticCache)
    → not_empty o ≡ some c
    → (o ≡ some c) × (is_empty c ≡ false)
unfolding not_empty
present none c e = absurd (none≢some e)
present (some d) c e = elim (Bool-cases (is_empty d)) [
  | inl h ↦ absurd (none≢some (sym (ap (λ b. if b then none else some d) h) ∙ e))
  | inr h ↦
      let same : some d ≡ some c = sym (ap (λ b. if b then none else some d) h) ∙ e in
      (same, ground (arith, same, h))
]
