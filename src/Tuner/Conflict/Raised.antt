-- ===== src/Tuner/Conflict/Raised.antt =====
-- Flags that are set on the way do not change which neighbours make a conflict.
use mnemostroma.Prelude.{
  String, ◌≡◌, refl, ◌∙◌, ap, Bool, true, false, ◌||◌, Option, none, some, arith, ◌==◌, string_eq,
  leb, Bool-cases, inl, inr,
}
use mnemostroma.Prelude.Dict.{Dict, get}
use mnemostroma.Memory.Dissolver.{SessionBrief}
use mnemostroma.Tuner.Conflict.{
  Texts, Neighbour, decisions_contradict, conflicts, found_in, under, conflict_of,
}

module _ {ℓ} {V : Type ℓ} where
  -- The session, flagged if `b` says so or if it was before.
  abbrev pub raise : Bool → SessionBrief V → SessionBrief V
  raise b sb = record sb { conflict_flag = b || sb.conflict_flag }

  abbrev pub raised : Bool → Option (SessionBrief V) → Option (SessionBrief V)
  raised b none = none
  raised b (some sb) = some (raise b sb)

  abbrev pub raised_entry :
      (String → Bool) → Option (String × SessionBrief V) → Option (String × SessionBrief V)
  raised_entry fl none = none
  raised_entry fl (some (k, sb)) = some (k, raise (fl k) sb)

  -- The flags of `ram` are those of `ram0`, and those of `fl`.
  abbrev pub IsRaised :
      (String → Bool) → Dict String (SessionBrief V) → Dict String (SessionBrief V) → Type ℓ
  IsRaised fl ram0 ram = (k : String) → get ram k ≡ raised (fl k) (get ram0 k)

pub or_false : (b : Bool) → b ≡ (b || false)
or_false true = refl
or_false false = refl

module _ {ℓ} {V : Type ℓ} (t : Texts V) where
  -- Flags do not change what contradicts what.
  conflicts-raise :
      (f b : Bool) (new_sb sb : SessionBrief V)
      → conflicts t (raise f new_sb) (raise b sb) ≡ conflicts t new_sb sb
  unfolding conflicts decisions_contradict
  conflicts-raise f b new_sb sb = refl

  found_in-raise :
      (f : Bool) (fl : String → Bool) (new_sb : SessionBrief V) (sid : String)
      (o : Option (SessionBrief V))
      → found_in t (raise f new_sb) sid (raised (fl sid) o)
        ≡ raised_entry fl (found_in t new_sb sid o)
  unfolding found_in
  found_in-raise f fl new_sb sid none = refl
  found_in-raise f fl new_sb sid (some sb) = elim (Bool-cases (conflicts t new_sb sb)) [
    | inl yes' ↦ ground (arith, conflicts-raise f (fl sid) new_sb sb)
    | inr no' ↦ ground (arith, conflicts-raise f (fl sid) new_sb sb)
  ]

  under-raise :
      (f : Bool) (fl : String → Bool) (new_sb : SessionBrief V)
      (ram0 ram : Dict String (SessionBrief V)) (o : Option String)
      → IsRaised fl ram0 ram
      → under t (raise f new_sb) ram o ≡ raised_entry fl (under t new_sb ram0 o)
  unfolding under
  under-raise f fl new_sb ram0 ram none h = refl
  under-raise f fl new_sb ram0 ram (some sid) h = elim (Bool-cases (sid == "")) [
    | inl blank ↦ rw blank refl
    | inr text ↦ elim (Bool-cases (sid == new_sb.session_id)) [
      | inl same ↦ rw (text, same) refl
      | inr other ↦
          rw (text, other)
            (ap (found_in t (raise f new_sb) sid) (h sid)
              ∙ found_in-raise f fl new_sb sid (get ram0 sid))
    ]
  ]

  pub conflict_of-raise :
      (f : Bool) (fl : String → Bool) (new_sb : SessionBrief V)
      (ram0 ram : Dict String (SessionBrief V)) (n : Neighbour)
      → IsRaised fl ram0 ram
      → conflict_of t (raise f new_sb) ram n ≡ raised_entry fl (conflict_of t new_sb ram0 n)
  unfolding conflict_of
  conflict_of-raise f fl new_sb ram0 ram n h = elim (Bool-cases (leb n.similarity 850)) [
    | inl far ↦ rw far refl
    | inr near ↦ rw near (under-raise f fl new_sb ram0 ram n.sid h)
  ]
