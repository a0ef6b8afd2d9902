-- ===== src/Tuner/Conflict/Flags.antt =====
-- Exactly the sessions that contradict the new one are flagged, and the new one with them.
use mathlib.Core.Path.{subst}
use mnemostroma.Prelude.{
  String, ◌≡◌, refl, ◌∙◌, sym, ap, Bool, true, false, ◌||◌, Option, none, some, is_some, List, [],
  ◌∷◌, arith, ◌==◌, string_eq, ==_iff, any, Bool-cases, Option-cases, inl, inr,
}
use mnemostroma.Prelude.Dict.{Dict, get, put, get-put}
use mnemostroma.Memory.Dissolver.{SessionBrief}
use mnemostroma.Tuner.Conflict.Raised.{
  raise, raised, raised_entry, or_false, IsRaised, conflict_of-raise,
}
use mnemostroma.Tuner.Conflict.{
  Texts, Neighbour, found_in, under, conflict_of, Found, noted, checked, check_neighbours,
  check_conflict,
}

module _ {ℓ} {V : Type ℓ} (t : Texts V) where
  -- A conflict is with a session in RAM, under its id.
  found_in-some :
      (new_sb : SessionBrief V) (sid : String) (o : Option (SessionBrief V)) (k : String)
      (sb : SessionBrief V)
      → found_in t new_sb sid o ≡ some (k, sb)
      → (k ≡ sid) × (o ≡ some sb)
  unfolding found_in
  found_in-some new_sb sid none k sb h = cc
  found_in-some new_sb sid (some x) k sb h = ground arith

  under-some :
      (new_sb : SessionBrief V) (ram : Dict String (SessionBrief V)) (o : Option String)
      (k : String) (sb : SessionBrief V)
      → under t new_sb ram o ≡ some (k, sb)
      → get ram k ≡ some sb
  unfolding under
  under-some new_sb ram none k sb h = cc
  under-some new_sb ram (some sid) k sb h =
      ground (arith, found_in-some new_sb sid (get ram sid) k sb)

  conflict_of-some :
      (new_sb : SessionBrief V) (ram : Dict String (SessionBrief V)) (n : Neighbour) (k : String)
      (sb : SessionBrief V)
      → conflict_of t new_sb ram n ≡ some (k, sb)
      → get ram k ≡ some sb
  unfolding conflict_of
  conflict_of-some new_sb ram n k sb h = under-some new_sb ram n.sid k sb (ground arith)

  -- The neighbour makes a conflict, or one with the session `k`.
  abbrev pub is_conflict : SessionBrief V → Dict String (SessionBrief V) → Neighbour → Bool
  is_conflict new_sb ram n = is_some (conflict_of t new_sb ram n)

  abbrev pub is_with : String → Option (String × SessionBrief V) → Bool
  is_with k none = false
  is_with k (some e) = e.0 == k

  abbrev pub conflicts_with :
      String → SessionBrief V → Dict String (SessionBrief V) → Neighbour → Bool
  conflicts_with k new_sb ram n = is_with k (conflict_of t new_sb ram n)

  -- What the loop has done.
  record IsFlagged (f : Bool) (fl : String → Bool) (new_sb : SessionBrief V)
      (ram0 : Dict String (SessionBrief V)) (ns : List Neighbour)
      (out : Bool × SessionBrief V × Dict String (SessionBrief V)) : Type ℓ where
    told : out.0 ≡ (f || any (is_conflict new_sb ram0) ns)
    new_flag : out.1 ≡ raise (f || any (is_conflict new_sb ram0) ns) new_sb
    flags :
        (k : String)
        → get out.2 k ≡ raised (fl k || any (conflicts_with k new_sb ram0) ns) (get ram0 k)

  IsRaised-put :
      (fl : String → Bool) (ram0 ram : Dict String (SessionBrief V)) (k : String)
      (sb : SessionBrief V)
      → IsRaised fl ram0 ram
      → get ram0 k ≡ some sb
      → IsRaised (λ j. (k == j) || fl j) ram0 (put ram k (raise true sb))
  IsRaised-put fl ram0 ram k sb h e j = elim (Bool-cases (k == j)) [
    | inl same ↦
        let there : get ram0 j ≡ some sb = ground (arith, ==_iff k j, e, same) in
        get-put ram k j (raise true sb) ∙ rw (same, there) refl
    | inr other ↦ get-put ram k j (raise true sb) ∙ rw other (h j)
  ]

  or_swap : (a b c : Bool) → ((a || b) || c) ≡ (b || (a || c))
  or_swap a b c = ground arith

  or_true : (b : Bool) → true ≡ (b || true)
  or_true b = ground arith

  IsFlagged-none :
      (f : Bool) (fl : String → Bool) (new_sb : SessionBrief V)
      (ram0 : Dict String (SessionBrief V)) (n : Neighbour) (ns : List Neighbour) (out : Found t)
      → conflict_of t new_sb ram0 n ≡ none
      → IsFlagged f fl new_sb ram0 ns out
      → IsFlagged f fl new_sb ram0 (n ∷ ns) out
  IsFlagged-none f fl new_sb ram0 n ns out e h = record {
    told = rw e h.told;
    new_flag = rw e h.new_flag;
    flags = λ k. rw e (h.flags k);
  }

  IsFlagged-some :
      (f : Bool) (fl : String → Bool) (new_sb : SessionBrief V)
      (ram0 : Dict String (SessionBrief V)) (n : Neighbour) (ns : List Neighbour) (out : Found t)
      (k : String) (sb : SessionBrief V)
      → conflict_of t new_sb ram0 n ≡ some (k, sb)
      → IsFlagged true (λ j. (k == j) || fl j) new_sb ram0 ns out
      → IsFlagged f fl new_sb ram0 (n ∷ ns) out
  IsFlagged-some f fl new_sb ram0 n ns out k sb e h = record {
    told = rw e (h.told ∙ or_true f);
    new_flag = rw e (h.new_flag ∙ ap (λ b. raise b new_sb) (or_true f));
    flags = λ j. rw e (
        h.flags j
        ∙ ap (λ b. raised b (get ram0 j))
            (or_swap (k == j) (fl j) (any (conflicts_with j new_sb ram0) ns)));
  }

  check_neighbours_lem :
      (f : Bool) (fl : String → Bool) (new_sb : SessionBrief V)
      (ram0 ram : Dict String (SessionBrief V)) (ns : List Neighbour)
      → IsRaised fl ram0 ram
      → IsFlagged f fl new_sb ram0 ns (check_neighbours t (f, raise f new_sb, ram) ns)
  unfolding check_neighbours noted
  check_neighbours_lem f fl new_sb ram0 ram [] h = record {
    told = or_false f;
    new_flag = ap (λ b. raise b new_sb) (or_false f);
    flags = λ k. h k ∙ ap (λ b. raised b (get ram0 k)) (or_false (fl k));
  }
  check_neighbours_lem f fl new_sb ram0 ram (n ∷ ns) h =
      let after : Option (String × SessionBrief V) → Found t =
        λ o. check_neighbours t (noted t o (f, raise f new_sb, ram)) ns in
      let same = conflict_of-raise t f fl new_sb ram0 ram n h in
      elim (Option-cases (conflict_of t new_sb ram0 n)) [
        | inl without ↦
            subst (λ o. IsFlagged f fl new_sb ram0 (n ∷ ns) (after o))
              (sym (same ∙ ap (raised_entry fl) without))
              (IsFlagged-none f fl new_sb ram0 n ns _ without
                (check_neighbours_lem f fl new_sb ram0 ram ns h))
        | inr ((k, sb), found) ↦
            let there = conflict_of-some new_sb ram0 n k sb found in
            subst (λ o. IsFlagged f fl new_sb ram0 (n ∷ ns) (after o))
              (sym (same ∙ ap (raised_entry fl) found))
              (IsFlagged-some f fl new_sb ram0 n ns _ k sb found (
                check_neighbours_lem true (λ j. (k == j) || fl j) new_sb ram0
                  (put ram k (raise true sb)) ns (IsRaised-put fl ram0 ram k sb h there)))
      ]

raised_not {ℓ} : {V : Type ℓ} (o : Option (SessionBrief V)) → o ≡ raised false o
raised_not none = refl
raised_not (some sb) = refl

module _ {ℓ} {V : Type ℓ} (t : Texts V) where
  -- For a new session with an embedding: a conflict is reported exactly if some neighbour makes one,
  -- and then the new session is flagged; a session in RAM is flagged exactly if a neighbour makes
  -- a conflict with it, and else it is as it was; and no flag is ever taken back.
  pub check_conflict_lem :
      (new_sb : SessionBrief V) (v : V) (ram : Dict String (SessionBrief V)) (ns : List Neighbour)
      → new_sb.embedding ≡ some v
      → ((check_conflict t new_sb ram ns).0 ≡ any (is_conflict t new_sb ram) ns)
        × ((check_conflict t new_sb ram ns).1 ≡ raise (any (is_conflict t new_sb ram) ns) new_sb)
        × ((k : String)
            → get (check_conflict t new_sb ram ns).2 k
              ≡ raised (any (conflicts_with t k new_sb ram) ns) (get ram k))
  unfolding check_conflict checked
  check_conflict_lem new_sb v ram ns e =
      let h =
        check_neighbours_lem t false (λ k. false) new_sb ram ram ns (λ k. raised_not (get ram k)) in
      let same : check_conflict t new_sb ram ns ≡ check_neighbours t (false, new_sb, ram) ns =
        ap (λ o. checked t o new_sb ram ns) e in
      (
        ap (λ (s : Found t). s.0) same ∙ h.told,
        ap (λ (s : Found t). s.1) same ∙ h.new_flag,
        λ k. ap (λ (s : Found t). get s.2 k) same ∙ h.flags k,
      )
