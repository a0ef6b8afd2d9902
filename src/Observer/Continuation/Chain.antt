-- ===== src/Observer/Continuation/Chain.antt =====
-- The walk along a chain ends, also on a chain that goes round, and what is detected is the best.
use mnemostroma.Prelude.{
  ℕ, zero, suc, ◌+◌, ◌≤◌, ◌<◌, String, ◌≡◌, refl, ◌∙◌, true, false, Option, none, some, List, [],
  ◌∷◌, arith, nat_eq, string_eq, ==_iff, leb, ltb, if◌then◌else◌, length, contains, All, Bool-cases,
  Option-cases, inl, inr, ◌⊎◌,
}
use mnemostroma.Prelude.Dict.{Dict, get, remove, get-remove, length-remove_lt}
use mnemostroma.Observer.Continuation.{
  parent_of, step_up, walk, chain_depth, Candidate, is_recent, Best, no_best, better, best_of,
  Continuation, new, related, continuation, Limits, deeper, classify, detect_continuation,
}

-- `d` has the anchors that were not visited.
abbrev IsRest : Dict String (Option String) → List String → Dict String (Option String) → Type 0
IsRest anchors visited d =
    (k : String) → get d k ≡ (if contains k visited then none else get anchors k)

IsRest-remove :
    (anchors d : Dict String (Option String)) (visited : List String) (sid : String)
    → IsRest anchors visited d
    → IsRest anchors (sid ∷ visited) (remove d sid)
IsRest-remove anchors d visited sid h k =
    ground (arith, h k, get-remove d sid k, ==_iff sid k, ==_iff k sid)

-- The walk has a result, which is at most the number of the anchors that are left.
walk-IsSome :
    (fuel : ℕ) (anchors d : Dict String (Option String)) (visited : List String) (sid : String)
    → IsRest anchors visited d
    → length d < fuel
    → (depth : ℕ) × (walk fuel anchors visited sid ≡ some depth) × (depth ≤ length d)
unfolding walk step_up
walk-IsSome zero anchors d visited sid h l = absurd (omega arith)
walk-IsSome (suc fuel) anchors d visited sid h l = elim (Bool-cases (contains sid visited)) [
  | inl seen ↦ (0, rw (seen, walk) refl, omega arith)
  | inr unseen ↦ elim (Option-cases (get anchors sid)) [
    | inl missing ↦ (0, rw (unseen, missing, walk) refl, omega arith)
    | inr (flag, there) ↦ elim (Option-cases (parent_of sid flag)) [
      | inl top ↦ (0, rw (unseen, there, top, walk) refl, omega arith)
      | inr (parent, up) ↦
          let here : get d sid ≡ some flag = ground (arith, h sid) in
          let shorter : length (remove d sid) + 1 ≤ length d = length-remove_lt d sid flag here in
          let (depth, e, b) =
            walk-IsSome fuel anchors (remove d sid) (sid ∷ visited) parent
              (IsRest-remove anchors d visited sid h) (omega (arith, shorter)) in
          (1 + depth, rw (unseen, there, up, walk) (rw e refl), omega (arith, shorter, b))
    ]
  ]
]

-- The depth of every chain is found, also where the flags lead round in a circle, and it is at most
-- the number of anchors: one step for each anchor, and one more, is fuel enough.
pub chain_depth_total :
    (anchors : Dict String (Option String)) (sid : String)
    → (depth : ℕ) × (chain_depth anchors sid ≡ some depth) × (depth ≤ length anchors)
unfolding chain_depth
chain_depth_total anchors sid =
    walk-IsSome (length anchors + 1) anchors anchors [] sid (λ k. refl) (omega arith)

-- No recent candidate has a higher score.
abbrev pub IsBest : ℕ → ℕ → Best → List Candidate → Type 0
IsBest now max_age_days b cs =
    All (λ c. (is_recent now max_age_days c ≡ false) ⊎ (c.combined ≤ b.score)) cs

better_grows : (now days : ℕ) (b : Best) (c : Candidate) → b.score ≤ (better now days b c).score
unfolding better
better_grows now days b c = ground arith

better_covers :
    (now days : ℕ) (b : Best) (c : Candidate)
    → (is_recent now days c ≡ false) ⊎ (c.combined ≤ (better now days b c).score)
unfolding better
better_covers now days b c = ground arith

best_of_grows :
    (now days : ℕ) (b : Best) (cs : List Candidate) → b.score ≤ (best_of now days b cs).score
unfolding best_of
best_of_grows now days b [] = omega arith
best_of_grows now days b (c ∷ cs) =
    omega (arith, better_grows now days b c, best_of_grows now days (better now days b c) cs)

best_of-IsBest :
    (now days : ℕ) (b : Best) (cs : List Candidate) → IsBest now days (best_of now days b cs) cs
unfolding best_of
best_of-IsBest now days b [] = tt
best_of-IsBest now days b (c ∷ cs) = (
  (elim (better_covers now days b c) [
    | inl old ↦ inl old
    | inr le ↦ inr (omega (arith, le, best_of_grows now days (better now days b c) cs))
  ]),
  best_of-IsBest now days (better now days b c) cs,
)

abbrev pub of_candidate : Candidate → Best
of_candidate c = record { score = c.combined; cosine = c.cosine; sid = some c.sid }

-- `b` is one of the recent candidates.
abbrev pub IsOneOf : ℕ → ℕ → Best → List Candidate → Type 0
IsOneOf now max_age_days b [] = ⊥
IsOneOf now max_age_days b (c ∷ cs) =
    ((is_recent now max_age_days c ≡ true) × (b ≡ of_candidate c)) ⊎ IsOneOf now max_age_days b cs

better_cases :
    (now days : ℕ) (b : Best) (c : Candidate)
    → (better now days b c ≡ b)
      ⊎ ((is_recent now days c ≡ true) × (better now days b c ≡ of_candidate c))
unfolding better
better_cases now days b c = elim (Bool-cases (is_recent now days c)) [
  | inl recent ↦ elim (Bool-cases (ltb b.score c.combined)) [
    | inl more ↦ inr (recent, rw (recent, more) refl)
    | inr less ↦ inl (rw (recent, less) refl)
  ]
  | inr old ↦ inl (rw old refl)
]

best_of-IsOneOf :
    (now days : ℕ) (b : Best) (cs : List Candidate)
    → (best_of now days b cs ≡ b) ⊎ IsOneOf now days (best_of now days b cs) cs
unfolding best_of
best_of-IsOneOf now days b [] = inl refl
best_of-IsOneOf now days b (c ∷ cs) = elim (best_of-IsOneOf now days (better now days b c) cs) [
  | inr among ↦ inr (inr among)
  | inl same ↦ elim (better_cases now days b c) [
    | inl kept ↦ inl (same ∙ kept)
    | inr (recent, taken) ↦ inr (inl (recent, same ∙ taken))
  ]
]

-- What the answer says of the best candidate.
abbrev pub IsDetected : Limits → Dict String (Option String) → Best → Continuation → Type 0
IsDetected l anchors b new =
    (b.sid ≡ none)
    ⊎ ((b.score < l.continuation_score_threshold) × (b.cosine < l.related_cosine_threshold))
IsDetected l anchors b (related sid) =
    (b.sid ≡ some sid)
    × (b.score < l.continuation_score_threshold)
    × (l.related_cosine_threshold ≤ b.cosine)
IsDetected l anchors b (continuation sid depth) =
    (b.sid ≡ some sid)
    × (l.continuation_score_threshold ≤ b.score)
    × (1 ≤ depth)
    × (depth ≤ length anchors + 1)

classify_total :
    (l : Limits) (anchors : Dict String (Option String)) (b : Best) (o : Option String)
    → b.sid ≡ o
    → (c : Continuation) × (classify l anchors b o ≡ some c) × IsDetected l anchors b c
unfolding classify deeper
classify_total l anchors b none h = (new, refl, inl h)
classify_total l anchors b (some sid) h =
    elim (Bool-cases (leb l.continuation_score_threshold b.score)) [
      | inl high ↦
          let (depth, e, le) = chain_depth_total anchors sid in
          (
            continuation sid (depth + 1),
            rw (high, classify) (rw e refl),
            (h, ground arith, omega arith, omega (arith, le)),
          )
      | inr low ↦ elim (Bool-cases (leb l.related_cosine_threshold b.cosine)) [
        | inl near ↦ (related sid, rw (low, near, classify) refl, (h, ground arith, ground arith))
        | inr far ↦ (new, rw (low, far, classify) refl, inr (ground arith, ground arith))
      ]
    ]

-- A detection always has an answer. It goes by the best of the candidates that are recent enough,
-- which is one of them unless none has a score, and none of them has a higher score: the answer is
-- a continuation, of which the chain is between one and the number of anchors and one long, when
-- the score reaches its threshold; related when only the cosine reaches its threshold; and new
-- when neither does or there is no best candidate.
pub detect_continuation_total :
    (l : Limits) (now : ℕ) (anchors : Dict String (Option String)) (cs : List Candidate)
    → (b : Best) × (c : Continuation) × (detect_continuation l now anchors cs ≡ some c)
      × ((b ≡ no_best) ⊎ IsOneOf now l.max_age_days b cs)
      × IsBest now l.max_age_days b cs
      × IsDetected l anchors b c
unfolding detect_continuation
detect_continuation_total l now anchors cs =
    let b = best_of now l.max_age_days no_best cs in
    let (c, e, d) = classify_total l anchors b b.sid refl in
    (
      b,
      c,
      e,
      best_of-IsOneOf now l.max_age_days no_best cs,
      best_of-IsBest now l.max_age_days no_best cs,
      d,
    )
