-- ===== src/Subconscious/Guardian/Sweep.antt =====
-- The loop of the scans: which anchors it hits, and which times it notes.
use mnemostroma.Prelude.{
  ℕ, ◌+◌, ◌<◌, String, ◌≡◌, refl, ◌∙◌, ap, ◌≢◌, Bool, true, false, not, ◌&&◌, some, List, [], ◌∷◌,
  arith, ◌==◌, string_eq, ==_iff, ==_refl, ltb, if◌then◌else◌, any, select, All, Bool-cases, inl,
  inr,
}
use mnemostroma.Prelude.Dict.{Dict, get, put, get-put}
use mnemostroma.Prelude.SortDown.{Pairwise, All-both}
use mnemostroma.Prelude.Sort.{All-map}
use mnemostroma.Subconscious.Guardian.{Watched, last_time, is_silent, sweep}

module _ {ℓ} {V : Type ℓ} where
  abbrev pub is_of : String → Watched V → Bool
  is_of k a = a.anchor_id == k

  pub same_times :
      (warned : Dict String ℕ) (as' : List (Watched V))
      → All (λ (a : Watched V). get warned a.anchor_id ≡ get warned a.anchor_id) as'
  same_times warned [] = tt
  same_times warned (a ∷ as') = (refl, same_times warned as')

module _ {ℓ} {V : Type ℓ} (fires : Watched V → Bool) (now cooldown : ℕ) where
  -- What is noted at `now` stays noted.
  sweep_keeps :
      (as' : List (Watched V)) (warned : Dict String ℕ) (k : String)
      → get warned k ≡ some now
      → get (sweep fires now cooldown as' warned).1 k ≡ some now
  unfolding sweep
  sweep_keeps [] warned k h = h
  sweep_keeps (a ∷ as') warned k h =
      elim (Bool-cases (fires a && not (is_silent warned now cooldown a.anchor_id))) [
        | inl hit ↦
            rw (hit, sweep)
              (sweep_keeps as' (put warned a.anchor_id now) k
                (ground (arith, get-put warned a.anchor_id k now)))
        | inr miss ↦ rw (miss, sweep) (sweep_keeps as' warned k h)
      ]

  -- Every hit is noted.
  pub sweep_notes :
      (as' : List (Watched V)) (warned : Dict String ℕ)
      → All
          (λ (a : Watched V). get (sweep fires now cooldown as' warned).1 a.anchor_id ≡ some now)
          (sweep fires now cooldown as' warned).0
  unfolding sweep
  sweep_notes [] warned = tt
  sweep_notes (a ∷ as') warned =
      elim (Bool-cases (fires a && not (is_silent warned now cooldown a.anchor_id))) [
        | inl hit ↦
            rw (hit, sweep)
              (
                sweep_keeps as' (put warned a.anchor_id now) a.anchor_id
                    (get-put warned a.anchor_id a.anchor_id now ∙ rw (==_refl a.anchor_id) refl),
                sweep_notes as' (put warned a.anchor_id now),
              )
        | inr miss ↦ rw (miss, sweep) (sweep_notes as' warned)
      ]

  -- An anchor that was noted less than the cooldown ago is not hit, and its time stays.
  pub sweep_silent :
      (as' : List (Watched V)) (warned : Dict String ℕ) (k : String) (t : ℕ)
      → get warned k ≡ some t
      → now < t + cooldown
      → All (λ (a : Watched V). a.anchor_id ≢ k) (sweep fires now cooldown as' warned).0
        × (get (sweep fires now cooldown as' warned).1 k ≡ some t)
  unfolding sweep is_silent last_time
  sweep_silent [] warned k t h l = (tt, h)
  sweep_silent (a ∷ as') warned k t h l =
      elim (Bool-cases (fires a && not (is_silent warned now cooldown a.anchor_id))) [
        | inl hit ↦
            let other : a.anchor_id ≢ k = λ e. ground (arith, ap (get warned) e, h) in
            let (none_hit, kept) =
              sweep_silent as' (put warned a.anchor_id now) k t
                (ground (arith, get-put warned a.anchor_id k now, ==_iff a.anchor_id k)) l in
            rw (hit, sweep) ((other, none_hit), kept)
        | inr miss ↦ rw (miss, sweep) (sweep_silent as' warned k t h l)
      ]

  -- The anchors of different ids that fire and were not silent before.
  abbrev pub hit_of : Dict String ℕ → Watched V → Bool
  hit_of warned a = fires a && not (is_silent warned now cooldown a.anchor_id)

  pub sweep_from :
      (as' : List (Watched V)) (warned0 warned : Dict String ℕ)
      → Pairwise (λ (a b : Watched V). a.anchor_id ≢ b.anchor_id) as'
      → All (λ (a : Watched V). get warned a.anchor_id ≡ get warned0 a.anchor_id) as'
      → ((sweep fires now cooldown as' warned).0 ≡ select (hit_of warned0) as')
        × ((k : String)
            → get (sweep fires now cooldown as' warned).1 k
              ≡ (if any (is_of k) (select (hit_of warned0) as') then some now else get warned k))
  unfolding sweep is_silent
  sweep_from [] warned0 warned d h = (refl, λ k. refl)
  sweep_from (a ∷ as') warned0 warned d h =
      let same : hit_of warned a ≡ hit_of warned0 a =
        ap (λ o. fires a && not (ltb now (last_time o + cooldown))) h.0 in
      elim (Bool-cases (hit_of warned0 a)) [
        | inl hit ↦
            let still : All
                (λ (b : Watched V).
                  get (put warned a.anchor_id now) b.anchor_id ≡ get warned0 b.anchor_id)
                as' =
              All-map as'
                (λ (b : Watched V) q.
                  get-put warned a.anchor_id b.anchor_id now
                  ∙ ground (arith, q, ==_iff a.anchor_id b.anchor_id))
                (All-both (λ (b : Watched V). a.anchor_id ≢ b.anchor_id)
                  (λ (b : Watched V). get warned b.anchor_id ≡ get warned0 b.anchor_id) as' d.0
                  h.1) in
            let (e, f) = sweep_from as' warned0 (put warned a.anchor_id now) d.1 still in
            let fired : hit_of warned a ≡ true = same ∙ hit in
            rw (hit, fired, sweep)
              (ap (λ l. a ∷ l) e, λ k. f k ∙ ground (arith, get-put warned a.anchor_id k now))
        | inr miss ↦
            let (e, f) = sweep_from as' warned0 warned d.1 h.1 in
            let passed : hit_of warned a ≡ false = same ∙ miss in rw (miss, passed, sweep) (e, f)
      ]
