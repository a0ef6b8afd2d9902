-- ===== src/Memory/Experience/Forgetting.antt =====
-- What a decay does to a score, and when it turns praise into a warning.
use mnemostroma.Prelude.{
  ℕ, ◌+◌, ◌*◌, ◌≤◌, ◌≡◌, ◌∙◌, ap, true, false, some, arith, ltb, leb, if◌then◌else◌,
}
use mnemostroma.Prelude.Integer.{pos, negsuc, ◌⊖◌, leb_int, is_negative}
use mnemostroma.Memory.Experience.{
  Cluster, Settings, avoid_this, compute_maturity, is_practitioner, decayed_score, decay,
  pattern_signal,
}

-- A score below zero is not forgotten. A score of zero or more falls by the reduction, and when that is
-- more than twice the score, to the score's negative.
pub decayed_score_lem :
    (reduction n : ℕ)
    → (decayed_score reduction (negsuc n) ≡ negsuc n)
      × (decayed_score reduction (pos n) ≡ (if leb reduction (2 * n) then n ⊖ reduction else 0 ⊖ n))
unfolding decayed_score
decayed_score_lem reduction n = (ground arith, ground arith)

turned :
    (reduction n : ℕ) → 2 * (n + 1) ≤ reduction → decayed_score reduction (pos (n + 1)) ≡ negsuc n
turned reduction n h = (decayed_score_lem reduction (n + 1)).1 ∙ ground (arith, h)

module _ {ℓ} {V : Type ℓ} where
  below_zero :
      (t : Settings) (c : Cluster V) (n : ℕ)
      → is_practitioner (compute_maturity c.session_count t) ≡ true
      → 10 * c.conflict_count ≤ 3 * c.session_count
      → c.score_sum ≡ negsuc n
      → pattern_signal t c ≡ some avoid_this
  unfolding pattern_signal
  below_zero t c n m f e =
      let tense : ltb (3 * c.session_count) (10 * c.conflict_count) ≡ false = ground (arith, f) in
      let unwise : leb_int (pos (t.signal_threshold * c.session_count)) c.score_sum ≡ false =
        ap (leb_int (pos (t.signal_threshold * c.session_count))) e ∙ ground arith in
      let bad : is_negative c.score_sum ≡ true = ap is_negative e in
      ground (arith, m, tense, unwise, bad)

  -- Time alone turns praise into a warning. Take a cluster of a practitioner or above with a score above
  -- zero and conflicts in at most three sessions of ten. When the reduction for its days
  -- without an update is twice the score or more, the decayed cluster signals that the tag is to be
  -- avoided.
  pub praise_turns :
      (t : Settings) (reduction now n : ℕ) (c : Cluster V)
      → is_practitioner (compute_maturity c.session_count t) ≡ true
      → 10 * c.conflict_count ≤ 3 * c.session_count
      → c.score_sum ≡ pos (n + 1)
      → 2 * (n + 1) ≤ reduction
      → pattern_signal t (decay reduction now c) ≡ some avoid_this
  unfolding decay
  praise_turns t reduction now n c m f e h =
      below_zero t (decay reduction now c) n m f
        (ap (decayed_score reduction) e ∙ turned reduction n h)
