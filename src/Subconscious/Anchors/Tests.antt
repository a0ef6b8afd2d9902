-- ===== src/Subconscious/Anchors/Tests.antt =====
-- Concrete anchors, in an index with room for two.
use mnemostroma.Prelude.{
  ℕ, String, ◌≡◌, refl, ◌≢◌, false, some, [], ◌∷◌, arith, ◌==◌, string_eq, ==_iff,
}
use mnemostroma.Prelude.Dict.{get}
use mnemostroma.Subconscious.Anchors.{
  Anchor, AnchorIndex, put_anchor, oldest_from, evict_oldest, room_for,
}
use mnemostroma.Subconscious.Anchors.Capacity.{IsBounded, Inserts, put_anchor-IsBounded}

abbrev anchor : String → ℕ → Anchor ℕ
anchor id last = record {
  anchor_id = id;
  anchor_type = "event";
  rest = 0;
  access_count = 0;
  last_accessed_at = last;
  updated_at = 0;
}

abbrev full : AnchorIndex ℕ
full = record { anchors = ("a", anchor "a" 70) ∷ ("b", anchor "b" 30) ∷ []; max_capacity = 2 }

apart : (s t : String) → (s == t) ≡ false → s ≢ t
apart s t h = ground (arith, ==_iff s t)

full-IsBounded : IsBounded full
full-IsBounded = record {
  distinct = ((apart "b" "a" refl, tt), (tt, tt));
  positive = omega arith;
  bounded = omega arith;
}

put_anchor-IsBounded_example :
    IsBounded (put_anchor (anchor "c" 90) full).1
    × Inserts
        (anchor "c" 90)
        full
        (put_anchor (anchor "c" 90) full).0
        (put_anchor (anchor "c" 90) full).1
put_anchor-IsBounded_example = put_anchor-IsBounded (anchor "c" 90) full full-IsBounded

-- The anchor that was accessed longest ago makes room.
longest_ago : (put_anchor (anchor "c" 90) full).0 ≡ some (anchor "b" 30)
unfolding put_anchor room_for get evict_oldest oldest_from
longest_ago = refl

there : get full.anchors "b" ≡ some (anchor "b" 30)
unfolding get
there = refl
