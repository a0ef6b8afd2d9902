-- ===== src/Memory/Dissolver/Clean.antt =====
-- A rebuild of the search index brings in nothing of a session that is not in RAM.
use mnemostroma.Prelude.{
  ℕ, ◌<◌, String, ◌≡◌, true, Option, none, some, is_some, List, [], ◌∷◌, arith, nat_eq, string_eq,
  ==_iff, All, All-append,
}
use mnemostroma.Prelude.Dict.{Dict, get, get-put}
use mnemostroma.Prelude.Sort.{All-map}
use mnemostroma.Memory.Labels.{allocate_chunk_label, set_label}
use mnemostroma.Memory.Dissolver.{
  SessionBrief, Memory, add_chunks, add_summary, add_vectors, add_brief, add_items,
}

module _ {ℓ} {V : Type ℓ} (ram : Dict String (SessionBrief V)) where
  -- Every label leads to a session in RAM and is taken, and every row has such a label.
  pub record IsClean (m : Memory V) : Type ℓ where
    pub leads :
        (sid : String) (l : ℕ) → get m.labels.id_to_sid l ≡ some sid → is_some (get ram sid) ≡ true
    pub used :
        (sid : String) (l : ℕ)
        → get m.labels.id_to_sid l ≡ some sid
        → l < m.labels.next_session_label
    pub rows : All (λ row. is_some (get m.labels.id_to_sid row.0) ≡ true) m.session_index

  pub add_chunks-IsClean :
      (sid : String) (vs : List V) (m : Memory V)
      → is_some (get ram sid) ≡ true
      → IsClean m
      → IsClean (add_chunks sid vs m)
  unfolding add_chunks allocate_chunk_label
  add_chunks-IsClean sid [] m h c = c
  add_chunks-IsClean sid (v ∷ vs) m h c =
      let next : ℕ = m.labels.next_session_label in
      add_chunks-IsClean sid vs _ h (record {
        leads =
            λ other l e. ground (arith, get-put m.labels.id_to_sid next l sid, c.leads other l, h);
        used = λ other l e. ground (arith, get-put m.labels.id_to_sid next l sid, c.used other l);
        rows =
            All-append _ m.session_index ((next, v) ∷ [])
              (All-map m.session_index
                (λ row k. ground (arith, get-put m.labels.id_to_sid next row.0 sid, k)) c.rows)
              (ground (arith, get-put m.labels.id_to_sid next next sid), tt);
      })

  pub add_summary-IsClean :
      (sid : String) (v : V) (m : Memory V)
      → is_some (get ram sid) ≡ true
      → IsClean m
      → IsClean (add_summary sid v m)
  unfolding add_summary set_label
  add_summary-IsClean sid v m h c =
      let next : ℕ = m.labels.next_session_label in
      record {
        leads =
            λ other l e. ground (arith, get-put m.labels.id_to_sid next l sid, c.leads other l, h);
        used = λ other l e. ground (arith, get-put m.labels.id_to_sid next l sid, c.used other l);
        rows =
            All-append _ m.session_index ((next, v) ∷ [])
              (All-map m.session_index
                (λ row k. ground (arith, get-put m.labels.id_to_sid next row.0 sid, k)) c.rows)
              (ground (arith, get-put m.labels.id_to_sid next next sid), tt);
      }

  pub add_vectors-IsClean :
      (sid : String) (o : Option V) (vs : List V) (m : Memory V)
      → is_some (get ram sid) ≡ true
      → IsClean m
      → IsClean (add_vectors sid o vs m)
  unfolding add_vectors
  add_vectors-IsClean sid none vs m h c = c
  add_vectors-IsClean sid (some v) vs m h c =
      add_chunks-IsClean sid vs (add_summary sid v m) h (add_summary-IsClean sid v m h c)

  pub add_items-IsClean :
      (items : Dict String (SessionBrief V)) (m : Memory V)
      → All (λ e. is_some (get ram e.0) ≡ true) items
      → IsClean m
      → IsClean (add_items items m)
  unfolding add_items add_brief
  add_items-IsClean [] m h c = c
  add_items-IsClean ((sid, sb) ∷ items) m h c =
      add_items-IsClean items (add_brief sid sb m) h.1
        (add_vectors-IsClean sid sb.embedding sb.chunk_vectors m h.0 c)

module _ {ℓ} {V : Type ℓ} where
  get-cons :
      (d : Dict String V) (k sid : String) (v : V)
      → is_some (get d sid) ≡ true
      → is_some (get ((k, v) ∷ d) sid) ≡ true
  unfolding get
  get-cons d k sid v h = ground arith

  pub keys_present : (d : Dict String V) → All (λ e. is_some (get d e.0) ≡ true) d
  unfolding get
  keys_present [] = tt
  keys_present ((k, v) ∷ d) =
      (ground (arith, ==_iff k k), All-map d (λ e h. get-cons d k e.0 v h) (keys_present d))
