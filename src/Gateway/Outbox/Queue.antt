-- ===== src/Gateway/Outbox/Queue.antt =====
-- What is in the queue, and what is fetched from it.
use mathlib.Core.Path.{subst}
use mnemostroma.Prelude.{
  ℕ, ◌+◌, ◌≤◌, ◌<◌, String, ◌≡◌, refl, ◌≢◌, ◌∙◌, sym, ap, Bool, true, false, is_some, List, [], ◌∷◌,
  ◌++◌, arith, ◌==◌, string_eq, ==_iff, leb, if◌then◌else◌, any, All, All-append, select,
  Bool-cases, inl, inr,
}
use mnemostroma.Prelude.Sort.{All-select, All-map}
use mnemostroma.Gateway.Outbox.{
  Role, ObservationEvent, RowState, Row, same_key, clashes, new_row, enqueue, update,
  mark_delivered, attempts_of, retried, mark_retry, cleanup_delivered,
}

-- What holds of each row: a pending one has attempts left, a dead letter has none, and a delivered
-- one has the time of its delivery.
abbrev pub IsRow : ℕ → RowState → Row → Type 0
IsRow max RowState.pending row = row.attempts < max
IsRow max RowState.processing row = Unit
IsRow max RowState.delivered row = is_some row.delivered_at ≡ true
IsRow max RowState.dead_letter row = max ≤ row.attempts

-- No later row has the id or the dedupe key of an earlier one.
abbrev pub IsUnique : List Row → Type 0
IsUnique [] = Unit
IsUnique (row ∷ rows) =
    All (λ r. (r.event_id ≢ row.event_id) × (r.dedupe_key ≢ row.dedupe_key)) rows × IsUnique rows

pub record IsQueue (max : ℕ) (rows : List Row) : Type 0 where
  pub each : All (λ row. IsRow max row.state row) rows
  pub unique : IsUnique rows

pub data Step (max : ℕ) : List Row → List Row → Type 0 where
  enqueued : {rows : List Row} (event : ObservationEvent) → Step max rows (enqueue event rows)
  delivered_now :
      {rows : List Row} (now : ℕ) (id : String) → Step max rows (mark_delivered now id rows)
  retried_later :
      {rows : List Row} (id code : String) (at : ℕ) → Step max rows (mark_retry max id code at rows)
  cleaned : {rows : List Row} (now hours : ℕ) → Step max rows (cleanup_delivered now hours rows).1

pub data Reach (max : ℕ) : List Row → Type 0 where
  start : Reach max []
  next : {rows rows' : List Row} → Reach max rows → Step max rows rows' → Reach max rows'

same_key_refl : (k : String × Role) → same_key k k ≡ true
same_key_refl (r, Role.user) = ground (arith, ==_iff r r)
same_key_refl (r, Role.assistant) = ground (arith, ==_iff r r)

-- The row `r` shares neither its id nor its dedupe key with `row`.
abbrev IsApart : Row → Row → Type 0
IsApart row r = (r.event_id ≢ row.event_id) × (r.dedupe_key ≢ row.dedupe_key)

-- An update that keeps the keys of a row keeps them unique.
module _ (f : Row → Row) (id : String) where
  abbrev picked : Row → Row
  picked row = if row.event_id == id then f row else row

  module _ (same_id : (r : Row) → (f r).event_id ≡ r.event_id)
      (same_dedupe : (r : Row) → (f r).dedupe_key ≡ r.dedupe_key) where
    picked_id : (r : Row) → (picked r).event_id ≡ r.event_id
    picked_id r = elim (Bool-cases (r.event_id == id)) [
      | inl e ↦ ap (λ b. (if b then f r else r).event_id) e ∙ same_id r
      | inr e ↦ ap (λ b. (if b then f r else r).event_id) e
    ]

    picked_key : (r : Row) → (picked r).dedupe_key ≡ r.dedupe_key
    picked_key r = elim (Bool-cases (r.event_id == id)) [
      | inl e ↦ ap (λ b. (if b then f r else r).dedupe_key) e ∙ same_dedupe r
      | inr e ↦ ap (λ b. (if b then f r else r).dedupe_key) e
    ]

    update-IsApart :
        (row : Row) (rows : List Row)
        → All (IsApart row) rows
        → All (IsApart (picked row)) (update f id rows)
    update-IsApart row [] h = tt
    update-IsApart row (r ∷ rows) h = (
      (
        λ e. h.0.0 (sym (picked_id r) ∙ e ∙ picked_id row),
        λ e. h.0.1 (sym (picked_key r) ∙ e ∙ picked_key row),
      ),
      update-IsApart row rows h.1,
    )

    update-IsUnique : (rows : List Row) → IsUnique rows → IsUnique (update f id rows)
    update-IsUnique [] h = tt
    update-IsUnique (row ∷ rows) h = (update-IsApart row rows h.0, update-IsUnique rows h.1)

  -- What every row and every updated row satisfies holds after the update.
  All-update :
      (P : Row → Type 0) (rows : List Row)
      → ((r : Row) → P r → P (f r))
      → All P rows
      → All P (update f id rows)
  All-update P [] k h = tt
  All-update P (row ∷ rows) k h = (
    (elim (Bool-cases (row.event_id == id)) [
      | inl e ↦ subst (λ b. P (if b then f row else row)) (sym e) (k row h.0)
      | inr e ↦ subst (λ b. P (if b then f row else row)) (sym e) h.0
    ]),
    All-update P rows k h.1,
  )

select-IsApart :
    (p : Row → Bool) (row : Row) (rows : List Row)
    → All (IsApart row) rows
    → All (IsApart row) (select p rows)
select-IsApart p row rows h =
    All-map (select p rows) (λ r k. k.0) (All-select (IsApart row) p rows h)

select-IsUnique : (p : Row → Bool) (rows : List Row) → IsUnique rows → IsUnique (select p rows)
select-IsUnique p [] h = tt
select-IsUnique p (row ∷ rows) h = elim (Bool-cases (p row)) [
  | inl e ↦ rw e (select-IsApart p row rows h.0, select-IsUnique p rows h.1)
  | inr e ↦ rw e (select-IsUnique p rows h.1)
]

-- Without a clash, an event is apart from all rows.
clashes-IsApart :
    (event : ObservationEvent) (rows : List Row)
    → any (clashes event) rows ≡ false
    → All (λ row. IsApart row (new_row event)) rows
clashes-IsApart event [] h = tt
clashes-IsApart event (row ∷ rows) h = (
  (
    λ e. ground (arith, h, ==_iff row.event_id event.event_id, e),
    λ e. ground (arith, h, e, same_key_refl row.dedupe_key),
  ),
  clashes-IsApart event rows (ground arith),
)

IsApart-snoc :
    (row new : Row) (rows : List Row)
    → IsApart row new
    → All (IsApart row) rows
    → All (IsApart row) (rows ++ new ∷ [])
IsApart-snoc row new rows n h = All-append (IsApart row) rows (new ∷ []) h (n, tt)

IsUnique-snoc :
    (new : Row) (rows : List Row)
    → All (λ row. IsApart row new) rows
    → IsUnique rows
    → IsUnique (rows ++ new ∷ [])
IsUnique-snoc new [] n h = (tt, tt)
IsUnique-snoc new (row ∷ rows) n h =
    (IsApart-snoc row new rows n.0 h.0, IsUnique-snoc new rows n.1 h.1)

abbrev IsKept : ℕ → Row → Type 0
IsKept max row = IsRow max row.state row

enqueue-IsQueue :
    (max : ℕ) (event : ObservationEvent) (rows : List Row)
    → 1 ≤ max
    → IsQueue max rows
    → IsQueue max (enqueue event rows)
unfolding enqueue
enqueue-IsQueue max event rows m q = elim (Bool-cases (any (clashes event) rows)) [
  | inl clash ↦ rw clash q
  | inr fresh ↦ rw fresh (record {
    each = All-append (IsKept max) rows (new_row event ∷ []) q.each (omega arith, tt);
    unique = IsUnique-snoc (new_row event) rows (clashes-IsApart event rows fresh) q.unique;
  })
]

retried-IsKept :
    (max n : ℕ) (code : String) (at : ℕ) (row : Row) → IsKept max (retried max n code at row)
unfolding retried
retried-IsKept max n code at row = elim (Bool-cases (leb max n)) [
  | inl out ↦ let le : max ≤ n = ground arith in simp out le
  | inr more ↦ let less : n < max = ground arith in simp more less
]

Step-IsQueue :
    (max : ℕ) {rows rows' : List Row}
    → 1 ≤ max
    → Step max rows rows'
    → IsQueue max rows
    → IsQueue max rows'
unfolding mark_delivered mark_retry retried cleanup_delivered
Step-IsQueue max m (enqueued {rows} event) q = enqueue-IsQueue max event rows m q
Step-IsQueue max m (delivered_now {rows} now id) q = record {
  each = All-update _ id (IsKept max) rows (λ r k. refl) q.each;
  unique = update-IsUnique _ id (λ r. refl) (λ r. refl) rows q.unique;
}
Step-IsQueue max m (retried_later {rows} id code at) q =
    let n : ℕ = attempts_of id rows + 1 in
    record {
      each =
          All-update (retried max n code at) id (IsKept max) rows
            (λ r k. retried-IsKept max n code at r) q.each;
      unique = update-IsUnique (retried max n code at) id (λ r. refl) (λ r. refl) rows q.unique;
    }
Step-IsQueue max m (cleaned {rows} now hours) q = record {
  each = All-map (select _ rows) (λ r k. k.0) (All-select (IsKept max) _ rows q.each);
  unique = select-IsUnique _ rows q.unique;
}

-- After any insertions, deliveries, retries and cleanups: no two rows have the same event id or the
-- same dedupe key (so that a request has at most one user and one assistant event), a pending
-- row has attempts left, a dead letter has used them up, and a delivered row has its time.
pub Reach-IsQueue : (max : ℕ) {rows : List Row} → 1 ≤ max → Reach max rows → IsQueue max rows
Reach-IsQueue max m start = record { each = tt; unique = tt }
Reach-IsQueue max m (next r s) = Step-IsQueue max m s (Reach-IsQueue max m r)
