-- ===== src/Gateway/Outbox/Retries.antt =====
-- What is fetched for delivery, and how often an event is tried.
use mnemostroma.Prelude.{
  ℕ, ◌+◌, ◌≤◌, String, ◌≡◌, refl, ◌∙◌, sym, ap, true, Option, none, some, List, [], ◌∷◌, arith,
  ◌==◌, string_eq, leb, if◌then◌else◌, length, All, All-take, select, drop, min, length-take,
}
use mnemostroma.Prelude.Sort.{
  sort, sort-IsSorted, take_below_drop, All-sort, All-select, All-map, length-sort,
}
use mnemostroma.Gateway.Outbox.{
  RowState, Row, is_ready, fetch_ready_batch, update, attempts_of, retried, mark_retry,
}

-- The rows that are due, the longest due in front.
abbrev pub due : ℕ → List Row → List Row
due now rows = sort (λ row. row.next_attempt_at) (select (is_ready now) rows)

All-true : (rows : List Row) → All (λ (row : Row). Unit {0}) rows
All-true [] = tt
All-true (row ∷ rows) = (tt, All-true rows)

-- A fetch takes as many of the rows that are due as the batch has room for; all of them are pending
-- and due, and none of them is due later than one that is left.
pub fetch_ready_batch_lem :
    (batch_size now : ℕ) (rows : List Row)
    → (length (fetch_ready_batch batch_size now rows)
        ≡ min batch_size (length (select (is_ready now) rows)))
      × All (λ row. is_ready now row ≡ true) (fetch_ready_batch batch_size now rows)
      × All
          (λ x. All (λ y. x.next_attempt_at ≤ y.next_attempt_at) (drop batch_size (due now rows)))
          (fetch_ready_batch batch_size now rows)
unfolding fetch_ready_batch
fetch_ready_batch_lem n now rows =
    let key : Row → ℕ = λ row. row.next_attempt_at in
    let ready : List Row = select (is_ready now) rows in
    (
      length-take n (due now rows) ∙ ap (min n) (length-sort key ready),
      All-take _ n (due now rows) (
          All-sort _ key ready
            (All-map ready (λ r k. k.1) (All-select _ (is_ready now) rows (All-true rows)))),
      take_below_drop key n (due now rows) (sort-IsSorted key ready),
    )

-- `SELECT … WHERE event_id = ?`
abbrev pub find : String → List Row → Option Row
find id [] = none
find id (row ∷ rows) = if row.event_id == id then some row else find id rows

attempts_of-find :
    (id : String) (rows : List Row) (row : Row)
    → find id rows ≡ some row
    → attempts_of id rows ≡ row.attempts
unfolding attempts_of
attempts_of-find id [] row h = cc
attempts_of-find id (r ∷ rows) row h = ground (arith, attempts_of-find id rows row)

find-update :
    (f : Row → Row) (id : String) (rows : List Row) (row : Row)
    → ((r : Row) → (f r).event_id ≡ r.event_id)
    → find id rows ≡ some row
    → find id (update f id rows) ≡ some (f row)
find-update f id [] row k h = cc
find-update f id (r ∷ rows) row k h = ground (arith, find-update f id rows row k, k r)

-- Failed deliveries of one event, each with its error and the time of the next attempt.
pub retry_all : ℕ → String → List (String × ℕ) → List Row → List Row
retry_all max id [] rows = rows
retry_all max id ((code, at) ∷ fails) rows = retry_all max id fails (mark_retry max id code at rows)

mark_retry-find :
    (max : ℕ) (id code : String) (at : ℕ) (rows : List Row) (row : Row)
    → find id rows ≡ some row
    → find id (mark_retry max id code at rows) ≡ some (retried max (row.attempts + 1) code at row)
unfolding mark_retry retried
mark_retry-find max id code at rows row h =
    ap (λ n. find id (update (retried max (n + 1) code at) id rows))
      (attempts_of-find id rows row h)
    ∙ find-update (retried max (row.attempts + 1) code at) id rows row (λ r. refl) h

-- After a run of failed deliveries, the row of an event counts each of them; it is a dead letter,
-- which is no longer fetched, exactly if the count has reached the limit, and is pending otherwise.
pub retry_all_lem :
    (max : ℕ) (id code : String) (at : ℕ) (fails : List (String × ℕ)) (rows : List Row) (row : Row)
    → find id rows ≡ some row
    → (row' : Row) × (find id (retry_all max id ((code, at) ∷ fails) rows) ≡ some row')
      × (row'.attempts ≡ row.attempts + length fails + 1)
      × (row'.state ≡ (
          if leb max (row.attempts + length fails + 1)
          then RowState.dead_letter
          else RowState.pending))
unfolding retry_all retried
retry_all_lem max id code at [] rows row h =
    let same : row.attempts + 0 + 1 ≡ row.attempts + 1 = omega arith in
    (
      retried max (row.attempts + 1) code at row,
      mark_retry-find max id code at rows row h,
      sym same,
      ap (λ n. if leb max n then RowState.dead_letter else RowState.pending) (sym same),
    )
retry_all_lem max id code at ((code', at') ∷ fails) rows row h =
    let row1 : Row = retried max (row.attempts + 1) code at row in
    let (last, found, count, state) =
      retry_all_lem max id code' at' fails (mark_retry max id code at rows) row1
        (mark_retry-find max id code at rows row h) in
    let same : row.attempts + 1 + length fails + 1
        ≡ row.attempts + length ((code', at') ∷ fails) + 1 =
      omega arith in
    (
      last,
      found,
      count ∙ same,
      state ∙ ap (λ n. if leb max n then RowState.dead_letter else RowState.pending) same,
    )
