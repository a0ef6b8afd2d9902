-- ===== src/IpcPool/Counted.antt =====
-- As long as nobody stops the pool, no connection is lost and no call waits to put one back.
use mathlib.Core.Path.{subst}
use mnemostroma.Prelude.{
  true≢false, ℕ, zero, suc, ◌+◌, ◌<◌, ◌≡◌, refl, sym, ap, Bool, true, false, List, [], ◌∷◌, arith,
  ltb, if◌then◌else◌, length, length-append, ltb→lt,
}
use mnemostroma.IpcPool.{
  Pool, new_pool, fresh, start, stop, take_conn, taken, Ending, conn_after, put_back, without,
  end_call, admitted, admit,
}

-- A step of the pool, and whether it is a stop.
pub data Step : Pool → Bool → Pool → Type 0 where
  starts : (p : Pool) (connected : Bool) → Step p false (start connected p)
  stops : (p : Pool) → Step p true (stop p)
  takes : (p : Pool) → p.started ≡ true → Step p false (take_conn p)
  ends : (p : Pool) (index : ℕ) (ending : Ending) → Step p false (end_call index ending p)
  admits : (p : Pool) → Step p false (admit p)

pub data Reach (size : ℕ) : Bool → Pool → Type 0 where
  here : Reach size false (new_pool size)
  next :
      {stopped stops : Bool} {p q : Pool}
      → Reach size stopped p
      → Step p stops q
      → Reach size (if stops then true else stopped) q

-- Every connection is idle or held by a call, none before the start and `size` after it.
pub record IsWhole (size : ℕ) (p : Pool) : Type 0 where
  pub same_size : p.size ≡ size
  pub all_there : length p.idle + length p.busy ≡ (if p.started then size else 0)
  pub none_waits : p.waiting ≡ []

length-fresh : (n : ℕ) → length (fresh n) ≡ n
unfolding fresh
length-fresh zero = refl
length-fresh (suc n) = omega (arith, length-fresh n)

length-without : (n : ℕ) (bs : List Bool) → n < length bs → length (without n bs) + 1 ≡ length bs
unfolding without
length-without n [] h = absurd (omega (arith, h))
length-without zero (b ∷ bs) h = omega arith
length-without (suc n) (b ∷ bs) h = omega (arith, length-without n bs (omega (arith, h)))

if_either :
    (P : Pool → Type 0) (b : Bool) {p q : Pool}
    → (b ≡ true → P p)
    → (b ≡ false → P q)
    → P (if b then p else q)
if_either P true f g = f refl
if_either P false f g = g refl

start-IsWhole :
    (size : ℕ) (connected : Bool) (p : Pool) → IsWhole size p → IsWhole size (start connected p)
unfolding start
start-IsWhole size connected p h =
    if_either (IsWhole size) p.started (λ e. h)
      (λ e.
        if_either (IsWhole size) connected
          (λ c. record {
            same_size = h.same_size;
            all_there = ground (
              arith,
              length-fresh p.size,
              h.same_size,
              h.all_there,
              ap (λ b. if b then size else 0) e,
            );
            none_waits = h.none_waits;
          })
          (λ c. h))

taken-IsWhole :
    (size : ℕ) (p : Pool) (idle : List Bool)
    → p.idle ≡ idle
    → IsWhole size p
    → IsWhole size (taken idle p)
unfolding taken
taken-IsWhole size p [] e h = h
taken-IsWhole size p (conn ∷ rest) e h = record {
  same_size = h.same_size;
  all_there = omega (arith, h.all_there, ap length e, length-append p.busy (conn ∷ []));
  none_waits = h.none_waits;
}

put_back-IsWhole :
    (size : ℕ) (conn : Bool) (p : Pool)
    → p.size ≡ size
    → length p.idle + length p.busy + 1 ≡ (if p.started then size else 0)
    → p.waiting ≡ []
    → IsWhole size (put_back conn p)
unfolding put_back
put_back-IsWhole size conn p s c w =
    if_either (IsWhole size) (ltb (length p.idle) p.size)
      (λ e. record {
        same_size = s;
        all_there = omega (arith, c, length-append p.idle (conn ∷ []));
        none_waits = w;
      })
      (λ e. absurd (ground (arith, e, s, c)))

end_call-IsWhole :
    (size index : ℕ) (ending : Ending) (p : Pool)
    → IsWhole size p
    → IsWhole size (end_call index ending p)
unfolding end_call
end_call-IsWhole size index ending p h =
    if_either (IsWhole size) (ltb index (length p.busy))
      (λ e.
        put_back-IsWhole size (conn_after ending) (record p { busy = without index p.busy })
          h.same_size
          (omega (arith, h.all_there, length-without index p.busy (ltb→lt index (length p.busy) e)))
          h.none_waits)
      (λ e. h)

Step-IsWhole :
    {size : ℕ} {p q : Pool} {stops : Bool}
    → Step p stops q
    → stops ≡ false
    → IsWhole size p
    → IsWhole size q
unfolding take_conn admit admitted
Step-IsWhole {size} (starts p connected) e h = start-IsWhole size connected p h
Step-IsWhole (stops p) e h = absurd (true≢false e)
Step-IsWhole {size} (takes p t) e h = taken-IsWhole size p p.idle refl h
Step-IsWhole {size} (ends p index ending) e h = end_call-IsWhole size index ending p h
Step-IsWhole {size} (admits p) e h =
    subst (λ waiting. IsWhole size (admitted waiting p)) (sym h.none_waits) h

-- In any history of overlapping calls without a stop, whatever the socket does, every connection is idle or
-- held by a call: none before the pool has started, and `size` of them afterwards, so that no
-- call waits to put its connection back.
pub Reach-IsWhole :
    {size : ℕ} {stopped : Bool} {p : Pool} → Reach size stopped p → stopped ≡ false → IsWhole size p
unfolding new_pool
Reach-IsWhole here e = record { same_size = refl; all_there = omega arith; none_waits = refl }
Reach-IsWhole (next {stopped} {stops} {p} {q} r st) e =
    Step-IsWhole st (ground (arith, e)) (Reach-IsWhole r (ground (arith, e)))
