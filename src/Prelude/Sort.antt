-- ===== src/Prelude/Sort.antt =====
-- `list.sort(key=…)`: a stable sort by a number, and what an order gives to a part of a list.
use Prim.Native.Nat.{ℕ, zero, suc, ◌+◌, ◌≤◌}
use mathlib.Core.Path.{◌≡◌, refl, ap, sym, ◌∙◌}
use mathlib.Core.Logic.{inl, inr}
use mathlib.Core.Bool.{Bool, true}
use mathlib.Core.List.{List, [], ◌∷◌}
use native.Mathlib.Omega.{arith}
use mnemostroma.Prelude.Tests.{leb, if◌then◌else◌, Bool-cases}
use mnemostroma.Prelude.Lists.{All, select, take, drop, length}

module _ {ℓ} {A : Type ℓ} (key : A → ℕ) where
  -- `x` goes behind everything that is not greater, so that equal keys keep their order.
  abbrev pub insert : A → List A → List A
  insert x [] = x ∷ []
  insert x (y ∷ ys) = let rest = insert x ys in if leb (key y) (key x) then y ∷ rest else x ∷ y ∷ ys

  abbrev pub insert_all : List A → List A → List A
  insert_all done [] = done
  insert_all done (x ∷ xs) = insert_all (insert x done) xs

  abbrev pub sort : List A → List A
  sort xs = insert_all [] xs

  abbrev pub IsSorted : List A → Type ℓ
  IsSorted [] = Unit
  IsSorted (x ∷ xs) = All (λ y. key x ≤ key y) xs × IsSorted xs

module _ {ℓ κ} {A : Type ℓ} (P : A → Type κ) where
  All-insert : (key : A → ℕ) (x : A) (ys : List A) → P x → All P ys → All P (insert key x ys)
  All-insert key x [] p h = (p, tt)
  All-insert key x (y ∷ ys) p h = elim (Bool-cases (leb (key y) (key x))) [
    | inl e ↦ rw e (h.0, All-insert key x ys p h.1)
    | inr e ↦ rw e (p, h)
  ]

  All-insert_all :
      (key : A → ℕ) (done xs : List A) → All P done → All P xs → All P (insert_all key done xs)
  All-insert_all key done [] d h = d
  All-insert_all key done (x ∷ xs) d h =
      All-insert_all key (insert key x done) xs (All-insert key x done h.0 d) h.1

  pub All-sort : (key : A → ℕ) (xs : List A) → All P xs → All P (sort key xs)
  All-sort key xs h = All-insert_all key [] xs tt h

  pub All-select :
      (p : A → Bool) (xs : List A) → All P xs → All (λ x. P x × (p x ≡ true)) (select p xs)
  All-select p [] h = tt
  All-select p (x ∷ xs) h = elim (Bool-cases (p x)) [
    | inl e ↦ rw (e, if◌then◌else◌) ((h.0, e), All-select p xs h.1)
    | inr e ↦ rw e (All-select p xs h.1)
  ]

  pub All-drop : (n : ℕ) (xs : List A) → All P xs → All P (drop n xs)
  All-drop zero xs h = h
  All-drop (suc n) [] h = tt
  All-drop (suc n) (x ∷ xs) h = All-drop n xs h.1

module _ {ℓ κ ι} {A : Type ℓ} {P : A → Type κ} {Q : A → Type ι} where
  pub All-map : (xs : List A) → ((x : A) → P x → Q x) → All P xs → All Q xs
  All-map [] f h = tt
  All-map (x ∷ xs) f h = (f x h.0, All-map xs f h.1)

module _ {ℓ} {A : Type ℓ} (key : A → ℕ) where
  insert-IsSorted : (x : A) (ys : List A) → IsSorted key ys → IsSorted key (insert key x ys)
  insert-IsSorted x [] h = (tt, tt)
  insert-IsSorted x (y ∷ ys) h = elim (Bool-cases (leb (key y) (key x))) [
    | inl e ↦
        rw e (All-insert (λ z. key y ≤ key z) key x ys (ground arith) h.0, insert-IsSorted x ys h.1)
    | inr e ↦
        let less : key x ≤ key y = ground arith in
        rw e ((less, All-map ys (λ z k. omega arith) h.0), h)
  ]

  insert_all-IsSorted :
      (done xs : List A) → IsSorted key done → IsSorted key (insert_all key done xs)
  insert_all-IsSorted done [] h = h
  insert_all-IsSorted done (x ∷ xs) h =
      insert_all-IsSorted (insert key x done) xs (insert-IsSorted x done h)

  pub sort-IsSorted : (xs : List A) → IsSorted key (sort key xs)
  sort-IsSorted xs = insert_all-IsSorted [] xs tt

  pub select-IsSorted : (p : A → Bool) (xs : List A) → IsSorted key xs → IsSorted key (select p xs)
  select-IsSorted p [] h = tt
  select-IsSorted p (x ∷ xs) h = elim (Bool-cases (p x)) [
    | inl e ↦ rw e (
      All-map (select p xs) (λ y k. k.0) (All-select (λ y. key x ≤ key y) p xs h.0),
      select-IsSorted p xs h.1,
    )
    | inr e ↦ rw e (select-IsSorted p xs h.1)
  ]

  -- What stands in front of place `n` is below what stands behind it.
  pub take_below_drop :
      (n : ℕ) (xs : List A)
      → IsSorted key xs
      → All (λ x. All (λ y. key x ≤ key y) (drop n xs)) (take n xs)
  take_below_drop zero xs h = tt
  take_below_drop (suc n) [] h = tt
  take_below_drop (suc n) (x ∷ xs) h =
      (All-drop (λ y. key x ≤ key y) n xs h.0, take_below_drop n xs h.1)

  -- A sort keeps how many satisfy a test.
  length-select-insert :
      (p : A → Bool) (x : A) (ys : List A)
      → length (select p (insert key x ys)) ≡ (if p x then 1 else 0) + length (select p ys)
  length-select-insert p x [] = ground arith
  length-select-insert p x (y ∷ ys) = elim (Bool-cases (leb (key y) (key x))) [
    | inl e ↦ rw e (ground (arith, length-select-insert p x ys))
    | inr e ↦ rw e (ground arith)
  ]

  length-select-insert_all :
      (p : A → Bool) (done xs : List A)
      → length (select p (insert_all key done xs)) ≡ length (select p done) + length (select p xs)
  length-select-insert_all p done [] = omega arith
  length-select-insert_all p done (x ∷ xs) =
      ground
        (arith, length-select-insert_all p (insert key x done) xs, length-select-insert p x done)

  pub length-select-sort :
      (p : A → Bool) (xs : List A) → length (select p (sort key xs)) ≡ length (select p xs)
  length-select-sort p xs = omega (arith, length-select-insert_all p [] xs)

module _ {ℓ} {A : Type ℓ} where
  select_all : (xs : List A) → select (λ x. true) xs ≡ xs
  select_all [] = refl
  select_all (x ∷ xs) = ap (λ r. x ∷ r) (select_all xs)

  pub length-sort : (key : A → ℕ) (xs : List A) → length (sort key xs) ≡ length xs
  length-sort key xs =
      ap length (sym (select_all (sort key xs)))
      ∙ length-select-sort key (λ x. true) xs
      ∙ ap length (select_all xs)
