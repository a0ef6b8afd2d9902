-- ===== src/Prelude/SortDown.antt =====
-- `list.sort(key=…, reverse=True)`, which is the sort of the reversed list, reversed; and what a sort
-- does to members and to pairs of members.
use Prim.Native.Nat.{ℕ, ◌≤◌}
use mathlib.Core.Path.{◌≡◌, refl, subst}
use mathlib.Core.Logic.{◌⊎◌, inl, inr}
use mathlib.Core.List.{List, [], ◌∷◌, ◌++◌, map}
use mnemostroma.Prelude.Tests.{leb, Bool-cases}
use mnemostroma.Prelude.Lists.{All, All-append}
use mnemostroma.Prelude.Sort.{All-map, insert, insert_all, sort, IsSorted, All-sort, sort-IsSorted}

module _ {ℓ} {A : Type ℓ} (P : A → Type 0) where
  -- Some member satisfies `P`.
  abbrev pub Any : List A → Type 0
  Any [] = ⊥
  Any (x ∷ xs) = P x ⊎ Any xs

  pub Any-append_left : (xs ys : List A) → Any xs → Any (xs ++ ys)
  Any-append_left [] ys h = elim h [ ]
  Any-append_left (x ∷ xs) ys (inl p) = inl p
  Any-append_left (x ∷ xs) ys (inr h) = inr (Any-append_left xs ys h)

  pub Any-append_right : (xs ys : List A) → Any ys → Any (xs ++ ys)
  Any-append_right [] ys h = h
  Any-append_right (x ∷ xs) ys h = inr (Any-append_right xs ys h)

  Any-insert : (key : A → ℕ) (x : A) (ys : List A) → P x ⊎ Any ys → Any (insert key x ys)
  Any-insert key x [] h = h
  Any-insert key x (y ∷ ys) h = elim (Bool-cases (leb (key y) (key x))) [
    | inl e ↦ rw e (elim h [
      | inl p ↦ inr (Any-insert key x ys (inl p))
      | inr (inl q) ↦ inl q
      | inr (inr k) ↦ inr (Any-insert key x ys (inr k))
    ])
    | inr e ↦ rw e h
  ]

  Any-insert_all :
      (key : A → ℕ) (done xs : List A) → Any done ⊎ Any xs → Any (insert_all key done xs)
  Any-insert_all key done [] (inl h) = h
  Any-insert_all key done [] (inr h) = elim h [ ]
  Any-insert_all key done (x ∷ xs) (inl h) =
      Any-insert_all key (insert key x done) xs (inl (Any-insert key x done (inr h)))
  Any-insert_all key done (x ∷ xs) (inr (inl p)) =
      Any-insert_all key (insert key x done) xs (inl (Any-insert key x done (inl p)))
  Any-insert_all key done (x ∷ xs) (inr (inr h)) = Any-insert_all key (insert key x done) xs (inr h)

  pub Any-sort : (key : A → ℕ) (xs : List A) → Any xs → Any (sort key xs)
  Any-sort key xs h = Any-insert_all key [] xs (inr h)

module _ {ℓ} {A : Type ℓ} where
  abbrev pub reverse : List A → List A
  reverse [] = []
  reverse (x ∷ xs) = reverse xs ++ x ∷ []

  abbrev pub sort_down : (A → ℕ) → List A → List A
  sort_down key xs = reverse (sort key (reverse xs))

  abbrev pub IsSortedDown : (A → ℕ) → List A → Type ℓ
  IsSortedDown key [] = Unit
  IsSortedDown key (x ∷ xs) = All (λ y. key y ≤ key x) xs × IsSortedDown key xs

module _ {ℓ κ} {A : Type ℓ} (P : A → Type κ) where
  All-reverse : (xs : List A) → All P xs → All P (reverse xs)
  All-reverse [] h = tt
  All-reverse (x ∷ xs) h = All-append P (reverse xs) (x ∷ []) (All-reverse xs h.1) (h.0, tt)

  pub All-sort_down : (key : A → ℕ) (xs : List A) → All P xs → All P (sort_down key xs)
  All-sort_down key xs h =
      All-reverse (sort key (reverse xs)) (All-sort P key (reverse xs) (All-reverse xs h))

module _ {ℓ} {A : Type ℓ} (P : A → Type 0) where
  Any-reverse : (xs : List A) → Any P xs → Any P (reverse xs)
  Any-reverse [] h = elim h [ ]
  Any-reverse (x ∷ xs) (inl p) = Any-append_right P (reverse xs) (x ∷ []) (inl p)
  Any-reverse (x ∷ xs) (inr h) = Any-append_left P (reverse xs) (x ∷ []) (Any-reverse xs h)

  pub Any-sort_down : (key : A → ℕ) (xs : List A) → Any P xs → Any P (sort_down key xs)
  Any-sort_down key xs h =
      Any-reverse (sort key (reverse xs)) (Any-sort P key (reverse xs) (Any-reverse xs h))

module _ {ℓ} {A : Type ℓ} (key : A → ℕ) where
  IsSortedDown-snoc :
      (xs : List A) (x : A)
      → IsSortedDown key xs
      → All (λ y. key x ≤ key y) xs
      → IsSortedDown key (xs ++ x ∷ [])
  IsSortedDown-snoc [] x h b = (tt, tt)
  IsSortedDown-snoc (y ∷ ys) x h b =
      (All-append (λ z. key z ≤ key y) ys (x ∷ []) h.0 (b.0, tt), IsSortedDown-snoc ys x h.1 b.1)

  reverse-IsSortedDown : (xs : List A) → IsSorted key xs → IsSortedDown key (reverse xs)
  reverse-IsSortedDown [] h = tt
  reverse-IsSortedDown (x ∷ xs) h =
      IsSortedDown-snoc (reverse xs) x (reverse-IsSortedDown xs h.1)
        (All-reverse (λ y. key x ≤ key y) xs h.0)

  pub sort_down-IsSortedDown : (xs : List A) → IsSortedDown key (sort_down key xs)
  sort_down-IsSortedDown xs =
      reverse-IsSortedDown (sort key (reverse xs)) (sort-IsSorted key (reverse xs))

-- Any two members are related, the earlier one first.
module _ {ℓ κ} {A : Type ℓ} (R : A → A → Type κ) where
  abbrev pub Pairwise : List A → Type κ
  Pairwise [] = Unit
  Pairwise (x ∷ xs) = All (R x) xs × Pairwise xs

  pub Pairwise-snoc :
      (xs : List A) (x : A) → Pairwise xs → All (λ y. R y x) xs → Pairwise (xs ++ x ∷ [])
  Pairwise-snoc [] x h b = (tt, tt)
  Pairwise-snoc (y ∷ ys) x h b =
      (All-append (R y) ys (x ∷ []) h.0 (b.0, tt), Pairwise-snoc ys x h.1 b.1)

  module _ (symm : (x y : A) → R x y → R y x) (key : A → ℕ) where
    All-insert_R : (z x : A) (ys : List A) → R z x → All (R z) ys → All (R z) (insert key x ys)
    All-insert_R z x [] r h = (r, tt)
    All-insert_R z x (y ∷ ys) r h = elim (Bool-cases (leb (key y) (key x))) [
      | inl e ↦ rw e (h.0, All-insert_R z x ys r h.1)
      | inr e ↦ rw e (r, h)
    ]

    Pairwise-insert :
        (x : A) (ys : List A) → All (R x) ys → Pairwise ys → Pairwise (insert key x ys)
    Pairwise-insert x [] b h = (tt, tt)
    Pairwise-insert x (y ∷ ys) b h = elim (Bool-cases (leb (key y) (key x))) [
      | inl e ↦ rw e (All-insert_R y x ys (symm x y b.0) h.0, Pairwise-insert x ys b.1 h.1)
      | inr e ↦ rw e (b, h)
    ]

    -- What is still to be inserted is related to what has been, and to itself.
    Pairwise-insert_all :
        (done xs : List A)
        → Pairwise done
        → Pairwise xs
        → All (λ x. All (R x) done) xs
        → Pairwise (insert_all key done xs)
    Pairwise-insert_all done [] d h b = d
    Pairwise-insert_all done (x ∷ xs) d h b =
        Pairwise-insert_all (insert key x done) xs (Pairwise-insert x done b.0 d) h.1
          (still xs h.0 b.1)
      where
        still :
            (ys : List A)
            → All (R x) ys
            → All (λ y. All (R y) done) ys
            → All (λ y. All (R y) (insert key x done)) ys
        still [] r k = tt
        still (y ∷ ys) r k = (All-insert_R y x done (symm x y r.0) k.0, still ys r.1 k.1)

    pub Pairwise-sort : (xs : List A) → Pairwise xs → Pairwise (sort key xs)
    Pairwise-sort xs h = Pairwise-insert_all [] xs tt h (none_done xs)
      where
        none_done : (ys : List A) → All (λ y. All (R y) []) ys
        none_done [] = tt
        none_done (y ∷ ys) = (tt, none_done ys)

    Pairwise-reverse : (xs : List A) → Pairwise xs → Pairwise (reverse xs)
    Pairwise-reverse [] h = tt
    Pairwise-reverse (x ∷ xs) h =
        Pairwise-snoc (reverse xs) x (Pairwise-reverse xs h.1)
          (All-reverse (λ y. R y x) xs (All-map xs (λ y r. symm x y r) h.0))

    pub Pairwise-sort_down : (xs : List A) → Pairwise xs → Pairwise (sort_down key xs)
    Pairwise-sort_down xs h =
        Pairwise-reverse (sort key (reverse xs))
          (Pairwise-sort (reverse xs) (Pairwise-reverse xs h))

module _ {ℓ} {A : Type ℓ} {P Q : A → Type 0} where
  pub Any-map : (xs : List A) → ((x : A) → P x → Q x) → Any P xs → Any Q xs
  Any-map [] f h = elim h [ ]
  Any-map (x ∷ xs) f (inl p) = inl (f x p)
  Any-map (x ∷ xs) f (inr h) = inr (Any-map xs f h)

module _ {ℓ κ} {A : Type ℓ} {P : A → Type κ} {Q : A → Type 0} where
  -- What all members satisfy, the member that is meant satisfies too.
  pub Any-All : (xs : List A) → All P xs → Any Q xs → (x : A) × (P x) × (Q x)
  Any-All [] h k = elim k [ ]
  Any-All (x ∷ xs) h (inl q) = (x, h.0, q)
  Any-All (x ∷ xs) h (inr k) = Any-All xs h.1 k

module _ {A : Type 0} where
  -- Every member is one.
  pub members : (xs : List A) → All (λ x. Any (λ y. y ≡ x) xs) xs
  members [] = tt
  members (x ∷ xs) = (inl refl, All-map xs (λ y h. inr h) (members xs))

  pub All-unsort_down :
      (P : A → Type 0) (key : A → ℕ) (xs : List A) → All P (sort_down key xs) → All P xs
  All-unsort_down P key xs h =
      All-map xs
        (λ x m.
          let (y, p, e) = Any-All (sort_down key xs) h (Any-sort_down (λ y. y ≡ x) key xs m) in
          subst P e p)
        (members xs)

module _ {ℓ κ ι} {A : Type ℓ} (P : A → Type κ) (Q : A → Type ι) where
  pub All-both : (xs : List A) → All P xs → All Q xs → All (λ x. P x × Q x) xs
  All-both [] h k = tt
  All-both (x ∷ xs) h k = ((h.0, k.0), All-both xs h.1 k.1)

module _ {ℓ κ ι} {A : Type ℓ} {B : Type κ} (P : B → Type ι) (f : A → B) where
  pub All-mapped : (xs : List A) → All (λ x. P (f x)) xs → All P (map f xs)
  All-mapped [] h = tt
  All-mapped (x ∷ xs) h = (h.0, All-mapped xs h.1)
