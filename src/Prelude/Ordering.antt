-- ===== src/Prelude/Ordering.antt =====
-- What ORDER BY … LIMIT 1 and WHERE say of the rows: the row that heads a sorted selection is
-- selected, stands in the table, and comes first.
use Prim.Native.Nat.{ℕ, ◌≤◌, ◌<◌}
use mathlib.Core.Path.{◌≡◌, refl, subst}
use mathlib.Core.Logic.{inl, inr}
use mathlib.Core.Bool.{Bool, true}
use mathlib.Core.Option.{some}
use mathlib.Core.List.{List, [], ◌∷◌}
use native.Mathlib.Omega.{arith}
use pidex.Prelude.Tests.{leb, Bool-cases}
use pidex.Prelude.Lists.{All, All-weaken}
use pidex.Prelude.Tables.{select, insert_by, order_by, head?, count, All-universal, All-counted}

module _ {ℓ κ} {A : Type ℓ} (P : A → Type κ) where
  pub All-insert_by :
      (le : A → A → Bool) (x : A) (xs : List A) → P x → All P xs → All P (insert_by le x xs)
  All-insert_by le x [] p h = (p, tt)
  All-insert_by le x (y ∷ ys) p h = elim (Bool-cases (le x y)) [
    | inl first ↦ rw first (p, h)
    | inr later ↦ rw later (h.0, All-insert_by le x ys p h.1)
  ]

  pub All-order_by : (le : A → A → Bool) (xs : List A) → All P xs → All P (order_by le xs)
  All-order_by le [] h = tt
  All-order_by le (x ∷ xs) h = All-insert_by le x (order_by le xs) h.0 (All-order_by le xs h.1)

  pub All-select :
      (p : A → Bool) (xs : List A) → All (λ x. p x ≡ true → P x) xs → All P (select p xs)
  All-select p [] h = tt
  All-select p (x ∷ xs) h = elim (Bool-cases (p x)) [
    | inl taken ↦ rw taken (h.0 taken, All-select p xs h.1)
    | inr left ↦ rw left (All-select p xs h.1)
  ]

  pub All-of_select :
      (p : A → Bool) (xs : List A) → All P (select p xs) → All (λ x. p x ≡ true → P x) xs
  All-of_select p [] h = tt
  All-of_select p (x ∷ xs) h = elim (Bool-cases (p x)) [
    | inl taken ↦
        let k : P x × All P (select p xs) = rw taken at h in ((λ _. k.0), All-of_select p xs k.1)
    | inr left ↦ let k : All P (select p xs) = rw left at h in ((λ t. cc), All-of_select p xs k)
  ]

  pub All-head? : (xs : List A) (x : A) → All P xs → head? xs ≡ some x → P x
  All-head? [] x h e = cc
  All-head? (y ∷ ys) x h e = subst P (cc) h.0

  All-of_insert_by :
      (le : A → A → Bool) (x : A) (xs : List A) → All P (insert_by le x xs) → P x × All P xs
  All-of_insert_by le x [] h = h
  All-of_insert_by le x (y ∷ ys) h = elim (Bool-cases (le x y)) [
    | inl first ↦ let k : P x × All P (y ∷ ys) = rw first at h in k
    | inr later ↦
        let k : P y × All P (insert_by le x ys) = rw later at h in
        let (px, rest) = All-of_insert_by le x ys k.1 in (px, (k.0, rest))
  ]

  pub All-of_order_by : (le : A → A → Bool) (xs : List A) → All P (order_by le xs) → All P xs
  All-of_order_by le [] h = tt
  All-of_order_by le (x ∷ xs) h =
      let (px, rest) = All-of_insert_by le x (order_by le xs) h in (px, All-of_order_by le xs rest)

-- Sorting by a number.
module _ {ℓ} {A : Type ℓ} (key : A → ℕ) where
  abbrev pub by_key : A → A → Bool
  by_key a b = leb (key a) (key b)

  abbrev pub Ascending : List A → Type 0
  Ascending [] = Unit
  Ascending (x ∷ xs) = All (λ y. key x ≤ key y) xs × Ascending xs

  Ascending-insert_by : (x : A) (xs : List A) → Ascending xs → Ascending (insert_by by_key x xs)
  Ascending-insert_by x [] h = (tt, tt)
  Ascending-insert_by x (y ∷ ys) h = elim (Bool-cases (by_key x y)) [
    | inl first ↦ rw first (
      (
        ground arith,
        All-weaken (λ z. key y ≤ key z) (λ z. key x ≤ key z) (λ z k. ground arith) ys h.0,
      ),
      h,
    )
    | inr later ↦ rw later (
      All-insert_by (λ z. key y ≤ key z) by_key x ys (ground arith) h.0,
      Ascending-insert_by x ys h.1,
    )
  ]

  pub Ascending-order_by : (xs : List A) → Ascending (order_by by_key xs)
  Ascending-order_by [] = tt
  Ascending-order_by (x ∷ xs) = Ascending-insert_by x _ (Ascending-order_by xs)

  -- A sorted list is its own sorting.
  insert_by_least :
      (x : A) (xs : List A) → All (λ y. key x ≤ key y) xs → insert_by by_key x xs ≡ x ∷ xs
  insert_by_least x [] h = refl
  insert_by_least x (y ∷ ys) h = let k = h.0 in ground arith

  pub order_by_sorted : (xs : List A) → Ascending xs → order_by by_key xs ≡ xs
  order_by_sorted [] h = refl
  order_by_sorted (x ∷ xs) h = rw (order_by_sorted xs h.1) (insert_by_least x xs h.0)

  head?-Ascending :
      (xs : List A) (x : A) → Ascending xs → head? xs ≡ some x → All (λ y. key x ≤ key y) xs
  head?-Ascending [] x h e = cc
  head?-Ascending (y ∷ ys) x h e =
      subst (λ z. All (λ w. key z ≤ key w) (y ∷ ys)) (cc) (omega arith, h.0)

  -- SELECT … WHERE p ORDER BY key LIMIT 1
  module _ (p : A → Bool) (xs : List A) (x : A)
      (first : head? (order_by by_key (select p xs)) ≡ some x) where
    pub first-least : All (λ y. p y ≡ true → key x ≤ key y) xs
    first-least =
        All-of_select (λ y. key x ≤ key y) p xs
          (All-of_order_by (λ y. key x ≤ key y) by_key (select p xs)
            (head?-Ascending _ x (Ascending-order_by (select p xs)) first))

    pub first-taken : p x ≡ true
    first-taken =
        All-head? (λ y. p y ≡ true) _ x
          (All-order_by (λ y. p y ≡ true) by_key (select p xs)
            (All-select (λ y. p y ≡ true) p xs (All-universal _ (λ y e. e) xs)))
          first

    -- It stands in the table: what holds of it is counted.
    pub first-counted : (q : A → Bool) → q x ≡ true → 0 < count q xs
    first-counted q held =
        All-head? (λ y. q y ≡ true → 0 < count q xs) _ x
          (All-order_by (λ y. q y ≡ true → 0 < count q xs) by_key (select p xs)
            (All-select (λ y. q y ≡ true → 0 < count q xs) p xs
              (All-weaken (λ y. q y ≡ true → 0 < count q xs)
                (λ y. p y ≡ true → q y ≡ true → 0 < count q xs) (λ y k _. k) xs
                (All-counted q xs))))
          first held
