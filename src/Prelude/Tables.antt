-- ===== src/Prelude/Tables.antt =====
-- A table of the database is the list of its rows in the order of insertion. These are the query
-- forms that the statements use: WHERE, UPDATE … WHERE, ORDER BY … LIMIT 1, COUNT and MAX.
use Prim.Native.Nat.{ℕ, suc, ◌+◌, ◌≤◌, ◌<◌, max}
use mathlib.Core.Path.{◌≡◌, refl}
use mathlib.Core.Logic.{inl, inr}
use mathlib.Core.Bool.{Bool, true, false, ◌&&◌, ◌||◌}
use mathlib.Core.Option.{Option, none, some}
use mathlib.Core.List.{List, [], ◌∷◌, ◌++◌}
use native.Mathlib.Omega.{arith}
use pidex.Prelude.Tests.{if◌then◌else◌, Bool-cases}
use pidex.Prelude.Lists.{All, All-weaken}

module _ {ℓ} {A : Type ℓ} where
  -- SELECT 1 … LIMIT 1
  abbrev pub any : (A → Bool) → List A → Bool
  any p [] = false
  any p (x ∷ xs) = p x || any p xs

  abbrev pub all : (A → Bool) → List A → Bool
  all p [] = true
  all p (x ∷ xs) = p x && all p xs

  -- SELECT … WHERE
  abbrev pub select : (A → Bool) → List A → List A
  select p [] = []
  select p (x ∷ xs) = let rest = select p xs in if p x then x ∷ rest else rest

  -- the first row of SELECT … WHERE
  abbrev pub find? : (A → Bool) → List A → Option A
  find? p [] = none
  find? p (x ∷ xs) = let rest = find? p xs in if p x then some x else rest

  -- UPDATE … SET … WHERE
  abbrev pub update_where : (A → Bool) → (A → A) → List A → List A
  update_where p f [] = []
  update_where p f (x ∷ xs) = (if p x then f x else x) ∷ update_where p f xs

  -- SELECT COUNT(*) … WHERE
  abbrev pub count : (A → Bool) → List A → ℕ
  count p [] = 0
  count p (x ∷ xs) = if p x then suc (count p xs) else count p xs

  -- SELECT COALESCE(MAX(key), 0)
  abbrev pub max_of : (A → ℕ) → List A → ℕ
  max_of key [] = 0
  max_of key (x ∷ xs) = max (key x) (max_of key xs)

  -- ORDER BY: a stable insertion sort by a Boolean order
  abbrev pub insert_by : (A → A → Bool) → A → List A → List A
  insert_by le x [] = x ∷ []
  insert_by le x (y ∷ ys) = let rest = insert_by le x ys in if le x y then x ∷ y ∷ ys else y ∷ rest

  abbrev pub order_by : (A → A → Bool) → List A → List A
  order_by le [] = []
  order_by le (x ∷ xs) = insert_by le x (order_by le xs)

  abbrev pub head? : List A → Option A
  head? [] = none
  head? (x ∷ xs) = some x

-- What an update or an insertion does to the counts and to the tests.
module _ {ℓ} {A : Type ℓ} where
  pub count-append : (p : A → Bool) (xs ys : List A) → count p (xs ++ ys) ≡ count p xs + count p ys
  count-append p [] ys = omega arith
  count-append p (x ∷ xs) ys = ground (arith, count-append p xs ys)

  -- An update that turns no other row into a counted one does not raise the count.
  pub count-update_where_le :
      (p q : A → Bool) (f : A → A) (xs : List A)
      → ((x : A) → q x ≡ true → p (f x) ≡ true → p x ≡ true)
      → count p (update_where q f xs) ≤ count p xs
  count-update_where_le p q f [] h = omega arith
  count-update_where_le p q f (x ∷ xs) h = ground (arith, h x, count-update_where_le p q f xs h)

  -- At most the rows that are updated can become counted.
  pub count-update_where_add :
      (p q : A → Bool) (f : A → A) (xs : List A)
      → count p (update_where q f xs) ≤ count p xs + count q xs
  count-update_where_add p q f [] = omega arith
  count-update_where_add p q f (x ∷ xs) = ground (arith, count-update_where_add p q f xs)

  -- An update that keeps what is counted keeps the count.
  pub count-update_where_eq :
      (p q : A → Bool) (f : A → A) (xs : List A)
      → ((x : A) → p (f x) ≡ p x)
      → count p (update_where q f xs) ≡ count p xs
  count-update_where_eq p q f [] h = refl
  count-update_where_eq p q f (x ∷ xs) h = ground (arith, h x, count-update_where_eq p q f xs h)

  pub count-le_of_imp :
      (p q : A → Bool) (xs : List A) → ((x : A) → p x ≡ true → q x ≡ true) → count p xs ≤ count q xs
  count-le_of_imp p q [] h = omega arith
  count-le_of_imp p q (x ∷ xs) h = ground (arith, h x, count-le_of_imp p q xs h)

  pub count_of_not_any : (p : A → Bool) (xs : List A) → any p xs ≡ false → count p xs ≡ 0
  count_of_not_any p [] h = refl
  count_of_not_any p (x ∷ xs) h = ground (arith, count_of_not_any p xs)

  pub any_of_count : (p : A → Bool) (xs : List A) → count p xs ≡ 0 → any p xs ≡ false
  any_of_count p [] h = refl
  any_of_count p (x ∷ xs) h = ground (arith, any_of_count p xs)

  pub find?_sound : (p : A → Bool) (xs : List A) {x : A} → find? p xs ≡ some x → p x ≡ true
  find?_sound p [] h = cc
  find?_sound p (y ∷ ys) {x} h = ground (arith, find?_sound p ys {x = x})

  pub any_of_find? : (p : A → Bool) (xs : List A) {x : A} → find? p xs ≡ some x → any p xs ≡ true
  any_of_find? p [] h = cc
  any_of_find? p (y ∷ ys) {x} h = ground (arith, any_of_find? p ys {x = x})

  pub find?-none : (p : A → Bool) (xs : List A) → any p xs ≡ false → find? p xs ≡ none
  find?-none p [] h = refl
  find?-none p (y ∷ ys) h = ground (arith, find?-none p ys)

  pub key-le-max_of : (key : A → ℕ) (xs : List A) → All (λ x. key x ≤ max_of key xs) xs
  key-le-max_of key [] = tt
  key-le-max_of key (x ∷ xs) =
      (omega arith, All-weaken _ _ (λ y h. omega arith) xs (key-le-max_of key xs))

-- Facts of all rows, and what a key says of them.
module _ {ℓ} {A : Type ℓ} where
  pub All-universal {κ} : (P : A → Type κ) → ((x : A) → P x) → (xs : List A) → All P xs
  All-universal P h [] = tt
  All-universal P h (x ∷ xs) = (h x, All-universal P h xs)

  pub All-of_count_zero : (p : A → Bool) (xs : List A) → count p xs ≡ 0 → All (λ x. p x ≡ false) xs
  All-of_count_zero p [] h = tt
  All-of_count_zero p (x ∷ xs) h = (ground arith, All-of_count_zero p xs (ground arith))

  pub count_zero_of_All : (p : A → Bool) (xs : List A) → All (λ x. p x ≡ false) xs → count p xs ≡ 0
  count_zero_of_All p [] h = refl
  count_zero_of_All p (x ∷ xs) h = rw h.0 (count_zero_of_All p xs h.1)

  pub count-pos_of_find? :
      (p q : A → Bool) (xs : List A) (x : A)
      → ((y : A) → p y ≡ true → q y ≡ true)
      → find? p xs ≡ some x
      → 0 < count q xs
  count-pos_of_find? p q [] x pq found = cc
  count-pos_of_find? p q (y ∷ ys) x pq found = ground (arith, pq y, count-pos_of_find? p q ys x pq)

  -- Where `q` holds of one row at most, it holds only of the row that was found.
  pub All-unique :
      (p q : A → Bool) (xs : List A) (x : A)
      → ((y : A) → p y ≡ true → q y ≡ true)
      → count q xs ≤ 1
      → find? p xs ≡ some x
      → All (λ y. q y ≡ true → y ≡ x) xs
  All-unique p q [] x pq one found = tt
  All-unique p q (y ∷ ys) x pq one found = elim (Bool-cases (p y)) [
    | inl here ↦ (
      (λ _. ground arith),
      All-weaken (λ z. q z ≡ false) (λ z. q z ≡ true → z ≡ x) (λ z h k. cc) ys
          (All-of_count_zero q ys (ground (arith, pq y))),
    )
    | inr later ↦ (
      (λ held. absurd (ground (arith, count-pos_of_find? p q ys x pq))),
      All-unique p q ys x pq (ground arith) (ground arith),
    )
  ]

  -- What becomes counted is among the updated rows.
  pub count-update_where_among :
      (p q : A → Bool) (f : A → A) (xs : List A)
      → count p (update_where q f xs) ≤ count p xs + count (λ x. q x && p (f x)) xs
  count-update_where_among p q f [] = omega arith
  count-update_where_among p q f (x ∷ xs) = ground (arith, count-update_where_among p q f xs)

  pub All-counted : (q : A → Bool) (xs : List A) → All (λ y. q y ≡ true → 0 < count q xs) xs
  All-counted q [] = tt
  All-counted q (x ∷ xs) = (
    (λ held. ground arith),
    All-weaken (λ y. q y ≡ true → 0 < count q xs) (λ y. q y ≡ true → 0 < count q (x ∷ xs))
        (λ y h held. ground (arith, h held)) xs (All-counted q xs),
  )

  -- Two tests that exclude one another share what a third counts.
  pub count-disjoint :
      (p q r : A → Bool) (xs : List A)
      → ((x : A) → p x ≡ true → (r x ≡ true) × (q x ≡ false))
      → ((x : A) → q x ≡ true → r x ≡ true)
      → count p xs + count q xs ≤ count r xs
  count-disjoint p q r [] h k = omega arith
  count-disjoint p q r (x ∷ xs) h k = ground (arith, h x, k x, count-disjoint p q r xs h k)

  pub find?-append :
      (p : A → Bool) (xs ys : List A) (x : A) → find? p xs ≡ some x → find? p (xs ++ ys) ≡ some x
  find?-append p [] ys x h = cc
  find?-append p (z ∷ zs) ys x h = ground (arith, find?-append p zs ys x)

  pub find?-append_last :
      (p : A → Bool) (xs : List A) (y : A)
      → any p xs ≡ false
      → p y ≡ true
      → find? p (xs ++ y ∷ []) ≡ some y
  find?-append_last p [] y h e = rw e
  find?-append_last p (x ∷ xs) y h e = ground (arith, find?-append_last p xs y)

  pub select-append :
      (p : A → Bool) (xs ys : List A) → select p (xs ++ ys) ≡ select p xs ++ select p ys
  select-append p [] ys = refl
  select-append p (x ∷ xs) ys = ground (arith, select-append p xs ys)

  pub All-of_any : (p : A → Bool) (xs : List A) → any p xs ≡ false → All (λ x. p x ≡ false) xs
  All-of_any p [] h = tt
  All-of_any p (x ∷ xs) h = (ground arith, All-of_any p xs (ground arith))

  pub select-All : (p : A → Bool) (xs : List A) → All (λ x. p x ≡ true) (select p xs)
  select-All p [] = tt
  select-All p (x ∷ xs) = elim (Bool-cases (p x)) [
    | inl e ↦ rw e (e, select-All p xs)
    | inr e ↦ rw e (select-All p xs)
  ]
