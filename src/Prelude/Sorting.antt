-- ===== src/Prelude/Sorting.antt =====
-- Stable insertion sort, which is what Python's `sort` and `sorted` compute, and its laws.
use mathlib.Core.List.{Permᴰ}
use news_crawl_intelligence.Prelude.Tests.{if◌then◌else◌, Bool-cases}
use news_crawl_intelligence.Prelude.Lists.{All, count_if}
use mathlib.Core.Path.{◌≡◌, refl, ◌∙◌}
use mathlib.Core.Logic.{inl, inr}
use mathlib.Core.Bool.{Bool, true, false}
use mathlib.Core.List.{List, [], ◌∷◌}
use native.Mathlib.Omega.{arith}

module _ {ℓ} {A : Type ℓ} where
  unfoldable pub insert : (A → A → Bool) → A → List A → List A
  insert le a [] = a ∷ []
  insert le a (x ∷ xs) = let rest = insert le a xs in if le a x then a ∷ x ∷ xs else x ∷ rest

  unfoldable pub sort : (A → A → Bool) → List A → List A
  unfolding insert
  sort le [] = []
  sort le (x ∷ xs) = insert le x (sort le xs)

  -- A Boolean test that is a total order.
  pub record IsTotalOrder (le : A → A → Bool) : Type ℓ where
    pub total : (a b : A) → le a b ≡ false → le b a ≡ true
    pub trans : (a b c : A) → le a b ≡ true → le b c ≡ true → le a c ≡ true
    pub antisym : (a b : A) → le a b ≡ true → le b a ≡ true → a ≡ b

  -- No item is greater than one behind it.
  abbrev pub IsSorted : (A → A → Bool) → List A → Type ℓ
  IsSorted le [] = Unit
  IsSorted le (x ∷ xs) = All (λ y. le x y ≡ true) xs × IsSorted le xs

module _ {ℓ κ} {A : Type ℓ} (P : A → Type κ) where
  All-insert : (le : A → A → Bool) (a : A) (xs : List A) → P a → All P xs → All P (insert le a xs)
  unfolding insert
  All-insert le a [] h k = (h, tt)
  All-insert le a (x ∷ xs) h k = elim (Bool-cases (le a x)) [
    | inl ax ↦ rw ax (h, k)
    | inr ax ↦ rw ax (k.0, All-insert le a xs h k.1)
  ]

  pub All-sort : (le : A → A → Bool) (xs : List A) → All P xs → All P (sort le xs)
  unfolding sort
  All-sort le [] h = tt
  All-sort le (x ∷ xs) h = All-insert le x (sort le xs) h.0 (All-sort le xs h.1)

  pub All-weaken {μ} : (Q : A → Type μ) (xs : List A) → ((x : A) → P x → Q x) → All P xs → All Q xs
  All-weaken Q [] f h = tt
  All-weaken Q (x ∷ xs) f h = (f x h.0, All-weaken Q xs f h.1)

module _ {ℓ} {A : Type ℓ} (p : A → Bool) (le : A → A → Bool) where
  count_if-insert : (a : A) (xs : List A) → count_if p (insert le a xs) ≡ count_if p (a ∷ xs)
  unfolding insert count_if
  count_if-insert a [] = refl
  count_if-insert a (x ∷ xs) = ground (arith, count_if-insert a xs)

  -- Sorting neither loses nor adds an item.
  pub count_if-sort : (xs : List A) → count_if p (sort le xs) ≡ count_if p xs
  unfolding sort count_if
  count_if-sort [] = refl
  count_if-sort (x ∷ xs) = omega (arith, count_if-insert x (sort le xs), count_if-sort xs)

module _ {ℓ} {A : Type ℓ} (le : A → A → Bool) (order : IsTotalOrder le) where
  insert_comm :
      (a b : A) (xs : List A) → insert le a (insert le b xs) ≡ insert le b (insert le a xs)
  unfolding insert
  insert_comm a b [] = elim (Bool-cases (le a b)) [
    | inl ab ↦ elim (Bool-cases (le b a)) [
      | inl ba ↦ rw (order.antisym a b ab ba) refl
      | inr ba ↦ rw (ab, ba) refl
    ]
    | inr ab ↦ rw (ab, order.total a b ab) refl
  ]
  insert_comm a b (x ∷ xs) = ground (
    arith,
    order.antisym a b,
    order.total a b,
    order.total b a,
    order.total a x,
    order.total b x,
    order.trans a b x,
    order.trans b a x,
    insert_comm a b xs,
  )

  pub sort-perm : {xs ys : List A} → Permᴰ xs ys → sort le xs ≡ sort le ys
  unfolding sort
  sort-perm Permᴰ.nil = refl
  sort-perm (Permᴰ.cons {a = a} {b = b} e p) = cc (sort-perm p)
  sort-perm (Permᴰ.swap {a = a} {b = b} {l = l} e f) = cc (insert_comm a b (sort le l))
  sort-perm (Permᴰ.trans p q) = sort-perm p ∙ sort-perm q

module _ {ℓ} {A : Type ℓ} (le : A → A → Bool) (total : (a b : A) → le a b ≡ false → le b a ≡ true)
    (trans : (a b c : A) → le a b ≡ true → le b c ≡ true → le a c ≡ true) where
  insert-IsSorted : (a : A) (xs : List A) → IsSorted le xs → IsSorted le (insert le a xs)
  unfolding insert
  insert-IsSorted a [] h = (tt, tt)
  insert-IsSorted a (x ∷ xs) h = elim (Bool-cases (le a x)) [
    | inl ax ↦ rw ax (
      (ax, All-weaken (λ y. le x y ≡ true) (λ y. le a y ≡ true) xs (λ y xy. trans a x y ax xy) h.0),
      h,
    )
    | inr ax ↦
        rw ax (All-insert (λ y. le x y ≡ true) le a xs (total a x ax) h.0, insert-IsSorted a xs h.1)
  ]

  pub sort-IsSorted : (xs : List A) → IsSorted le (sort le xs)
  unfolding sort
  sort-IsSorted [] = tt
  sort-IsSorted (x ∷ xs) = insert-IsSorted x (sort le xs) (sort-IsSorted xs)
