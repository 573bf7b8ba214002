-- ===== src/Prelude/Lists.antt =====
-- Lists over the native numbers, with Boolean predicates, and the predicates on lists that the
-- components share.
use Prim.Native.Nat.{ℕ, zero, suc, ◌+◌, ◌≤◌}
use mathlib.Core.Path.{◌≡◌, refl}
use mathlib.Core.Bool.{Bool, true, false, ◌||◌, ◌&&◌}
use mathlib.Core.List.{List, [], ◌∷◌, ◌++◌, map}
use native.Mathlib.Omega.{arith}
use news_crawl_intelligence.Prelude.Tests.{if◌then◌else◌}

module _ {ℓ} {A : Type ℓ} where
  abbrev pub length : List A → ℕ
  length [] = 0
  length (x ∷ xs) = suc (length xs)

  abbrev pub take : ℕ → List A → List A
  take zero xs = []
  take (suc n) [] = []
  take (suc n) (x ∷ xs) = x ∷ take n xs

  unfoldable pub filter : (A → Bool) → List A → List A
  filter p [] = []
  filter p (x ∷ xs) = let rest = filter p xs in if p x then x ∷ rest else rest

  unfoldable pub any : (A → Bool) → List A → Bool
  any p [] = false
  any p (x ∷ xs) = p x || any p xs

  -- How many items pass a test.
  unfoldable pub count_if : (A → Bool) → List A → ℕ
  count_if p [] = 0
  count_if p (x ∷ xs) = (if p x then 1 else 0) + count_if p xs

  pub length-append : (xs ys : List A) → length (xs ++ ys) ≡ length xs + length ys
  length-append [] ys = omega arith
  length-append (x ∷ xs) ys = omega (arith, length-append xs ys)

  pub length-take-le : (n : ℕ) (xs : List A) → length (take n xs) ≤ n
  length-take-le zero xs = omega arith
  length-take-le (suc n) [] = omega arith
  length-take-le (suc n) (x ∷ xs) = omega (arith, length-take-le n xs)

  pub length-filter : (p : A → Bool) (xs : List A) → length (filter p xs) ≡ count_if p xs
  unfolding filter count_if
  length-filter p [] = refl
  length-filter p (x ∷ xs) = ground (arith, length-filter p xs)

  pub count_if-append :
      (p : A → Bool) (xs ys : List A) → count_if p (xs ++ ys) ≡ count_if p xs + count_if p ys
  unfolding count_if
  count_if-append p [] ys = omega arith
  count_if-append p (x ∷ xs) ys = omega (arith, count_if-append p xs ys)

  pub count_if-any : (p : A → Bool) (xs : List A) → any p xs ≡ false → count_if p xs ≡ 0
  unfolding count_if any
  count_if-any p [] h = refl
  count_if-any p (x ∷ xs) h = ground (arith, count_if-any p xs)

  pub any-count_if : (p : A → Bool) (xs : List A) → any p xs ≡ true → 1 ≤ count_if p xs
  unfolding count_if any
  any-count_if p [] h = cc
  any-count_if p (x ∷ xs) h = ground (arith, any-count_if p xs)

  -- A sharper test passes no more items.
  pub count_if_mono :
      (p q : A → Bool) (xs : List A)
      → ((x : A) → p x ≡ true → q x ≡ true)
      → count_if p xs ≤ count_if q xs
  unfolding count_if
  count_if_mono p q [] h = omega arith
  count_if_mono p q (x ∷ xs) h = ground (arith, h x, count_if_mono p q xs h)

  pub count_if-filter :
      (p q : A → Bool) (xs : List A) → count_if p (filter q xs) ≡ count_if (λ x. q x && p x) xs
  unfolding count_if filter
  count_if-filter p q [] = refl
  count_if-filter p q (x ∷ xs) = ground (arith, count_if-filter p q xs)

  pub count_if-take : (p : A → Bool) (n : ℕ) (xs : List A) → count_if p (take n xs) ≤ count_if p xs
  unfolding count_if
  count_if-take p zero xs = omega arith
  count_if-take p (suc n) [] = omega arith
  count_if-take p (suc n) (x ∷ xs) = omega (arith, count_if-take p n xs)

-- Every item of a list has a property.
abbrev pub All {ℓ κ} : {A : Type ℓ} → (A → Type κ) → List A → Type κ
All P [] = Unit
All P (x ∷ xs) = P x × All P xs

module _ {ℓ κ} {A : Type ℓ} (P : A → Type κ) where
  All-keep :
      (b : Bool) (x : A) (rest : List A) → P x → All P rest → All P (if b then x ∷ rest else rest)
  All-keep true x rest h k = (h, k)
  All-keep false x rest h k = k

  pub All-filter : (p : A → Bool) (xs : List A) → All P xs → All P (filter p xs)
  unfolding filter
  All-filter p [] h = tt
  All-filter p (x ∷ xs) h = All-keep (p x) x (filter p xs) h.0 (All-filter p xs h.1)

  pub All-append : (xs ys : List A) → All P xs → All P ys → All P (xs ++ ys)
  All-append [] ys h k = k
  All-append (x ∷ xs) ys h k = (h.0, All-append xs ys h.1 k)

  pub All-take : (n : ℕ) (xs : List A) → All P xs → All P (take n xs)
  All-take zero xs h = tt
  All-take (suc n) [] h = tt
  All-take (suc n) (x ∷ xs) h = (h.0, All-take n xs h.1)

  -- A map that keeps the property of each item keeps it of the list.
  pub All-map : (f : A → A) (xs : List A) → ((x : A) → P x → P (f x)) → All P xs → All P (map f xs)
  All-map f [] keep h = tt
  All-map f (x ∷ xs) keep h = (keep x h.0, All-map f xs keep h.1)
