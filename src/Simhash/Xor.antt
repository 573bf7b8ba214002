-- ===== src/Simhash/Xor.antt =====
-- The lowest digit of an exclusive or, and the count of its ones.
use Prim.Native.Nat.{digits, differ, bit_xor, bit_xor-bitwise}
use native.Mathlib.Nat.{
  zero-add, suc-add, div-one, pow-succ', mul-add-mod_self_left, mod-eq_of_lt, mod-lt, one-le-pow,
  div-add-mod, div-div-eq-div-mul,
}
use mathlib.Core.Path.{subst}
use news_crawl_intelligence.Prelude.{
  ℕ, zero, suc, ◌+◌, ◌-◌, ◌<◌, ◌*◌, ◌/◌, ◌%◌, ◌^◌, ◌≤◌, ◌≡◌, ◌∙◌, sym, ap, refl, arith,
}
use news_crawl_intelligence.Simhash.{bit_count}

abbrev xor_digits : ℕ → ℕ → ℕ → ℕ
xor_digits rounds a b = digits (λ y. y) differ rounds a b

-- More rounds than the first number needs change nothing.
xor_digits_rounds : (n k a b : ℕ) → a ≤ n → xor_digits (n + k) a b ≡ xor_digits n a b
xor_digits_rounds zero zero a b h = refl
xor_digits_rounds zero (suc k) zero b h = rw zero-add refl
xor_digits_rounds zero (suc k) (suc a) b h = absurd (omega arith)
xor_digits_rounds (suc n) k zero b h = rw suc-add refl
xor_digits_rounds (suc n) k (suc a) b h =
    rw suc-add (rw (xor_digits_rounds n k (suc a / 2) (b / 2) (omega arith)))

own_rounds : (n a b : ℕ) → a ≤ n → xor_digits n a b ≡ xor_digits a a b
own_rounds n a b h =
    let all : a + (n - a) ≡ n = omega arith in
    subst (λ k. xor_digits k a b ≡ xor_digits a a b) all
      (xor_digits_rounds a (n - a) a b (omega arith))

differ-mod : (x y : ℕ) → x < 2 → y < 2 → differ x y ≡ (x + y) % 2
differ-mod zero y h k = omega arith
differ-mod (suc zero) zero h k = refl
differ-mod (suc zero) (suc zero) h k = refl
differ-mod (suc zero) (suc (suc y)) h k = absurd (omega arith)
differ-mod (suc (suc x)) y h k = absurd (omega arith)

pub bit_xor_step : (a b : ℕ) → bit_xor a b ≡ bit_xor (a / 2) (b / 2) * 2 + (a % 2 + b % 2) % 2
bit_xor_step zero b = simp bit_xor-bitwise (omega arith)
bit_xor_step (suc a) b = simp bit_xor-bitwise (
    omega (
      arith,
      own_rounds a (suc a / 2) (b / 2) (omega arith),
      differ-mod (suc a % 2) (b % 2) (omega arith) (omega arith),
    ))

bit_xor_mod : (a b : ℕ) → bit_xor a b % 2 ≡ (a % 2 + b % 2) % 2
bit_xor_mod a b = omega (arith, bit_xor_step a b)

bit_xor_half : (a b : ℕ) → bit_xor a b / 2 ≡ bit_xor (a / 2) (b / 2)
bit_xor_half a b = omega (arith, bit_xor_step a b)

-- The lowest `k` positions at which two numbers differ.
pub bit_count-xor-suc :
    (k a b : ℕ)
    → bit_count (suc k) (bit_xor a b) ≡ (a % 2 + b % 2) % 2 + bit_count k (bit_xor (a / 2) (b / 2))
unfolding bit_count
bit_count-xor-suc k a b = rw (bit_xor_mod a b, bit_xor_half a b)

mod-double : (a k : ℕ) → a % 2 ^ suc k ≡ a % 2 + 2 * (a / 2 % 2 ^ k)
mod-double a k =
    let q = a / 2 / 2 ^ k in
    let s = a % 2 + 2 * (a / 2 % 2 ^ k) in
    let split : a ≡ 2 ^ suc k * q + s =
      omega (arith, div-add-mod (a / 2) (2 ^ k), ap (λ (t : ℕ). t * q) (pow-succ' 2 k)) in
    ap (λ t. t % 2 ^ suc k) split
    ∙ mul-add-mod_self_left (2 ^ suc k) q s
    ∙ mod-eq_of_lt (omega (arith, pow-succ' 2 k, mod-lt (a / 2) (one-le-pow k 2 (omega arith))))

-- Numbers that differ at none of the lowest `k` positions agree there.
pub eq-of-bit_count : (k a b : ℕ) → bit_count k (bit_xor a b) ≡ 0 → a % 2 ^ k ≡ b % 2 ^ k
eq-of-bit_count zero a b h = omega arith
eq-of-bit_count (suc k) a b h = omega (
  arith,
  bit_count-xor-suc k a b,
  eq-of-bit_count k (a / 2) (b / 2) (omega (arith, bit_count-xor-suc k a b)),
  mod-double a k,
  mod-double b k,
)

pub shift-suc : (a j : ℕ) → a / 2 / 2 ^ j ≡ a / 2 ^ suc j
shift-suc a j = div-div-eq-div-mul a 2 (2 ^ j) ∙ ap (λ t. a / t) (sym (pow-succ' 2 j))

-- The positions from the `j`-th up are those of the shifted numbers.
pub bit_count-xor-add :
    (j k a b : ℕ)
    → bit_count (j + k) (bit_xor a b)
      ≡ bit_count j (bit_xor a b) + bit_count k (bit_xor (a / 2 ^ j) (b / 2 ^ j))
bit_count-xor-add zero k a b = simp (zero-add, div-one) (unfold bit_count in omega arith)
bit_count-xor-add (suc j) k a b =
    rw (suc-add, ← shift-suc a j, ← shift-suc b j)
      (omega (
        arith,
        bit_count-xor-suc (j + k) a b,
        bit_count-xor-suc j a b,
        bit_count-xor-add j k (a / 2) (b / 2),
      ))
