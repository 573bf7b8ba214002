-- ===== src/Priority/Rounding.antt =====
-- Python's `round` of a ratio to a whole number: to the nearest, and to the even one at a tie.
use native.Mathlib.Nat.{div-add-mod, div-mul-le_self, le-div_iff_mul-le, le_trans}
use native.Mathlib.Decide.{dec_lt}
use news_crawl_intelligence.Prelude.{
  ap, ◌≡◌, ℕ, zero, suc, ◌+◌, ◌-◌, ◌*◌, ◌/◌, ◌%◌, ◌≤◌, ◌<◌, arith, ltb, leb, if◌then◌else◌,
}
use news_crawl_intelligence.Prelude.Int.{ℤ, pos, negsuc, ◌≤ℤ◌}

unfoldable pub round_half_even : ℕ → ℕ → ℕ
round_half_even n d =
    let q = n / d in
    let r = n % d in if ltb (2 * r) d then q else if ltb d (2 * r) then q + 1 else q + q % 2

abbrev negated : ℕ → ℤ
negated zero = pos 0
negated (suc n) = negsuc n

-- (a - b) / d, rounded.
unfoldable pub round_ratio : ℕ → ℕ → ℕ → ℤ
round_ratio a b d =
    if leb b a then pos (round_half_even (a - b) d) else negated (round_half_even (b - a) d)

round_half_even_bounds :
    (n d : ℕ) → (n / d ≤ round_half_even n d) × (round_half_even n d ≤ n / d + 1)
unfolding round_half_even
round_half_even_bounds n d = ground arith

-- Over one quotient the rounding follows the remainders.
round_same_quotient :
    (n m d : ℕ) → n / d ≡ m / d → n % d ≤ m % d → round_half_even n d ≤ round_half_even m d
unfolding round_half_even
round_same_quotient n m d e h = ground arith

round_half_even_mono : (n m d : ℕ) → 0 < d → n ≤ m → round_half_even n d ≤ round_half_even m d
round_half_even_mono n m d h k = elim (dec_lt (n / d) (m / d)) [
  | yes below ↦ omega (arith, round_half_even_bounds n d, round_half_even_bounds m d)
  | no other ↦
      let same : n / d ≡ m / d =
        omega (arith, (le-div_iff_mul-le h).1 (le_trans (div-mul-le_self n d) k)) in
      round_same_quotient n m d same
        (omega (arith, div-add-mod n d, div-add-mod m d, ap (λ (q : ℕ). d * q) same))
]

round_half_even-zero : (d : ℕ) → 0 < d → round_half_even 0 d ≤ 0
unfolding round_half_even
round_half_even-zero d h = ground arith

-- Rounding keeps the order.
pub round_ratio_mono :
    (a b a' b' d : ℕ) → 0 < d → a + b' ≤ a' + b → round_ratio a b d ≤ℤ round_ratio a' b' d
unfolding round_ratio
round_ratio_mono a b a' b' d h k =
    ground
      (arith, round_half_even_mono (a - b) (a' - b') d, round_half_even_mono (b' - a') (b - a) d)
