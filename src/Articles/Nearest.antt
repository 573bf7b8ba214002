-- ===== src/Articles/Nearest.antt =====
-- What the near-duplicate lookup finds, and what it cannot miss.
use news_crawl_intelligence.Prelude.{
  ℕ, ◌+◌, ◌≤◌, ◌≡◌, ◌⊎◌, ◌==◌, ◌&&◌, leb, Bool, true, List, [], ◌∷◌, Option, none, some, any, All,
  Bool-cases, Option-cases, inl, inr, arith,
}
use news_crawl_intelligence.Articles.Rows.{Article}
use news_crawl_intelligence.Articles.Dedup.{Scan, scan, scan_one, distance_to}

-- The distance of the best candidate, one above the threshold if there is none.
abbrev pub bound : ℕ → Option (ℕ × ℕ) → ℕ
bound t none = t + 1
bound t (some (id, d)) = d

scan_one-bound :
    (t id d : ℕ) (s : Scan)
    → bound t s.best ≤ t + 1
    → (bound t (scan_one t id d s).best ≤ bound t s.best) × (bound t (scan_one t id d s).best ≤ d)
unfolding scan_one
scan_one-bound t id d s h = elim (Option-cases s.best) [
  | inl e ↦ ground arith
  | inr ((i, b), e) ↦ ground arith
]

pub scan-bound :
    (t u : ℕ) (rows : List Article) (s : Scan)
    → bound t s.best ≤ t + 1
    → (bound t (scan t u rows s).best ≤ bound t s.best)
      × All (λ a. bound t (scan t u rows s).best ≤ distance_to u a.simhash) rows
unfolding scan
scan-bound t u [] s h = (omega arith, tt)
scan-bound t u (a ∷ rows) s h =
    let (below, here) = scan_one-bound t a.id (distance_to u a.simhash) s h in
    let (under, rest) =
      scan-bound t u rows (scan_one t a.id (distance_to u a.simhash) s) (omega (arith, below, h)) in
    (omega (arith, under, below), (omega (arith, under, here), rest))

scan_one_found :
    (t id d : ℕ) (s : Scan) (i b : ℕ)
    → (scan_one t id d s).best ≡ some (i, b)
    → (s.best ≡ some (i, b)) ⊎ ((id ≡ i) × (d ≡ b) × (d ≤ t))
unfolding scan_one
scan_one_found t id d s i b e = elim (Bool-cases (leb d t)) [
  | inl l ↦ ground arith
  | inr l ↦ ground arith
]

unfoldable pub is_at : ℕ → ℕ → ℕ → Article → Bool
is_at u i b a = a.id == i && distance_to u a.simhash == b

pub scan_found :
    (t u : ℕ) (rows : List Article) (s : Scan) (i b : ℕ)
    → (scan t u rows s).best ≡ some (i, b)
    → (s.best ≡ some (i, b)) ⊎ ((any (is_at u i b) rows ≡ true) × (b ≤ t))
unfolding scan any is_at
scan_found t u [] s i b e = inl e
scan_found t u (a ∷ rows) s i b e =
    elim (scan_found t u rows (scan_one t a.id (distance_to u a.simhash) s) i b e) [
      | inr (found, le) ↦ inr (ground arith, le)
      | inl e' ↦ elim (scan_one_found t a.id (distance_to u a.simhash) s i b e') [
        | inl e'' ↦ inl e''
        | inr (id_eq, d_eq, le) ↦ inr (ground arith, omega (arith, d_eq, le))
      ]
    ]
