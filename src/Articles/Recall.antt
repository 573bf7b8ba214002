-- ===== src/Articles/Recall.antt =====
-- The near-duplicate lookup by bands is complete: it finds the nearest of the close articles.
use news_crawl_intelligence.Prelude.{
  ℕ, zero, suc, ◌+◌, ◌%◌, ◌^◌, ◌≤◌, ◌<◌, ◌≡◌, refl, sym, ap, ◌∙◌, ◌==◌, ◌&&◌, ◌||◌, ltb, leb, Bool,
  true, false, List, [], ◌∷◌, Option, none, some, any, count_if, filter, take, length, All,
  Bool-cases, Option-cases, inl, inr, arith, count_if-any, any-count_if, length-filter,
}
use news_crawl_intelligence.Prelude.Int.{ℤ, pos, negsuc}
use news_crawl_intelligence.Simhash.{band, simhash_bands, to_unsigned64, default_hamming_threshold}
use news_crawl_intelligence.Simhash.Bands.{band_of_close}
use news_crawl_intelligence.Simhash.Signed.{IsBigint, sql_band-band}
use news_crawl_intelligence.Articles.Rows.{Article}
use news_crawl_intelligence.Articles.Dedup.{
  DedupStage, scan, distance_to, duplicate, no_scan, match_bands, match_simhash, is_near,
  is_included, near_rows, find_near,
}
use news_crawl_intelligence.Articles.Nearest.{bound, scan-bound, scan_found, is_at}

-- What the code relies on of a SELECT: it neither loses nor adds a row.
pub record IsSelect (select : List Article → List Article) : Type 0 where
  pub counts :
      (p : Article → Bool) (rows : List Article) → count_if p (select rows) ≡ count_if p rows

-- A `bigint` column.
abbrev pub IsStored : Option ℤ → Type 0
IsStored none = Unit
IsStored (some z) = IsBigint z

abbrev pub has_simhash : Option ℤ → Bool
has_simhash none = false
has_simhash (some z) = true

-- An article that the lookup ranges over.
abbrev pub is_eligible : Option ℕ → Article → Bool
is_eligible exclude a = has_simhash a.simhash && is_included exclude a

mask_bound : (z : ℤ) → to_unsigned64 z < 2 ^ 64
unfolding to_unsigned64
mask_bound (pos n) = omega arith
mask_bound (negsuc n) = omega arith

eq_test : (a b : ℕ) → a ≡ b → a == b ≡ true
eq_test a b e = ground arith

any_of_four :
    (x y : ℕ → ℕ) (i : ℕ)
    → i < 4
    → y i ≡ x i
    → (x 0 == y 0 || (x 1 == y 1 || (x 2 == y 2 || (x 3 == y 3 || false)))) ≡ true
any_of_four x y zero l e = rw (eq_test (x 0) (y 0) (sym e)) refl
any_of_four x y (suc zero) l e = ground (arith, eq_test (x 1) (y 1) (sym e))
any_of_four x y (suc (suc zero)) l e = ground (arith, eq_test (x 2) (y 2) (sym e))
any_of_four x y (suc (suc (suc zero))) l e = ground (arith, eq_test (x 3) (y 3) (sym e))
any_of_four x y (suc (suc (suc (suc i)))) l e = ground arith

low_bits : (u : ℕ) → u < 2 ^ 64 → u % 2 ^ 64 ≡ u
low_bits u h = omega arith

match_of_band :
    (u : ℕ) (z : ℤ)
    → u < 2 ^ 64
    → IsBigint z
    → (i : ℕ) → i < 4
    → band i u ≡ band i (to_unsigned64 z)
    → match_bands 0 (simhash_bands u) z ≡ true
unfolding match_bands simhash_bands
match_of_band u z h b i l e =
    let (s0, s1, s2, s3) = sql_band-band z b in
    rw (low_bits u h, s0, s1, s2, s3)
      (any_of_four (λ j. band j (to_unsigned64 z)) (λ j. band j u) i l e)

-- Close articles share a band.
match_of_close :
    (t u : ℕ) (h : Option ℤ)
    → t ≤ default_hamming_threshold
    → u < 2 ^ 64
    → IsStored h
    → has_simhash h ≡ true
    → distance_to u h ≤ t
    → match_simhash u h ≡ true
match_of_close t u none le lt b hs d = ground arith
match_of_close t u (some z) le lt b hs d =
    let (i, l, e) = band_of_close u (to_unsigned64 z) (omega arith) in match_of_band u z lt b i l e

module _ (p : Article → Bool) where
  any-filter :
      (q : Article → Bool) (rows : List Article)
      → any p (filter q rows) ≡ any (λ a. q a && p a) rows
  unfolding any filter
  any-filter q [] = refl
  any-filter q (a ∷ rows) = elim (Bool-cases (q a)) [
    | inl e ↦ rw (e) (ap (λ b. p a || b) (any-filter q rows))
    | inr e ↦ rw (e) (any-filter q rows)
  ]

  any_counts :
      (rows rows' : List Article) → count_if p rows ≡ count_if p rows' → any p rows ≡ any p rows'
  any_counts rows rows' e = elim (Bool-cases (any p rows)) [
    | inl a ↦ elim (Bool-cases (any p rows')) [
      | inl b ↦ a ∙ sym b
      | inr b ↦ ground (arith, any-count_if p rows a, count_if-any p rows' b)
    ]
    | inr a ↦ elim (Bool-cases (any p rows')) [
      | inl b ↦ ground (arith, any-count_if p rows' b, count_if-any p rows a)
      | inr b ↦ a ∙ sym b
    ]
  ]

  any_weaken :
      (q : Article → Bool) (rows : List Article)
      → ((a : Article) → p a ≡ true → q a ≡ true)
      → any p rows ≡ true
      → any q rows ≡ true
  unfolding any
  any_weaken q [] f h = h
  any_weaken q (a ∷ rows) f h = elim (Bool-cases (p a)) [
    | inl e ↦ ground (arith, f a e)
    | inr e ↦ ground (arith, any_weaken q rows f)
  ]

take_all : (n : ℕ) (rows : List Article) → length rows ≤ n → take n rows ≡ rows
take_all zero [] h = refl
take_all (suc n) [] h = refl
take_all zero (a ∷ rows) h = ground arith
take_all (suc n) (a ∷ rows) h = ap (λ r. a ∷ r) (take_all n rows (omega (arith, h)))

none_closer :
    (b u : ℕ) (rows : List Article)
    → All (λ a. b ≤ distance_to u a.simhash) rows
    → any (λ a. ltb (distance_to u a.simhash) b) rows ≡ false
unfolding any
none_closer b u [] h = refl
none_closer b u (a ∷ rows) (le, h) = ground (arith, none_closer b u rows h)

module _ (t u : ℕ) (exclude : Option ℕ) (p : Article → Bool) where
  near_one :
      (a : Article)
      → t ≤ default_hamming_threshold
      → u < 2 ^ 64
      → (p a ≡ true → distance_to u a.simhash ≤ t)
      → IsStored a.simhash
      → is_eligible exclude a && p a ≡ true
      → is_near u exclude a && p a ≡ true
  unfolding is_near
  near_one a le lt f b e = ground (arith, match_of_close t u a.simhash le lt b)

  any_eligible :
      (rows : List Article)
      → t ≤ default_hamming_threshold
      → u < 2 ^ 64
      → ((a : Article) → p a ≡ true → distance_to u a.simhash ≤ t)
      → All (λ a. IsStored a.simhash) rows
      → any (λ a. is_eligible exclude a && p a) rows ≡ true
      → any (λ a. is_near u exclude a && p a) rows ≡ true
  unfolding any
  any_eligible [] le lt f b h = h
  any_eligible (a ∷ rows) le lt f (b, bs) h = elim (Bool-cases (is_eligible exclude a && p a)) [
    | inl e ↦ ground (arith, near_one a le lt (f a) b e)
    | inr e ↦ ground (arith, any_eligible rows le lt f bs)
  ]

near_eligible :
    (u : ℕ) (exclude : Option ℕ) (h : Option ℤ) → match_simhash u h ≡ true → has_simhash h ≡ true
near_eligible u exclude none e = ground arith
near_eligible u exclude (some z) e = refl

count_all : (rows : List Article) → length rows ≡ count_if (λ a. true) rows
unfolding count_if
count_all [] = refl
count_all (a ∷ rows) = omega (arith, count_all rows)

module _ (select : List Article → List Article) (ok : IsSelect select) (exclude : Option ℕ) where
  selected_length :
      (u : ℕ) (articles : List Article)
      → length (select (filter (is_near u exclude) articles))
        ≡ count_if (is_near u exclude) articles
  selected_length u articles =
      count_all (select (filter (is_near u exclude) articles))
      ∙ ok.counts (λ a. true) (filter (is_near u exclude) articles)
      ∙ sym (count_all (filter (is_near u exclude) articles))
      ∙ length-filter (is_near u exclude) articles

  near_rows_all :
      (u : ℕ) (articles : List Article)
      → count_if (is_near u exclude) articles ≤ 500
      → near_rows select u exclude articles ≡ select (filter (is_near u exclude) articles)
  unfolding near_rows
  near_rows_all u articles h =
      take_all 500 (select (filter (is_near u exclude) articles))
        (omega (arith, selected_length u articles))

  any_near :
      (p : Article → Bool) (u : ℕ) (articles : List Article)
      → count_if (is_near u exclude) articles ≤ 500
      → any p (near_rows select u exclude articles) ≡ any (λ a. is_near u exclude a && p a) articles
  any_near p u articles h =
      ap (any p) (near_rows_all u articles h)
      ∙ any_counts p _ _ (ok.counts p (filter (is_near u exclude) articles))
      ∙ any-filter p (is_near u exclude) articles

  not_closer :
      (t u b : ℕ) (articles : List Article)
      → t ≤ default_hamming_threshold
      → u < 2 ^ 64
      → b ≤ t
      → All (λ a. IsStored a.simhash) articles
      → any (λ a. is_near u exclude a && ltb (distance_to u a.simhash) b) articles ≡ false
      → any (λ a. is_eligible exclude a && ltb (distance_to u a.simhash) b) articles ≡ false
  not_closer t u b articles le lt b_le stored h =
      elim (Bool-cases
        (any (λ a. is_eligible exclude a && ltb (distance_to u a.simhash) b) articles)) [
          | inl e ↦ ground (
            arith,
            any_eligible t u exclude (λ a. ltb (distance_to u a.simhash) b) articles le lt
                (λ a k. ground arith) stored e,
          )
          | inr e ↦ e
        ]

  near_is_eligible :
      (p : Article → Bool) (u : ℕ) (articles : List Article)
      → any (λ a. is_near u exclude a && p a) articles ≡ true
      → any (λ a. is_eligible exclude a && p a) articles ≡ true
  unfolding is_near
  near_is_eligible p u articles h =
      any_weaken (λ a. is_near u exclude a && p a) (λ a. is_eligible exclude a && p a) articles
        (λ a e. ground (arith, near_eligible u exclude a.simhash)) h

  none_left :
      (t u : ℕ) (rows : List Article) (best : Option (ℕ × ℕ))
      → best ≡ none
      → any (λ a. ltb (distance_to u a.simhash) (bound t best)) rows ≡ false
      → any (λ a. leb (distance_to u a.simhash) t) rows ≡ false
  none_left t u rows best e h =
      elim (Bool-cases (any (λ a. leb (distance_to u a.simhash) t) rows)) [
        | inr k ↦ k
        | inl k ↦
            let b : bound t best ≡ t + 1 = ap (bound t) e in
            ground (
              arith,
              any_weaken (λ a. leb (distance_to u a.simhash) t)
                  (λ a. ltb (distance_to u a.simhash) (bound t best)) rows (λ a l. ground arith) k,
            )
      ]

  -- With a threshold of at most 3, stored hashes in range and at most 500 candidates: if an
  -- article lies within the threshold, the lookup by bands answers a duplicate at the distance
  -- that it reports, that article exists, and no other article is closer.
  pub find_near_nearest :
      (t : ℕ) (z : ℤ) (articles : List Article)
      → t ≤ default_hamming_threshold
      → All (λ a. IsStored a.simhash) articles
      → count_if (is_near (to_unsigned64 z) exclude) articles ≤ 500
      → any (λ a. is_eligible exclude a && leb (distance_to (to_unsigned64 z) a.simhash) t) articles
        ≡ true
      → (id : ℕ) × (d : ℕ) × (find_near select t z exclude articles
          ≡ duplicate id DedupStage.simhash d)
        × (any (λ a. is_eligible exclude a && is_at (to_unsigned64 z) id d a) articles ≡ true)
        × (any
              (λ a. is_eligible exclude a && ltb (distance_to (to_unsigned64 z) a.simhash) d)
              articles
            ≡ false)
  unfolding find_near
  find_near_nearest t z articles le stored few h =
      let u : ℕ = to_unsigned64 z in
      let rows : List Article = near_rows select u exclude articles in
      let lt : u < 2 ^ 64 = mask_bound z in
      let (_, below) = scan-bound t u rows no_scan (omega arith) in
      let near : any (λ a. leb (distance_to u a.simhash) t) rows ≡ true =
        any_near (λ a. leb (distance_to u a.simhash) t) u articles few
        ∙ any_eligible t u exclude (λ a. leb (distance_to u a.simhash) t) articles le lt
            (λ a e. ground arith) stored h in
      elim (Option-cases (scan t u rows no_scan).best) [
        | inl e ↦
            ground (
              arith,
              none_left t u rows (scan t u rows no_scan).best e (none_closer _ u rows below),
            )
        | inr ((id, d), e) ↦ elim (scan_found t u rows no_scan id d e) [
          | inl x ↦ ground arith
          | inr (at, d_le) ↦ (
            id,
            d,
            rw (e) refl,
            near_is_eligible (is_at u id d) u articles
                (sym (any_near (is_at u id d) u articles few) ∙ at),
            not_closer t u d articles le lt d_le stored (
                sym (any_near (λ a. ltb (distance_to u a.simhash) d) u articles few)
                ∙ ap (λ (b : ℕ). any (λ a. ltb (distance_to u a.simhash) b) rows)
                    (sym (ap (bound t) e))
                ∙ none_closer (bound t (scan t u rows no_scan).best) u rows below),
          )
        ]
      ]
