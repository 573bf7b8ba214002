-- ===== src/Embeddings/Nearest.antt =====
-- The last stage marks an article as the duplicate of the most similar candidate.
use news_crawl_intelligence.Prelude.{
  ℕ, ◌≤◌, ◌≡◌, refl, ltb, leb, leb→le, List, [], ◌∷◌, Option, none, some, All, arith, if_cases,
}
use mathlib.Core.Path.{subst, sym, ap}
use news_crawl_intelligence.Prelude.Int.{ℤ}
use news_crawl_intelligence.Articles.Rows.{Article}
use news_crawl_intelligence.Articles.Stored.{StoredArticle}
use news_crawl_intelligence.Embeddings.{
  ArticleEmbedding, EmbeddingTables, Backend, Best, no_best, better, best_of, body_vector, mark_as,
  judge, candidates_of, semantic_dedup, semantic_duplicate_threshold,
}

module _ {V : Type 0} (backend : Backend V) where
  open backend use {cosine}

  -- A candidate is no more similar than a number, if it has a vector.
  abbrev pub IsWithin : V → ℕ → Option V → Type 0
  IsWithin own n none = Unit
  IsWithin own n (some vector) = cosine own vector ≤ n

  -- The best candidate has a vector of its similarity.
  abbrev HasVector : V → List (ArticleEmbedding V) → ℕ → Option ℕ → Type 0
  HasVector own rows n none = Unit
  HasVector own rows n (some id) =
      (vector : V) × (body_vector backend id rows ≡ some vector) × (cosine own vector ≡ n)

  IsWithin-le : (own : V) (m n : ℕ) (o : Option V) → m ≤ n → IsWithin own m o → IsWithin own n o
  IsWithin-le own m n none le h = tt
  IsWithin-le own m n (some vector) le h = omega (arith, le, h)

  record IsBetter (own : V) (rows : List (ArticleEmbedding V)) (o : Option V) (b r : Best)
      : Type 0 where
    no_less : b.similarity ≤ r.similarity
    covers : IsWithin own r.similarity o
    found : HasVector own rows r.similarity r.id

  better-IsBetter :
      (own : V) (rows : List (ArticleEmbedding V)) (id : ℕ) (o : Option V) (b : Best)
      → body_vector backend id rows ≡ o
      → HasVector own rows b.similarity b.id
      → IsBetter own rows o b (better backend own id o b)
  better-IsBetter own rows id none b e h = record { no_less = omega arith; covers = tt; found = h }
  better-IsBetter own rows id (some vector) b e h =
      if_cases (IsBetter own rows (some vector) b) (ltb b.similarity (cosine own vector))
        (λ more. record {
          no_less = ground (arith, more);
          covers = omega arith;
          found = (vector, e, refl);
        })
        (λ less. record { no_less = omega arith; covers = ground (arith, less); found = h })

  record IsBestOf (own : V) (rows : List (ArticleEmbedding V)) (candidates : List ℕ) (b r : Best)
      : Type 0 where
    no_less : b.similarity ≤ r.similarity
    covers : All (λ id. IsWithin own r.similarity (body_vector backend id rows)) candidates
    found : HasVector own rows r.similarity r.id

  best_of-IsBestOf :
      (own : V) (rows : List (ArticleEmbedding V)) (candidates : List ℕ) (b : Best)
      → HasVector own rows b.similarity b.id
      → IsBestOf own rows candidates b (best_of backend own rows candidates b)
  unfolding best_of
  best_of-IsBestOf own rows [] b h = record { no_less = omega arith; covers = tt; found = h }
  best_of-IsBestOf own rows (id ∷ candidates) b h =
      let o = body_vector backend id rows in
      let one = better-IsBetter own rows id o b refl h in
      let rest = best_of-IsBestOf own rows candidates (better backend own id o b) one.found in
      record {
        no_less = omega (arith, one.no_less, rest.no_less);
        covers = (IsWithin-le own _ _ o rest.no_less one.covers, rest.covers);
        found = rest.found;
      }

  -- The article that is marked has a vector, and so has the other one; they are similar enough, and
  -- no candidate is more similar.
  pub record IsNearest (id other : ℕ) (candidates : List ℕ) (rows : List (ArticleEmbedding V))
      : Type 0 where
    pub own : V
    pub vector : V
    pub has_own : body_vector backend id rows ≡ some own
    pub has_other : body_vector backend other rows ≡ some vector
    pub is_similar : semantic_duplicate_threshold ≤ cosine own vector
    pub is_nearest :
        All (λ c. IsWithin own (cosine own vector) (body_vector backend c rows)) candidates

  abbrev IsJudged :
      ℕ → List ℕ → List (ArticleEmbedding V) → EmbeddingTables V × Option ℕ × Option ℕ → Type 0
  IsJudged id candidates rows r =
      (other : ℕ) → r.1 ≡ some other → IsNearest id other candidates rows

  abbrev value_or : ℕ → Option ℕ → ℕ
  value_or d none = d
  value_or d (some n) = n

  mark_as-IsJudged :
      (id : ℕ) (own : V) (candidates : List ℕ) (n : ℕ) (o : Option ℕ) (t : EmbeddingTables V)
      → body_vector backend id t.embeddings ≡ some own
      → All (λ c. IsWithin own n (body_vector backend c t.embeddings)) candidates
      → HasVector own t.embeddings n o
      → IsJudged id candidates t.embeddings (mark_as backend id n o t)
  mark_as-IsJudged id own candidates n none t e within h = λ other marks. absurd cc
  mark_as-IsJudged id own candidates n (some best) t e within (vector, has, same) =
      if_cases (IsJudged id candidates t.embeddings) (leb semantic_duplicate_threshold n)
        (λ big other marks.
          subst (λ x. IsNearest id x candidates t.embeddings) (ap (value_or best) marks)
            (record {
              own = own;
              vector = vector;
              has_own = e;
              has_other = has;
              is_similar = omega (arith, leb→le semantic_duplicate_threshold n big, same);
              is_nearest =
                  subst
                    (λ m. All (λ c. IsWithin own m (body_vector backend c t.embeddings)) candidates)
                    (sym same) within;
            }))
        (λ small other marks. absurd cc)

  judge-IsJudged :
      (id : ℕ) (candidates : List ℕ) (o : Option V) (t : EmbeddingTables V)
      → body_vector backend id t.embeddings ≡ o
      → IsJudged id candidates t.embeddings (judge backend id candidates o t)
  judge-IsJudged id [] o t e = λ other marks. absurd cc
  judge-IsJudged id (c ∷ candidates) none t e = λ other marks. absurd cc
  judge-IsJudged id (c ∷ candidates) (some own) t e =
      let best = best_of backend own t.embeddings (c ∷ candidates) no_best in
      let good = best_of-IsBestOf own t.embeddings (c ∷ candidates) no_best tt in
      mark_as-IsJudged id own (c ∷ candidates) best.similarity best.id t e good.covers good.found

  module _ (select : List Article → List Article) where
    -- An article with a hash that was no duplicate, and is marked as one by the last stage: both
    -- have a vector, they are similar enough, and no candidate of the lookup that has a vector is
    -- more similar.
    pub semantic_dedup-IsNearest :
        (hamming_threshold : ℕ) (a : StoredArticle) (simhash : ℤ) (t : EmbeddingTables V)
        (other : ℕ)
        → a.article.simhash ≡ some simhash
        → a.duplicate_of ≡ none
        → (semantic_dedup backend select hamming_threshold a t).1 ≡ some other
        → IsNearest a.article.id other
            (candidates_of backend select hamming_threshold a simhash t.articles)
            t.embeddings
    unfolding semantic_dedup
    semantic_dedup-IsNearest hamming_threshold a simhash t other has_hash unmarked =
        rw (has_hash, unmarked)
          (judge-IsJudged a.article.id
            (candidates_of backend select hamming_threshold a simhash t.articles)
            (body_vector backend a.article.id t.embeddings) t refl other)
