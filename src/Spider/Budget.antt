-- ===== src/Spider/Budget.antt =====
-- The budget of a pass: `max_pages` bounds the requests, and the pass comes to an end.
use news_crawl_intelligence.Prelude.{
  ℕ, ◌+◌, ◌≤◌, ◌<◌, ◌≡◌, refl, ◌==◌, not, leb, true, false, List, [], ◌∷◌, map, length,
  length-append, All, some, arith, Bool-cases, if_cases, inl, inr, ◌&&◌,
}
use news_crawl_intelligence.Frontier.Rows.{CrawlUrl, Table, FrontierConfig}
use news_crawl_intelligence.Frontier.Keys.{IsKeyed}
use news_crawl_intelligence.Frontier.Picking.{IsOrderBy}
use news_crawl_intelligence.Frontier.Leases.{claim_batch_leases}
use news_crawl_intelligence.Spider.{
  SpiderConfig, SpiderState, World, Request, request_of, claim_limit, claimed_as, claim_requests,
  crawl_pass, initial,
}

length-map : {A B : Type 0} (f : A → B) (xs : List A) → length (map f xs) ≡ length xs
length-map f [] = refl
length-map f (x ∷ xs) = omega (arith, length-map f xs)

-- What a claim does to the state: every request is counted, the budget is kept, and a spider that
-- is not exhausted after it has claimed something.
record IsAccounted (cfg : SpiderConfig) (s s' : SpiderState) (requests : List Request)
    : Type 0 where
  counted : s'.pages_claimed ≡ s.pages_claimed + length requests
  in_budget : 1 ≤ cfg.max_pages → s.pages_claimed ≤ cfg.max_pages → s'.pages_claimed ≤ cfg.max_pages
  goes_on : s'.exhausted ≡ false → s.pages_claimed < s'.pages_claimed

claimed_as-IsAccounted :
    (cfg : SpiderConfig) (now : ℕ) (s : SpiderState) (rows : List CrawlUrl)
    → length rows ≤ claim_limit cfg s
    → IsAccounted cfg s (claimed_as cfg now s rows).0 (claimed_as cfg now s rows).1
unfolding claimed_as claim_limit
claimed_as-IsAccounted cfg now s [] h = record {
  counted = ground arith;
  in_budget = λ _ k. k;
  goes_on = λ no. absurd (ground arith);
}
claimed_as-IsAccounted cfg now s (row ∷ rows) h = record {
  counted = omega (arith, length-map (request_of cfg now) rows);
  in_budget = λ some_limit k. ground arith;
  goes_on = λ no. ground arith;
}

exhausted-IsAccounted :
    (cfg : SpiderConfig) (s : SpiderState) → IsAccounted cfg s (record s { exhausted = true }) []
exhausted-IsAccounted cfg s = record {
  counted = ground arith;
  in_budget = λ _ k. k;
  goes_on = λ no. absurd (ground arith);
}

module _ (order_by : List CrawlUrl → List CrawlUrl) (order : IsOrderBy order_by)
    (frontier : FrontierConfig) (cfg : SpiderConfig) where
  abbrev step : World → SpiderState → SpiderState × Table × List Request
  step w s = claim_requests order_by frontier cfg w s

  claim_requests-IsAccounted :
      (w : World) (s : SpiderState) → IsKeyed w.table → IsAccounted cfg s (step w s).0 (step w s).2
  unfolding claim_requests
  claim_requests-IsAccounted w s keyed =
      let few =
        (claim_batch_leases order_by order frontier w.now w.locked cfg.worker_id (claim_limit cfg s)
          (some cfg.source_id) cfg.crawl_job_id w.table keyed).0 in
      let good = λ (r : SpiderState × Table × List Request). IsAccounted cfg s r.0 r.2 in
      if_cases good (not (cfg.max_pages == 0) && leb cfg.max_pages s.pages_claimed)
        (λ _. exhausted-IsAccounted cfg s)
        (λ _.
          if_cases good (not (cfg.max_pages == 0) && (claim_limit cfg s == 0))
            (λ _. exhausted-IsAccounted cfg s) (λ _. claimed_as-IsAccounted cfg w.now s _ few))

  abbrev KeyedWorlds : List World → Type 0
  KeyedWorlds worlds = All (λ w. IsKeyed w.table) worlds

  crawl_pass_accounts :
      (worlds : List World) (s : SpiderState)
      → KeyedWorlds worlds
      → ((crawl_pass order_by frontier cfg s worlds).0.pages_claimed
          ≡ s.pages_claimed + length (crawl_pass order_by frontier cfg s worlds).1)
        × (1 ≤ cfg.max_pages
            → s.pages_claimed ≤ cfg.max_pages
            → (crawl_pass order_by frontier cfg s worlds).0.pages_claimed ≤ cfg.max_pages)
  unfolding crawl_pass
  crawl_pass_accounts [] s keyed = (ground arith, λ _ k. k)
  crawl_pass_accounts (w ∷ worlds) s keyed =
      let one = claim_requests-IsAccounted w s keyed.0 in
      let rest = crawl_pass_accounts worlds (step w s).0 keyed.1 in
      let last = (crawl_pass order_by frontier cfg (step w s).0 worlds).1 in
      if_cases
        (λ (r : SpiderState × List Request).
          (r.0.pages_claimed ≡ s.pages_claimed + length r.1)
          × (1 ≤ cfg.max_pages
              → s.pages_claimed ≤ cfg.max_pages
              → r.0.pages_claimed ≤ cfg.max_pages))
        s.exhausted (λ _. (ground arith, λ _ k. k))
        (λ _. (
          omega (arith, one.counted, rest.0, length-append (step w s).2 last),
          λ some_limit k. rest.1 some_limit (one.in_budget some_limit k),
        ))

  -- With a budget of `max_pages`, at least one, a spider whose claims find tables with unique
  -- keys never requests more pages in a pass, however often it runs dry and whatever other
  -- workers do to the frontier meanwhile; its counter tells how many it requested.
  pub crawl_pass_budget :
      (worlds : List World)
      → 1 ≤ cfg.max_pages
      → All (λ w. IsKeyed w.table) worlds
      → (length (crawl_pass order_by frontier cfg initial worlds).1 ≤ cfg.max_pages)
        × ((crawl_pass order_by frontier cfg initial worlds).0.pages_claimed
            ≡ length (crawl_pass order_by frontier cfg initial worlds).1)
  crawl_pass_budget worlds some_limit keyed =
      let (counted, kept) = crawl_pass_accounts worlds initial keyed in
      let bound = kept some_limit (omega arith) in
      (omega (arith, counted, bound), omega (arith, counted))

  abbrev IsOver : SpiderState × List Request → Type 0
  IsOver r = r.0.exhausted ≡ true

  exhausted-stays :
      (worlds : List World) (s : SpiderState)
      → s.exhausted ≡ true
      → (crawl_pass order_by frontier cfg s worlds).0.exhausted ≡ true
  unfolding crawl_pass
  exhausted-stays [] s e = e
  exhausted-stays (w ∷ worlds) s e =
      if_cases IsOver s.exhausted (λ _. e) (λ no. absurd (ground arith))

  crawl_pass_exhausts :
      (worlds : List World) (s : SpiderState)
      → 1 ≤ cfg.max_pages
      → s.pages_claimed ≤ cfg.max_pages
      → cfg.max_pages < s.pages_claimed + length worlds
      → KeyedWorlds worlds
      → (crawl_pass order_by frontier cfg s worlds).0.exhausted ≡ true
  unfolding crawl_pass
  crawl_pass_exhausts [] s some_limit le many keyed = absurd (omega arith)
  crawl_pass_exhausts (w ∷ worlds) s some_limit le many keyed =
      let one = claim_requests-IsAccounted w s keyed.0 in
      if_cases IsOver s.exhausted (λ e. e)
        (λ _. elim (Bool-cases (step w s).0.exhausted) [
          | inl over ↦ exhausted-stays worlds (step w s).0 over
          | inr more ↦
              crawl_pass_exhausts worlds (step w s).0 some_limit (one.in_budget some_limit le)
                (omega (arith, one.goes_on more)) keyed.1
        ])

  -- A pass with a budget of at least one page, whose claims find tables with unique keys, comes
  -- to an end: if it could claim once more than there are pages in the budget, the spider is
  -- exhausted.
  pub crawl_pass_ends :
      (worlds : List World)
      → 1 ≤ cfg.max_pages
      → cfg.max_pages < length worlds
      → All (λ w. IsKeyed w.table) worlds
      → (crawl_pass order_by frontier cfg initial worlds).0.exhausted ≡ true
  crawl_pass_ends worlds some_limit many keyed =
      crawl_pass_exhausts worlds initial some_limit (omega arith) (omega arith) keyed
