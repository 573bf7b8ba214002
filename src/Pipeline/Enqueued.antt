-- ===== src/Pipeline/Enqueued.antt =====
-- What a page that goes through the pipeline leaves behind.
use news_crawl_intelligence.Prelude.{
  ℕ, ◌≡◌, sym, ap, ◌∙◌, ◌&&◌, not, refl, Bool, true, false, String, List, [], ◌∷◌, ◌++◌, Option,
  none, some, arith, if◌then◌else◌,
}
use news_crawl_intelligence.Frontier.Rows.{FrontierConfig}
use news_crawl_intelligence.Frontier.Outcomes.{mark_success, mark_not_modified}
use news_crawl_intelligence.CrawlJobs.{CrawlJob}
use news_crawl_intelligence.Pipeline.{
  Extracted, PageItem, CrawlAttempt, Tables, Ending, attempt_of, enqueue, is_article, is_extracted,
  is_filled, record_page, with_jobs, fetched,
}

abbrev pub is_enqueued : Ending → Bool
is_enqueued Ending.enqueued = true
is_enqueued _ = false

enqueue_iff :
    (item : PageItem) (changed : Bool)
    → is_enqueued (enqueue item changed) ≡ (
        is_article item.url_type
        && (is_extracted item.extracted && (changed && is_filled item.raw_html_location)))
unfolding enqueue
enqueue_iff item changed = ground arith

with_jobs-fields :
    (t t' : Tables) (ending ending' : Ending) (jobs : Option (List CrawlJob))
    → with_jobs t ending jobs ≡ some (t', ending')
    → (t'.attempts ≡ t.attempts) × (ending' ≡ ending)
with_jobs-fields t t' ending ending' none e = ground arith
with_jobs-fields t t' ending ending' (some jobs) e =
    let same : (record t { jobs = jobs }, ending) ≡ (t', ending') = ground arith in
    (
      sym (ap (λ (x : Tables × Ending). x.0.attempts) same),
      sym (ap (λ (x : Tables × Ending). x.1) same),
    )

recorded :
    (b : Bool) (u v t' : Tables) (changed ending : Ending) (jobs jobs' : Option (List CrawlJob))
    {attempts : List CrawlAttempt}
    → u.attempts ≡ attempts
    → v.attempts ≡ attempts
    → (if b then with_jobs u Ending.returned jobs else with_jobs v changed jobs')
      ≡ some (t', ending)
    → (t'.attempts ≡ attempts) × (ending ≡ (if b then Ending.returned else changed))
recorded true u v t' changed ending jobs jobs' p q e =
    let f = with_jobs-fields u t' Ending.returned ending jobs e in (f.0 ∙ p, f.1)
recorded false u v t' changed ending jobs jobs' p q e =
    let f = with_jobs-fields v t' changed ending jobs' e in (f.0 ∙ q, f.1)

if_enqueued :
    (b : Bool) (item : PageItem) (changed : Bool)
    → is_enqueued (if b then Ending.returned else enqueue item changed) ≡ (
        not b
        && (is_article item.url_type
            && (is_extracted item.extracted && (changed && is_filled item.raw_html_location))))
if_enqueued true item changed = refl
if_enqueued false item changed = enqueue_iff item changed

-- The two ends of a recording, by whether the page was modified.
record_modified :
    (content_hash : Extracted → String) (cfg : FrontierConfig) (now : ℕ) (worker_id : String)
    (item : PageItem) (t t' : Tables) (ending : Ending)
    → record_page content_hash cfg now worker_id item t ≡ some (t', ending)
    → (t'.attempts ≡ t.attempts ++ attempt_of worker_id item ∷ [])
      × (ending ≡ (
          if item.not_modified
          then Ending.returned
          else enqueue item
              (mark_success cfg now item.url_id (fetched content_hash item) t.urls).1))
unfolding record_page
record_modified content_hash cfg now worker_id item t t' ending e =
    recorded item.not_modified
      (record t {
        urls = mark_not_modified cfg now item.url_id t.urls;
        attempts = t.attempts ++ attempt_of worker_id item ∷ [];
      })
      (record t {
        urls = (mark_success cfg now item.url_id (fetched content_hash item) t.urls).0;
        attempts = t.attempts ++ attempt_of worker_id item ∷ [];
      })
      t' _ ending _ _ refl refl e

-- A page that is recorded adds one attempt, and is put on the queue exactly if it was modified,
-- is an article with title and body, has another content hash than before, and its raw page is
-- stored.
pub record_page-enqueued :
    (content_hash : Extracted → String) (cfg : FrontierConfig) (now : ℕ) (worker_id : String)
    (item : PageItem) (t t' : Tables) (ending : Ending)
    → record_page content_hash cfg now worker_id item t ≡ some (t', ending)
    → (t'.attempts ≡ t.attempts ++ attempt_of worker_id item ∷ [])
      × (is_enqueued ending ≡ (
          not item.not_modified
          && (is_article item.url_type
              && (is_extracted item.extracted
                  && ((mark_success cfg now item.url_id (fetched content_hash item) t.urls).1
                      && is_filled item.raw_html_location)))))
record_page-enqueued content_hash cfg now worker_id item t t' ending e =
    let (attempts, ends) = record_modified content_hash cfg now worker_id item t t' ending e in
    (
      attempts,
      ap is_enqueued ends
          ∙ if_enqueued item.not_modified item
              (mark_success cfg now item.url_id (fetched content_hash item) t.urls).1,
    )
