-- ===== src/Spider/Once.antt =====
-- A page is asked for with a browser at most once more.
use mathlib.Core.Path.{subst}
use news_crawl_intelligence.Prelude.{
  ℕ, ◌≡◌, refl, ap, ◌∙◌, List, ◌==◌, not, ◌&&◌, Bool, true, false, Option, none, some, arith,
  if_cases,
}
use news_crawl_intelligence.Contracts.{UrlType}
use news_crawl_intelligence.UrlNorm.{UrlLib}
use news_crawl_intelligence.Pipeline.{PageItem, DiscoveredLink}
use news_crawl_intelligence.Spider.{SpiderConfig, Request}
use news_crawl_intelligence.Spider.Discovered.{DateLib, parse_section, parse_sitemap, parse_rss}
use news_crawl_intelligence.Spider.Pages.{
  Response, Parsed, with_links, or_retry, article_item, page_item, browser_retry_request,
  parse_article, parse_typed, parse_page,
}

-- Whether a response is answered by another request.
abbrev pub is_retry : Parsed → Bool
is_retry (Parsed.retry request) = true
is_retry _ = false

-- What another request has of the one before it.
abbrev IsRetryOf : Request → Parsed → Type 0
IsRetryOf request (Parsed.retry q) =
    (q.playwright ≡ true)
    × (q.browser_retry ≡ true)
    × (q.url ≡ request.url)
    × (q.url_id ≡ request.url_id)
    × (q.url_type ≡ request.url_type)
IsRetryOf request _ = Unit

module _ (lib : UrlLib) (dates : DateLib) (cfg : SpiderConfig) where
  with_links-IsRetryOf :
      (request : Request) (page : PageItem) (links : Option (List DiscoveredLink))
      → IsRetryOf request (with_links page links)
  with_links-IsRetryOf request page none = tt
  with_links-IsRetryOf request page (some links) = tt

  with_links-is_retry :
      (page : PageItem) (links : Option (List DiscoveredLink))
      → is_retry (with_links page links) ≡ false
  with_links-is_retry page none = refl
  with_links-is_retry page (some links) = refl

  parse_article-IsRetryOf :
      (now : ℕ) (page : PageItem) (r : Response)
      → IsRetryOf r.request (parse_article lib dates cfg now page r)
  unfolding parse_article browser_retry_request
  parse_article-IsRetryOf now page r =
      let links = parse_section lib dates cfg r.url r.nodes in
      let plain = with_links-IsRetryOf r.request (article_item page r) links in
      if_cases (IsRetryOf r.request) (not r.article.is_usable && not r.request.playwright)
        (λ _.
          if_cases (λ o. IsRetryOf r.request (or_retry o (with_links (article_item page r) links)))
            r.request.browser_retry (λ _. plain) (λ _. (refl, refl, refl, refl, refl)))
        (λ _. plain)

  parse_typed-IsRetryOf :
      (now : ℕ) (page : PageItem) (r : Response) (url_type : UrlType)
      → IsRetryOf r.request (parse_typed lib dates cfg now page r url_type)
  unfolding parse_typed
  parse_typed-IsRetryOf now page r UrlType.sitemap =
      with_links-IsRetryOf r.request page (parse_sitemap lib dates cfg r.nodes)
  parse_typed-IsRetryOf now page r UrlType.rss =
      with_links-IsRetryOf r.request page (parse_rss lib dates cfg r.nodes)
  parse_typed-IsRetryOf now page r UrlType.homepage =
      with_links-IsRetryOf r.request page (parse_section lib dates cfg r.url r.nodes)
  parse_typed-IsRetryOf now page r UrlType.section =
      with_links-IsRetryOf r.request page (parse_section lib dates cfg r.url r.nodes)
  parse_typed-IsRetryOf now page r UrlType.article = parse_article-IsRetryOf now page r
  parse_typed-IsRetryOf now page r UrlType.other = tt

  parse_page-IsRetryOf :
      (now : ℕ) (r : Response) → IsRetryOf r.request (parse_page lib dates cfg now r)
  unfolding parse_page
  parse_page-IsRetryOf now r =
      if_cases (IsRetryOf r.request) (r.status == 304) (λ _. tt)
        (λ _. parse_typed-IsRetryOf now (page_item cfg now r) r r.request.url_type)

  parse_article-is_retry :
      (now : ℕ) (page : PageItem) (r : Response)
      → r.request.playwright ≡ true
      → is_retry (parse_article lib dates cfg now page r) ≡ false
  unfolding parse_article
  parse_article-is_retry now page r browser =
      let plain =
        with_links-is_retry (article_item page r) (parse_section lib dates cfg r.url r.nodes) in
      if_cases (λ p. is_retry p ≡ false) (not r.article.is_usable && not r.request.playwright)
        (λ h. absurd (ground (arith, browser))) (λ _. plain)

  parse_typed-is_retry :
      (now : ℕ) (page : PageItem) (r : Response) (url_type : UrlType)
      → r.request.playwright ≡ true
      → is_retry (parse_typed lib dates cfg now page r url_type) ≡ false
  unfolding parse_typed
  parse_typed-is_retry now page r UrlType.sitemap h =
      with_links-is_retry page (parse_sitemap lib dates cfg r.nodes)
  parse_typed-is_retry now page r UrlType.rss h =
      with_links-is_retry page (parse_rss lib dates cfg r.nodes)
  parse_typed-is_retry now page r UrlType.homepage h =
      with_links-is_retry page (parse_section lib dates cfg r.url r.nodes)
  parse_typed-is_retry now page r UrlType.section h =
      with_links-is_retry page (parse_section lib dates cfg r.url r.nodes)
  parse_typed-is_retry now page r UrlType.article h = parse_article-is_retry now page r h
  parse_typed-is_retry now page r UrlType.other h = refl

  -- A page that came through the browser is never asked for again.
  parse_page-is_retry :
      (now : ℕ) (r : Response)
      → r.request.playwright ≡ true
      → is_retry (parse_page lib dates cfg now r) ≡ false
  unfolding parse_page
  parse_page-is_retry now r browser =
      if_cases (λ p. is_retry p ≡ false) (r.status == 304) (λ _. refl)
        (λ _. parse_typed-is_retry now (page_item cfg now r) r r.request.url_type browser)

  -- A page is asked for again at most once: the second request is for the same URL and goes
  -- through the browser, and whatever its response is, no third one follows.
  parse_page_once :
      (now later : ℕ) (r answer : Response) (q : Request)
      → parse_page lib dates cfg now r ≡ Parsed.retry q
      → answer.request ≡ q
      → (q.playwright ≡ true)
        × (q.url ≡ r.request.url)
        × (q.url_id ≡ r.request.url_id)
        × (is_retry (parse_page lib dates cfg later answer) ≡ false)
  parse_page_once now later r answer q asks answers =
      let (browser, again, same_url, same_id, same_type) =
        subst (IsRetryOf r.request) asks (parse_page-IsRetryOf now r) in
      (
        browser,
        same_url,
        same_id,
        parse_page-is_retry later answer (ap (λ x. x.playwright) answers ∙ browser),
      )
