-- ===== src/Cleaning/Usable.antt =====
-- What passes the validation.
use news_crawl_intelligence.Prelude.{
  ◌≤◌, ◌≡◌, ltb, Option, none, some, length, length-take-le, arith, if_cases,
}
use mathlib.Core.Path.{subst}
use news_crawl_intelligence.Articles.Rows.{CleanedArticle}
use news_crawl_intelligence.Spider.Discovered.{DateLib}
use news_crawl_intelligence.Llm.Heuristic.{str_length}
use news_crawl_intelligence.Cleaning.{
  CleanLib, RawFields, clean_extracted, cleaned_of, clean_body, normalized, text_or_empty,
}

-- A title of 5 characters, a body of 100, and no more images and tags than are kept.
pub record IsUsable (c : CleanedArticle) : Type 0 where
  pub long_title : 5 ≤ str_length c.title
  pub long_body : 100 ≤ str_length c.body
  pub few_images : length c.image_urls ≤ 20
  pub few_tags : length c.tags ≤ 50

abbrev IsUsableIf : Option CleanedArticle → Type 0
IsUsableIf none = Unit
IsUsableIf (some c) = IsUsable c

-- Every article that is cleaned has a title and a body that are long enough, and at most 20 images and
-- 50 tags.
pub clean_extracted-IsUsable :
    (lib : CleanLib) (dates : DateLib) (raw : RawFields) (c : CleanedArticle)
    → clean_extracted lib dates raw ≡ some c
    → IsUsable c
unfolding clean_extracted cleaned_of
clean_extracted-IsUsable lib dates raw c cleans =
    let title = normalized lib dates raw.title in
    let body = clean_body lib dates (text_or_empty raw.body) in
    subst IsUsableIf cleans (
      if_cases IsUsableIf (ltb (str_length title) 5) (λ _. tt)
        (λ title_fits.
          if_cases IsUsableIf (ltb (str_length body) 100) (λ _. tt)
            (λ body_fits. record {
              long_title = ground (arith, title_fits);
              long_body = ground (arith, body_fits);
              few_images = length-take-le 20 _;
              few_tags = length-take-le 50 _;
            })))
