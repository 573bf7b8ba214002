-- ===== src/Cleaning.antt =====
-- The cleaning of an extracted page (apps/processor/newscrawl_processor/cleaning.py, language.py). A
-- confidence is in ten-thousandths.
pub mod Usable
use mathlib.Core.Option.{map as map_option}
use Prim.Native.String.{◌++◌ as str_append}
use Prim.Native.Char.{Char, code}
use news_crawl_intelligence.Prelude.{
  ℕ, suc, ◌+◌, ◌*◌, ◌&&◌, ◌||◌, not, ltb, leb, Bool, true, false, String, List, [], ◌∷◌, Option,
  none, some, map, filter, take, length, str_eq, if◌then◌else◌,
}
use news_crawl_intelligence.Prelude.Text.{take_chars}
use news_crawl_intelligence.Contracts.{Language}
use news_crawl_intelligence.Articles.Rows.{CleanedArticle}
use news_crawl_intelligence.Spider.Discovered.{DateLib, Moment, as_utc}
use news_crawl_intelligence.Llm.Heuristic.{str_length}

-- How many characters of a text are in one of two ranges.
unfoldable pub count_chars : (Char → Bool) → String → ℕ
count_chars p String.[] = 0
count_chars p (String.◌∷◌ c s) = (if p c then 1 else 0) + count_chars p s

-- U+0980 to U+09FF
abbrev pub is_bengali : Char → Bool
is_bengali c = leb 2432 (code c) && leb (code c) 2559

abbrev pub is_latin : Char → Bool
is_latin c = (leb 97 (code c) && leb (code c) 122) || (leb 65 (code c) && leb (code c) 90)

-- The fragments that are not empty, with spaces between them.
unfoldable pub join_filled : List String → String
join_filled [] = ""
join_filled (t ∷ texts) =
    let rest = join_filled texts in
    if str_eq t "" then rest else if str_eq rest "" then t else str_append t (str_append " " rest)

-- A quarter of the Latin letters is enough for Bangla.
unfoldable pub language_of : ℕ → ℕ → Language
language_of bengali latin =
    if ltb (bengali + latin) 10
    then Language.unknown
    else if leb latin (4 * bengali)
    then Language.bangla
    else Language.english

unfoldable pub detect_language : List String → Language
unfolding count_chars join_filled language_of
detect_language texts =
    let combined = join_filled texts in
    language_of (count_chars is_bengali combined) (count_chars is_latin combined)

-- The fields that the spider extracted, which may be missing.
pub record RawFields : Type 0 where
  pub title : Option String
  pub body : Option String
  pub author : Option String
  pub subtitle : Option String
  pub category : Option String
  pub summary : Option String
  pub published_at : Option String
  pub updated_at : Option String
  pub image_urls : List String
  pub tags : List String
  pub extraction_method : Option String
  pub extraction_confidence : Option ℕ

-- The text functions of Python and of the crawler utilities: `normalize_text`, the lines and the words of a
-- text, the text of an instant, and `content_hash`.
pub record CleanLib : Type 0 where
  pub normalize_text : String → String
  pub strip : String → String
  pub lines : String → List String
  pub words : String → List String
  pub isoformat : ℕ → String
  pub content_hash : String → Option String → Option String → String → String

abbrev pub text_or_empty : Option String → String
text_or_empty none = ""
text_or_empty (some text) = text

abbrev filled : String → Option String
filled text = if str_eq text "" then none else some text

abbrev or_selectors : Option String → String
or_selectors none = "selectors"
or_selectors (some method) = if str_eq method "" then "selectors" else method

abbrev or_zero : Option ℕ → ℕ
or_zero none = 0
or_zero (some n) = n

abbrev is_filled : String → Bool
is_filled text = not (str_eq text "")

unfoldable pub join_paragraphs : List String → String
join_paragraphs [] = ""
join_paragraphs (p ∷ []) = p
join_paragraphs (p ∷ q ∷ paragraphs) =
    str_append p (str_append "\n\n" (join_paragraphs (q ∷ paragraphs)))

module _ (lib : CleanLib) (dates : DateLib) where
  open lib use {normalize_text, strip, lines, words, isoformat, content_hash}

  unfoldable pub clean_body : String → String
  unfolding join_paragraphs filter
  clean_body raw =
      if str_eq raw ""
      then ""
      else join_paragraphs (filter is_filled (map normalize_text (lines raw)))

  unfoldable pub parse_datetime : Option String → Option ℕ
  parse_datetime none = none
  parse_datetime (some raw) = map_option as_utc (dates.fromisoformat (dates.replace_z (strip raw)))

  abbrev pub normalized : Option String → String
  normalized raw = normalize_text (text_or_empty raw)

  -- The article of fields that are long enough.
  unfoldable pub cleaned_of : RawFields → String → String → CleanedArticle
  unfolding detect_language parse_datetime filter take_chars
  cleaned_of raw title body =
      let author = filled (normalized raw.author) in
      let published_at = parse_datetime raw.published_at in
      record {
        title = title;
        body = body;
        language = detect_language (title ∷ take_chars 2000 body ∷ []);
        content_hash = content_hash title author (map_option isoformat published_at) body;
        word_count = length (words body);
        subtitle = filled (normalized raw.subtitle);
        author = author;
        category = filled (normalized raw.category);
        summary = filled (normalized raw.summary);
        published_at = published_at;
        updated_at = parse_datetime raw.updated_at;
        image_urls = take 20 (filter is_filled raw.image_urls);
        tags = take 50 (map normalize_text (filter is_filled raw.tags));
        extraction_method = or_selectors raw.extraction_method;
        extraction_confidence = or_zero raw.extraction_confidence;
      }

  -- `none` is an UnusableArticleError.
  unfoldable pub clean_extracted : RawFields → Option CleanedArticle
  unfolding clean_body cleaned_of str_length
  clean_extracted raw =
      let title = normalized raw.title in
      let body = clean_body (text_or_empty raw.body) in
      if ltb (str_length title) 5
      then none
      else if ltb (str_length body) 100
      then none
      else some (cleaned_of raw title body)
