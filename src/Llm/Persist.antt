-- ===== src/Llm/Persist.antt =====
-- What an analysis leaves in the tables (apps/processor/newscrawl_processor/llm/persist.py): the
-- article's columns, its entities and topics, and a row for the extraction.
use Prim.Native.String.{◌++◌ as str_append}
use news_crawl_intelligence.Prelude.{
  ℕ, ◌+◌, ◌==◌, ◌&&◌, Bool, true, false, String, List, [], ◌∷◌, ◌++◌, Option, none, some, map, any,
  str_eq, if◌then◌else◌,
}
use news_crawl_intelligence.Prelude.Text.{take_chars}
use news_crawl_intelligence.Contracts.{ProcessingStatus}
use news_crawl_intelligence.Articles.Stored.{StoredArticle}
use news_crawl_intelligence.Llm.{
  EntityType, ExtractedEntity, ArticleAnalysis, LlmUsage, total_tokens,
}

-- A named row, an entity by its normalized name and type or a topic by its slug, and a link to it.
pub record Named : Type 0 where
  pub id : ℕ
  pub name : String
  pub key : String

pub record Link : Type 0 where
  pub article_id : ℕ
  pub named_id : ℕ

-- A table of named rows with the table of its links to articles.
pub record Names : Type 0 where
  pub rows : List Named
  pub links : List Link
  pub next_id : ℕ

pub record LlmExtraction : Type 0 where
  pub article_id : ℕ
  pub provider : String
  pub model : String
  pub status : ProcessingStatus
  pub extraction : Option ArticleAnalysis
  pub prompt_tokens : ℕ
  pub completion_tokens : ℕ
  pub total_tokens : ℕ
  pub cost : ℕ
  pub latency_ms : ℕ
  pub error : Option String

pub record AnalysisTables : Type 0 where
  pub articles : List StoredArticle
  pub entities : EntityType → Names
  pub topics : Names
  pub extractions : List LlmExtraction

-- The identity of the row with the key.
unfoldable pub find_named : String → List Named → Option ℕ
find_named key [] = none
find_named key (row ∷ rows) =
    let rest = find_named key rows in if str_eq row.key key then some row.id else rest

abbrev pub is_link : ℕ → ℕ → Link → Bool
is_link article_id named_id link = link.article_id == article_id && link.named_id == named_id

-- A link that is not there yet.
unfoldable pub add_link : ℕ → ℕ → Names → Names
unfolding any
add_link article_id named_id t = if any (is_link article_id named_id) t.links then t else record t {
  links = t.links ++ (record { article_id = article_id; named_id = named_id }) ∷ [];
}

abbrev pub inserted_name : String → String → Names → Names
inserted_name name key t = record t {
  rows = t.rows ++ (record { id = t.next_id; name = name; key = key }) ∷ [];
  next_id = t.next_id + 1;
}

abbrev pub link_found : ℕ → String → String → Names → Option ℕ → Names
link_found article_id name key t none = add_link article_id t.next_id (inserted_name name key t)
link_found article_id name key t (some id) = add_link article_id id t

-- A name of an article: it is looked up by its key, inserted if it is new, and linked.
unfoldable pub link_named : ℕ → String → String → Names → Names
unfolding find_named add_link
link_named article_id name key t = link_found article_id name key t (find_named key t.rows)

unfoldable pub seen_key : String → List String → Bool
unfolding any
seen_key key seen = any (λ k. str_eq k key) seen

-- The loop over the names of an analysis; each comes with its key. An empty key, and one that was
-- seen, are passed over.
unfoldable pub link_names : ℕ → List (String × String) → List String → Names → Names
unfolding link_named seen_key
link_names article_id [] seen t = t
link_names article_id ((name, key) ∷ names) seen t =
    let skipped = link_names article_id names seen t in
    let linked = link_names article_id names (key ∷ seen) (link_named article_id name key t) in
    if str_eq key "" then skipped else if seen_key key seen then skipped else linked

abbrev pub same_type : EntityType → EntityType → Bool
same_type EntityType.person EntityType.person = true
same_type EntityType.organization EntityType.organization = true
same_type EntityType.location EntityType.location = true
same_type EntityType.event EntityType.event = true
same_type EntityType.other EntityType.other = true
same_type _ _ = false

-- The text functions: `normalize_text`, `lower`, and `topic_slug`, which reads Unicode categories.
pub record NameLib : Type 0 where
  pub normalize_text : String → String
  pub lower : String → String
  pub topic_slug : String → String

module _ (lib : NameLib) where
  open lib use {normalize_text, lower, topic_slug}

  -- The entities of one type, whose rows the types keep apart.
  unfoldable pub entity_names : EntityType → List ExtractedEntity → List (String × String)
  entity_names type [] = []
  entity_names type (e ∷ entities) =
      let rest = entity_names type entities in
      let name = normalize_text e.name in
      if str_eq name ""
      then rest
      else if same_type e.type type
      then (name, lower name) ∷ rest
      else rest

  unfoldable pub topic_names : List String → List (String × String)
  unfolding take_chars
  topic_names [] = []
  topic_names (raw ∷ topics) =
      let name = normalize_text raw in (take_chars 200 name, topic_slug name) ∷ topic_names topics

  abbrev filled_or : Option String → String → Option String
  filled_or none other = some other
  filled_or (some text) other = if str_eq text "" then some other else some text

  -- A summary of the publisher is kept.
  unfoldable pub enriched : ArticleAnalysis → StoredArticle → StoredArticle
  enriched analysis a = record a {
    article = record a.article { summary = filled_or a.article.summary analysis.summary };
    sentiment = some analysis.sentiment;
    event_type = analysis.event_type;
    political_category = analysis.political_category;
  }

  unfoldable pub update_article :
      ℕ → (StoredArticle → StoredArticle) → List StoredArticle → List StoredArticle
  update_article id change articles = map (λ a. if a.article.id == id then change a else a) articles

  -- `"; ".join(errors)[:2000] if errors else None`
  abbrev join_after : String → List String → String
  join_after text [] = text
  join_after text (error ∷ errors) = str_append text (str_append "; " (join_after error errors))

  abbrev joined : List String → Option String
  joined [] = none
  joined (error ∷ errors) = some (take_chars 2000 (join_after error errors))

  unfoldable pub completed_row : ℕ → ArticleAnalysis → LlmUsage → ℕ → LlmExtraction
  unfolding take_chars
  completed_row article_id analysis usage latency_ms = record {
    article_id = article_id;
    provider = usage.provider;
    model = usage.model;
    status = ProcessingStatus.completed;
    extraction = some analysis;
    prompt_tokens = usage.prompt_tokens;
    completion_tokens = usage.completion_tokens;
    total_tokens = total_tokens usage;
    cost = usage.cost;
    latency_ms = latency_ms;
    error = joined usage.errors;
  }

  unfoldable pub apply_analysis :
      ℕ → ArticleAnalysis → LlmUsage → ℕ → AnalysisTables → AnalysisTables
  unfolding enriched update_article link_names entity_names topic_names completed_row take_chars
  apply_analysis article_id analysis usage latency_ms t = record {
    articles = update_article article_id (enriched analysis) t.articles;
    entities =
        λ type. link_names article_id (entity_names type analysis.entities) [] (t.entities type);
    topics = link_names article_id (topic_names analysis.topics) [] t.topics;
    extractions = t.extractions ++ completed_row article_id analysis usage latency_ms ∷ [];
  }

abbrev or_none : String → String
or_none text = if str_eq text "" then "none" else text

unfoldable pub record_failure : ℕ → LlmUsage → String → ℕ → AnalysisTables → AnalysisTables
unfolding take_chars
record_failure article_id usage error latency_ms t = record t {
  extractions =
      t.extractions
      ++ (record {
        article_id = article_id;
        provider = or_none usage.provider;
        model = or_none usage.model;
        status = ProcessingStatus.failed;
        extraction = none;
        prompt_tokens = usage.prompt_tokens;
        completion_tokens = usage.completion_tokens;
        total_tokens = total_tokens usage;
        cost = usage.cost;
        latency_ms = latency_ms;
        error = some (take_chars 2000 error);
      })
        ∷ [];
}
