-- ===== src/Examples/Access.antt =====
-- A user who logs in and refreshes, a paused source, and an article that a second one repeats.
use news_crawl_intelligence.Prelude.{
  ℕ, ◌*◌, ◌≡◌, ◌⊎◌, refl, any, ◌==◌, true, false, String, List, [], ◌∷◌, Option, none, some, str_eq,
  if◌then◌else◌,
}
use news_crawl_intelligence.Prelude.Int.{pos}
use news_crawl_intelligence.Backoff.{hour}
use news_crawl_intelligence.Articles.Rows.{Article}
use news_crawl_intelligence.Articles.Stored.{StoredArticle}
use news_crawl_intelligence.Auth.{
  AuthLib, Settings, User, UserRole, Claims, AuthStore, Answer, access_claims, refresh_claims,
  decode_access_token, decode_refresh_token, refresh_token_is_active, refresh,
}
use news_crawl_intelligence.Auth.Tokens.{tokens_apart}
use news_crawl_intelligence.Auth.Rotation.{Request, serve_all, refresh_once}
use news_crawl_intelligence.CrawlWorker.{Source, is_paused, crawl_sources}
use news_crawl_intelligence.CrawlWorker.Signals.{ControlAction, ControlSignal, WorkerState}
use news_crawl_intelligence.CrawlWorker.Paused.{crawl_sources_skips}
use news_crawl_intelligence.Embeddings.{
  ArticleEmbedding, EmbeddingKind, EmbeddingTables, Backend, candidates_of, semantic_dedup,
}
use news_crawl_intelligence.Embeddings.Nearest.{IsNearest, semantic_dedup-IsNearest}
use news_crawl_intelligence.Examples.Analysis.{article_with}

abbrev settings : Settings
settings = record { access_token_expire_minutes = 15; refresh_token_expire_days = 7 }

abbrev user : User
user = record {
  id = 1;
  email = "a@example.org";
  password_hash = "hash";
  role = UserRole.admin;
  is_active = true;
}

abbrev decode_sample : ℕ → String → Option Claims
decode_sample now token =
    if str_eq token "access"
    then some (access_claims settings 5 user)
    else if str_eq token "refresh"
    then some (refresh_claims settings 5 1 9)
    else none

abbrev type_of : Option String → String
type_of none = "access"
type_of (some typ) = typ

abbrev auth_lib : AuthLib
auth_lib = record {
  encode = λ c. type_of c.typ;
  decode = decode_sample;
  verify = λ hash password. true;
  lower = λ text. text;
}

access_decodes :
    auth_lib.decode 6 (auth_lib.encode (access_claims settings 5 user))
    ≡ some (access_claims settings 5 user)
unfolding access_claims
access_decodes = refl

refresh_decodes :
    auth_lib.decode 6 (auth_lib.encode (refresh_claims settings 5 user.id 9))
    ≡ some (refresh_claims settings 5 user.id 9)
unfolding refresh_claims
refresh_decodes = refl

tokens_apart_example :
    ((decode_access_token auth_lib 6 "refresh" ≡ none)
      ⊎ (decode_refresh_token auth_lib 6 "refresh" ≡ none))
    × (decode_access_token auth_lib 6 (auth_lib.encode (access_claims settings 5 user))
        ≡ some user.id)
    × (decode_refresh_token auth_lib 6 (auth_lib.encode (refresh_claims settings 5 user.id 9))
        ≡ some (user.id, 9))
tokens_apart_example =
    tokens_apart auth_lib settings "refresh" 5 6 9 user access_decodes refresh_decodes

abbrev store : AuthStore
store = record {
  sessions = (record { jti = 9; user_id = 1; expires_at = 100 * hour }) ∷ [];
  attempts = [];
}

is_presented : (now : ℕ) → decode_refresh_token auth_lib now "refresh" ≡ some (1, 9)
unfolding decode_refresh_token refresh_claims
is_presented now = refl

is_active_now : refresh_token_is_active 6 9 1 store ≡ true
unfolding refresh_token_is_active
is_active_now = refl

refresh_once_example :
    (refresh auth_lib settings 8 12 (user ∷ []) "refresh" (
      serve_all auth_lib settings
        (user ∷ [])
        (Request.login_with 7 11 "a@example.org" "x" ∷ [])
        (refresh auth_lib settings 6 10 (user ∷ []) "refresh" store).0)).1
    ≡ Answer.refused 401
refresh_once_example =
    refresh_once auth_lib settings (user ∷ []) 6 10 8 12 1 9 "refresh" store
      (Request.login_with 7 11 "a@example.org" "x" ∷ []) (is_presented 6) (is_presented 8)
      is_active_now refl (refl, tt)

abbrev worker : WorkerState
worker = record { should_stop = false; paused_sources = 1 ∷ [] }

abbrev source : ℕ → Source
source id = record { id = id; slug = "example"; enabled = true; crawl_enabled = true }

-- Source 2 is resumed, but not source 1.
abbrev resume_other : ControlSignal
resume_other = record {
  action = ControlAction.resume;
  job_id = none;
  source_id = some 2;
  worker_id = none;
}

first_is_paused : is_paused worker 1 ≡ true
unfolding is_paused
first_is_paused = refl

crawl_sources_skips_example :
    (any
        (λ s. s.id == 1)
        (crawl_sources "w1" worker ((source 1, resume_other ∷ []) ∷ (source 2, []) ∷ [])).0
      ≡ false)
    × (is_paused
          (crawl_sources "w1" worker ((source 1, resume_other ∷ []) ∷ (source 2, []) ∷ [])).1
          1
        ≡ true)
crawl_sources_skips_example =
    crawl_sources_skips "w1" 1 worker ((source 1, resume_other ∷ []) ∷ (source 2, []) ∷ [])
      first_is_paused ((refl, tt), (tt, tt))

abbrev with_simhash : StoredArticle → StoredArticle
with_simhash a = record a { article = record a.article { simhash = some (pos 7) } }

abbrev first : StoredArticle
first = with_simhash (article_with 1 none)

abbrev second_article : StoredArticle
second_article = with_simhash (article_with 2 none)

abbrev backend : Backend ℕ
backend = record { model_name = "bge-m3"; version = 1; encode = λ text. 1; cosine = λ a b. 9900 }

abbrev body_of : ℕ → ArticleEmbedding ℕ
body_of id = record {
  article_id = id;
  embedding_kind = EmbeddingKind.body;
  embedding_model = "bge-m3";
  embedding_version = 1;
  embedding = 1;
}

abbrev both : EmbeddingTables ℕ
both = record { articles = first ∷ second_article ∷ []; embeddings = body_of 1 ∷ body_of 2 ∷ [] }

abbrev in_order : List Article → List Article
in_order articles = articles

second_marked : (semantic_dedup backend in_order 3 second_article both).1 ≡ some 1
unfolding semantic_dedup
second_marked = refl

semantic_dedup-IsNearest_example :
    IsNearest backend 2 1
      (candidates_of backend in_order 3 second_article (pos 7) both.articles)
      both.embeddings
semantic_dedup-IsNearest_example =
    semantic_dedup-IsNearest backend in_order 3 second_article (pos 7) both 1 refl refl
      second_marked

-- When the first article is embedded again, each of the two is the duplicate of the other.
both_marked :
    (semantic_dedup backend in_order 3 first
      (semantic_dedup backend in_order 3 second_article both).0).1
    ≡ some 2
unfolding semantic_dedup
both_marked = refl
