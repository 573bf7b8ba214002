-- ===== src/Auth.antt =====
-- Authentication (apps/api/newscrawl_api/services/auth.py, api/v1/auth.py and api/deps.py): tokens, the
-- sessions in Redis, and the users. Instants are microseconds; a user, a role's owner and a `jti` are
-- numbers; a refusal is the status of the HTTP error.
pub mod Tokens
pub mod Rotation
use news_crawl_intelligence.Prelude.{
  ℕ, ◌+◌, ◌*◌, ◌&&◌, ◌||◌, not, ltb, leb, ◌==◌, Bool, true, false, String, List, [], ◌∷◌, Option,
  none, some, filter, str_eq, if◌then◌else◌,
}
use news_crawl_intelligence.Backoff.{second, minute, hour}

pub data UserRole : Type 0 where
  admin viewer : UserRole

pub record User : Type 0 where
  pub id : ℕ
  pub email : String
  pub password_hash : String
  pub role : UserRole
  pub is_active : Bool

-- The payload of a token; a claim that is missing is `none`.
pub record Claims : Type 0 where
  pub sub : Option ℕ
  pub email : Option String
  pub role : Option UserRole
  pub typ : Option String
  pub jti : Option ℕ
  pub iat : ℕ
  pub exp : ℕ

pub record Settings : Type 0 where
  pub access_token_expire_minutes : ℕ
  pub refresh_token_expire_days : ℕ

-- What PyJWT and argon2 do with the keys of the settings; `none` is a PyJWTError, which a token that
-- is forged, or has run out by the given time, raises.
pub record AuthLib : Type 0 where
  pub encode : Claims → String
  pub decode : ℕ → String → Option Claims
  pub verify : String → String → Bool
  pub lower : String → String

-- A session: a refresh token that Redis keeps until a time.
pub record Session : Type 0 where
  pub jti : ℕ
  pub user_id : ℕ
  pub expires_at : ℕ

-- The login attempts of an email address, and until when they count.
pub record Attempts : Type 0 where
  pub email : String
  pub count : ℕ
  pub expires_at : ℕ

pub record AuthStore : Type 0 where
  pub sessions : List Session
  pub attempts : List Attempts

pub data Answer : Type 0 where
  tokens : (access_token refresh_token : String) → Answer
  refused : ℕ → Answer

unfoldable pub find_user : ℕ → List User → Option User
find_user id [] = none
find_user id (u ∷ users) = let rest = find_user id users in if u.id == id then some u else rest

unfoldable pub find_email : String → List User → Option User
find_email email [] = none
find_email email (u ∷ users) =
    let rest = find_email email users in if str_eq u.email email then some u else rest

-- The user of a session that has not run out.
unfoldable pub session_user : ℕ → ℕ → List Session → Option ℕ
session_user now jti [] = none
session_user now jti (s ∷ sessions) =
    let rest = session_user now jti sessions in
    if s.jti == jti && ltb now s.expires_at then some s.user_id else rest

unfoldable pub revoke_refresh_token : ℕ → AuthStore → AuthStore
unfolding filter
revoke_refresh_token jti store = record store {
  sessions = filter (λ s. not (s.jti == jti)) store.sessions;
}

unfoldable pub store_refresh_token : Settings → ℕ → ℕ → ℕ → AuthStore → AuthStore
unfolding revoke_refresh_token filter
store_refresh_token settings now jti user_id store =
    let session : Session = record {
      jti = jti;
      user_id = user_id;
      expires_at = now + settings.refresh_token_expire_days * (24 * hour);
    } in
    record store { sessions = session ∷ filter (λ s. not (s.jti == jti)) store.sessions }

abbrev pub is_user : ℕ → Option ℕ → Bool
is_user user_id none = false
is_user user_id (some stored) = stored == user_id

unfoldable pub refresh_token_is_active : ℕ → ℕ → ℕ → AuthStore → Bool
unfolding session_user
refresh_token_is_active now jti user_id store =
    is_user user_id (session_user now jti store.sessions)

unfoldable pub access_claims : Settings → ℕ → User → Claims
access_claims settings now user = record {
  sub = some user.id;
  email = some user.email;
  role = some user.role;
  typ = some "access";
  jti = none;
  iat = now;
  exp = now + settings.access_token_expire_minutes * minute;
}

unfoldable pub refresh_claims : Settings → ℕ → ℕ → ℕ → Claims
refresh_claims settings now user_id jti = record {
  sub = some user_id;
  email = none;
  role = none;
  typ = some "refresh";
  jti = some jti;
  iat = now;
  exp = now + settings.refresh_token_expire_days * (24 * hour);
}

-- The attempts of an email address, counted anew once they have run out.
abbrev attempts_now : ℕ → String → Attempts → ℕ → ℕ
attempts_now now email a rest =
    if str_eq a.email email && ltb now a.expires_at then a.count else rest

unfoldable pub attempts_of : ℕ → String → List Attempts → ℕ
attempts_of now email [] = 0
attempts_of now email (a ∷ attempts) = attempts_now now email a (attempts_of now email attempts)

unfoldable pub attempts_until : ℕ → String → List Attempts → ℕ
attempts_until now email [] = now + 300 * second
attempts_until now email (a ∷ attempts) =
    let rest = attempts_until now email attempts in
    if str_eq a.email email && ltb now a.expires_at then a.expires_at else rest

abbrev pub forget : String → List Attempts → List Attempts
forget email attempts = filter (λ a. not (str_eq a.email email)) attempts

-- INCR, and EXPIRE for the first attempt of a window.
unfoldable pub count_attempt : ℕ → String → AuthStore → AuthStore
unfolding attempts_of attempts_until filter
count_attempt now email store = record store {
  attempts =
      (record {
        email = email;
        count = attempts_of now email store.attempts + 1;
        expires_at = attempts_until now email store.attempts;
      })
      ∷ forget email store.attempts;
}

abbrev or_access : Option String → String
or_access none = "access"
or_access (some typ) = typ

abbrev is_refresh : Option String → Bool
is_refresh none = false
is_refresh (some typ) = str_eq typ "refresh"

module _ (lib : AuthLib) where
  open lib use {encode, decode, verify, lower}

  -- The user whom the claims of an access token name. A token without a type is one, too.
  abbrev access_user : Option ℕ → Option UserRole → Option ℕ
  access_user (some sub) (some role) = some sub
  access_user _ _ = none

  abbrev pub read_access : Option Claims → Option ℕ
  read_access none = none
  read_access (some c) =
      if str_eq (or_access c.typ) "access" then access_user c.sub c.role else none

  unfoldable pub decode_access_token : ℕ → String → Option ℕ
  decode_access_token now token = read_access (decode now token)

  -- The user and the `jti` of a refresh token.
  abbrev refresh_parts : Option ℕ → Option ℕ → Option (ℕ × ℕ)
  refresh_parts (some sub) (some jti) = some (sub, jti)
  refresh_parts _ _ = none

  abbrev pub read_refresh : Option Claims → Option (ℕ × ℕ)
  read_refresh none = none
  read_refresh (some c) = if is_refresh c.typ then refresh_parts c.sub c.jti else none

  unfoldable pub decode_refresh_token : ℕ → String → Option (ℕ × ℕ)
  decode_refresh_token now token = read_refresh (decode now token)

  -- `jti` is the fresh identity of the refresh token.
  unfoldable pub issue_token_pair : Settings → ℕ → ℕ → User → AuthStore → AuthStore × Answer
  unfolding access_claims refresh_claims store_refresh_token
  issue_token_pair settings now jti user store = (
    store_refresh_token settings now jti user.id store,
    Answer.tokens (encode (access_claims settings now user))
        (encode (refresh_claims settings now user.id jti)),
  )

  abbrev pub login_as :
      Settings → ℕ → ℕ → String → String → Option User → AuthStore → AuthStore × Answer
  login_as settings now jti email password none store = (store, Answer.refused 401)
  login_as settings now jti email password (some user) store =
      let cleared = record store { attempts = forget email store.attempts } in
      if user.is_active && verify user.password_hash password
      then issue_token_pair settings now jti user cleared
      else (store, Answer.refused 401)

  unfoldable pub login :
      Settings → ℕ → ℕ → List User → String → String → AuthStore → AuthStore × Answer
  unfolding count_attempt attempts_of find_email issue_token_pair filter
  login settings now jti users email password store =
      let key = lower email in
      let counted = count_attempt now key store in
      if ltb 10 (attempts_of now key store.attempts + 1)
      then (counted, Answer.refused 429)
      else login_as settings now jti key password (find_email key users) counted

  abbrev pub refresh_user : Settings → ℕ → ℕ → ℕ → Option User → AuthStore → AuthStore × Answer
  refresh_user settings now fresh jti none store =
      (revoke_refresh_token jti store, Answer.refused 401)
  refresh_user settings now fresh jti (some user) store =
      if user.is_active
      then issue_token_pair settings now fresh user (revoke_refresh_token jti store)
      else (revoke_refresh_token jti store, Answer.refused 401)

  abbrev pub refresh_as :
      Settings → ℕ → ℕ → List User → Option (ℕ × ℕ) → AuthStore → AuthStore × Answer
  refresh_as settings now fresh users none store = (store, Answer.refused 401)
  refresh_as settings now fresh users (some (user_id, jti)) store =
      if refresh_token_is_active now jti user_id store
      then refresh_user settings now fresh jti (find_user user_id users) store
      else (store, Answer.refused 401)

  -- The presented token is revoked, and a new pair is issued, with the `jti` `fresh`.
  unfoldable pub refresh : Settings → ℕ → ℕ → List User → String → AuthStore → AuthStore × Answer
  unfolding decode_refresh_token refresh_token_is_active find_user revoke_refresh_token
      issue_token_pair
  refresh settings now fresh users token store =
      refresh_as settings now fresh users (decode_refresh_token now token) store

  abbrev pub logout_as : Option (ℕ × ℕ) → AuthStore → AuthStore
  logout_as none store = store
  logout_as (some (user_id, jti)) store = revoke_refresh_token jti store

  unfoldable pub logout : ℕ → String → AuthStore → AuthStore
  unfolding decode_refresh_token revoke_refresh_token
  logout now token store = logout_as (decode_refresh_token now token) store

  abbrev active_user : Option User → Option User
  active_user none = none
  active_user (some user) = if user.is_active then some user else none

  abbrev find_active : List User → Option ℕ → Option User
  find_active users none = none
  find_active users (some id) = active_user (find_user id users)

  -- The user of a request with a bearer token; `none` is the status 401.
  unfoldable pub get_current_user : ℕ → List User → Option String → Option User
  unfolding decode_access_token find_user
  get_current_user now users none = none
  get_current_user now users (some token) = find_active users (decode_access_token now token)
