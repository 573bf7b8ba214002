-- ===== src/Auth/Rotation.antt =====
-- A refresh token works once: it is revoked when it is presented, and no later request brings it back.
use news_crawl_intelligence.Prelude.{
  ℕ, ◌+◌, ◌≡◌, refl, ap, ◌==◌, ◌&&◌, not, ltb, Bool, true, false, String, List, [], ◌∷◌, Option,
  none, some, filter, any, All, arith, if_cases,
}
use mathlib.Core.Path.{subst, sym}
use news_crawl_intelligence.Auth.{
  AuthLib, Settings, User, Session, AuthStore, Answer, refused, find_user, find_email, session_user,
  revoke_refresh_token, store_refresh_token, refresh_token_is_active, is_user, count_attempt,
  attempts_of, decode_refresh_token, issue_token_pair, login_as, login, refresh_user, refresh_as,
  refresh, logout_as, logout, forget,
}

-- A request, with its time, and the fresh `jti` that it may use.
pub data Request : Type 0 where
  login_with : (now fresh : ℕ) → (email password : String) → Request
  refresh_with : (now fresh : ℕ) → String → Request
  logout_with : ℕ → String → Request

abbrev uses : ℕ → Request → Bool
uses jti (login_with now fresh email password) = fresh == jti
uses jti (refresh_with now fresh token) = fresh == jti
uses jti (logout_with now token) = false

-- No session has the `jti`.
abbrev IsGone : ℕ → AuthStore → Type 0
IsGone jti store = any (λ s. s.jti == jti) store.sessions ≡ false

revoked :
    (jti : ℕ) (sessions : List Session)
    → any (λ s. s.jti == jti) (filter (λ s. not (s.jti == jti)) sessions) ≡ false
unfolding any filter
revoked jti [] = refl
revoked jti (s ∷ sessions) = ground (arith, revoked jti sessions)

filter_gone :
    (jti : ℕ) (p : Session → Bool) (sessions : List Session)
    → any (λ s. s.jti == jti) sessions ≡ false
    → any (λ s. s.jti == jti) (filter p sessions) ≡ false
unfolding any filter
filter_gone jti p [] h = refl
filter_gone jti p (s ∷ sessions) h = ground (arith, h, filter_gone jti p sessions)

gone_user :
    (now jti : ℕ) (sessions : List Session)
    → any (λ s. s.jti == jti) sessions ≡ false
    → session_user now jti sessions ≡ none
unfolding any session_user
gone_user now jti [] h = refl
gone_user now jti (s ∷ sessions) h = ground (arith, h, gone_user now jti sessions)

store-IsGone :
    (settings : Settings) (now fresh jti user_id : ℕ) (store : AuthStore)
    → (fresh == jti) ≡ false
    → IsGone jti store
    → IsGone jti (store_refresh_token settings now fresh user_id store)
unfolding store_refresh_token any
store-IsGone settings now fresh jti user_id store other h =
    ground (arith, other, filter_gone jti (λ s. not (s.jti == fresh)) store.sessions h)

revoke_refresh_token-IsGone :
    (jti other : ℕ) (store : AuthStore)
    → IsGone jti store
    → IsGone jti (revoke_refresh_token other store)
unfolding revoke_refresh_token
revoke_refresh_token-IsGone jti other store h =
    filter_gone jti (λ s. not (s.jti == other)) store.sessions h

own-IsGone : (jti : ℕ) (store : AuthStore) → IsGone jti (revoke_refresh_token jti store)
unfolding revoke_refresh_token
own-IsGone jti store = revoked jti store.sessions

module _ (lib : AuthLib) (settings : Settings) (users : List User) where
  -- What a request does to the store.
  unfoldable pub serve : Request → AuthStore → AuthStore
  unfolding login refresh logout
  serve (login_with now fresh email password) store =
      (login lib settings now fresh users email password store).0
  serve (refresh_with now fresh token) store = (refresh lib settings now fresh users token store).0
  serve (logout_with now token) store = logout lib now token store

  unfoldable pub serve_all : List Request → AuthStore → AuthStore
  unfolding serve
  serve_all [] store = store
  serve_all (r ∷ requests) store = serve_all requests (serve r store)

  login_as-IsGone :
      (now fresh jti : ℕ) (email password : String) (user : Option User) (store : AuthStore)
      → (fresh == jti) ≡ false
      → IsGone jti store
      → IsGone jti (login_as lib settings now fresh email password user store).0
  unfolding issue_token_pair
  login_as-IsGone now fresh jti email password none store other h = h
  login_as-IsGone now fresh jti email password (some user) store other h =
      if_cases (λ (r : AuthStore × Answer). IsGone jti r.0)
        (user.is_active && lib.verify user.password_hash password)
        (λ _.
          store-IsGone settings now fresh jti user.id
            (record store { attempts = forget email store.attempts }) other h)
        (λ _. h)

  refresh_user-IsGone :
      (now fresh jti own : ℕ) (user : Option User) (store : AuthStore)
      → (fresh == jti) ≡ false
      → IsGone jti (revoke_refresh_token own store)
      → IsGone jti (refresh_user lib settings now fresh own user store).0
  unfolding issue_token_pair
  refresh_user-IsGone now fresh jti own none store other h = h
  refresh_user-IsGone now fresh jti own (some user) store other h =
      if_cases (λ (r : AuthStore × Answer). IsGone jti r.0) user.is_active
        (λ _. store-IsGone settings now fresh jti user.id (revoke_refresh_token own store) other h)
        (λ _. h)

  refresh_as-IsGone :
      (now fresh jti : ℕ) (parts : Option (ℕ × ℕ)) (store : AuthStore)
      → (fresh == jti) ≡ false
      → IsGone jti store
      → IsGone jti (refresh_as lib settings now fresh users parts store).0
  refresh_as-IsGone now fresh jti none store other h = h
  refresh_as-IsGone now fresh jti (some (user_id, own)) store other h =
      if_cases (λ (r : AuthStore × Answer). IsGone jti r.0)
        (refresh_token_is_active now own user_id store)
        (λ _.
          refresh_user-IsGone now fresh jti own (find_user user_id users) store other
            (revoke_refresh_token-IsGone jti own store h))
        (λ _. h)

  logout_as-IsGone :
      (jti : ℕ) (parts : Option (ℕ × ℕ)) (store : AuthStore)
      → IsGone jti store
      → IsGone jti (logout_as lib parts store)
  logout_as-IsGone jti none store h = h
  logout_as-IsGone jti (some (user_id, own)) store h = revoke_refresh_token-IsGone jti own store h

  serve-IsGone :
      (jti : ℕ) (r : Request) (store : AuthStore)
      → uses jti r ≡ false
      → IsGone jti store
      → IsGone jti (serve r store)
  unfolding serve login refresh logout count_attempt
  serve-IsGone jti (login_with now fresh email password) store other h =
      if_cases (λ (r : AuthStore × Answer). IsGone jti r.0)
        (ltb 10 (attempts_of now (lib.lower email) store.attempts + 1)) (λ _. h)
        (λ _.
          login_as-IsGone now fresh jti (lib.lower email) password
            (find_email (lib.lower email) users) (count_attempt now (lib.lower email) store) other
            h)
  serve-IsGone jti (refresh_with now fresh token) store other h =
      refresh_as-IsGone now fresh jti (decode_refresh_token lib now token) store other h
  serve-IsGone jti (logout_with now token) store other h =
      logout_as-IsGone jti (decode_refresh_token lib now token) store h

  serve_all-IsGone :
      (jti : ℕ) (requests : List Request) (store : AuthStore)
      → All (λ r. uses jti r ≡ false) requests
      → IsGone jti store
      → IsGone jti (serve_all requests store)
  unfolding serve_all
  serve_all-IsGone jti [] store others h = h
  serve_all-IsGone jti (r ∷ requests) store others h =
      serve_all-IsGone jti requests (serve r store) others.1 (serve-IsGone jti r store others.0 h)

  refresh-IsGone :
      (now fresh user_id jti : ℕ) (token : String) (store : AuthStore)
      → decode_refresh_token lib now token ≡ some (user_id, jti)
      → refresh_token_is_active now jti user_id store ≡ true
      → (fresh == jti) ≡ false
      → IsGone jti (refresh lib settings now fresh users token store).0
  unfolding refresh
  refresh-IsGone now fresh user_id jti token store read active other =
      subst (λ parts. IsGone jti (refresh_as lib settings now fresh users parts store).0) (sym read)
        (if_cases (λ (r : AuthStore × Answer). IsGone jti r.0)
          (refresh_token_is_active now jti user_id store)
          (λ _.
            refresh_user-IsGone now fresh jti jti (find_user user_id users) store other
              (own-IsGone jti store))
          (λ inactive. absurd (ground (arith, active, inactive))))

  refused_when :
      (now fresh user_id jti : ℕ) (token : String) (store : AuthStore)
      → decode_refresh_token lib now token ≡ some (user_id, jti)
      → refresh_token_is_active now jti user_id store ≡ false
      → (refresh lib settings now fresh users token store).1 ≡ refused 401
  unfolding refresh
  refused_when now fresh user_id jti token store read inactive =
      subst (λ parts. (refresh_as lib settings now fresh users parts store).1 ≡ refused 401)
        (sym read)
        (if_cases (λ (r : AuthStore × Answer). r.1 ≡ refused 401)
          (refresh_token_is_active now jti user_id store)
          (λ active. absurd (ground (arith, active, inactive))) (λ _. refl))

  -- A refresh token that was active, and was presented once, is refused whenever it is presented
  -- again, though it has not run out, whatever logins, refreshes and logouts come in between, if
  -- their fresh identities differ from its own.
  pub refresh_once :
      (now fresh later newer user_id jti : ℕ) (token : String) (store : AuthStore)
      (requests : List Request)
      → decode_refresh_token lib now token ≡ some (user_id, jti)
      → decode_refresh_token lib later token ≡ some (user_id, jti)
      → refresh_token_is_active now jti user_id store ≡ true
      → (fresh == jti) ≡ false
      → All (λ r. uses jti r ≡ false) requests
      → (refresh lib settings later newer users token
          (serve_all requests (refresh lib settings now fresh users token store).0)).1
        ≡ refused 401
  unfolding refresh refresh_token_is_active
  refresh_once now fresh later newer user_id jti token store requests read again active other
        others =
      let s = serve_all requests (refresh lib settings now fresh users token store).0 in
      let gone : IsGone jti s =
        serve_all-IsGone jti requests (refresh lib settings now fresh users token store).0 others
          (refresh-IsGone now fresh user_id jti token store read active other) in
      refused_when later newer user_id jti token s again
        (ap (is_user user_id) (gone_user later jti s.sessions gone))
