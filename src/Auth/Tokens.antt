-- ===== src/Auth/Tokens.antt =====
-- Access tokens and refresh tokens are not taken for each other.
use news_crawl_intelligence.Prelude.{
  ℕ, ◌≡◌, ◌⊎◌, inl, inr, refl, ap, String, Option, none, some, str_eq, eq_iff, Bool-cases,
}
use news_crawl_intelligence.Auth.{
  AuthLib, Settings, User, Claims, read_access, read_refresh, access_claims, refresh_claims,
  decode_access_token, decode_refresh_token,
}

-- The type decides, whatever else the claims hold.
read_one :
    (lib : AuthLib) (claims : Option Claims)
    → (read_access lib claims ≡ none) ⊎ (read_refresh lib claims ≡ none)
read_one lib none = inl refl
read_one lib (some c) = read_typ c.typ c
  where
    read_typ :
        (typ : Option String) (c : Claims)
        → (read_access lib (some (record c { typ = typ })) ≡ none)
          ⊎ (read_refresh lib (some (record c { typ = typ })) ≡ none)
    read_typ none c = inr refl
    read_typ (some typ) c = elim (Bool-cases (str_eq typ "refresh")) [
      | inl e ↦ inl (rw ((eq_iff typ "refresh").0 e) refl)
      | inr e ↦ inr (rw (e) refl)
    ]

-- No token, whatever claims it decodes to, is accepted both as an access token and as a refresh
-- token. If the two tokens of a user decode to the claims that they were made of, each is
-- accepted as what it is, with the identity of the user and, of the refresh token, its own.
pub tokens_apart :
    (lib : AuthLib) (settings : Settings) (token : String) (issued now jti : ℕ) (user : User)
    → lib.decode now (lib.encode (access_claims settings issued user))
      ≡ some (access_claims settings issued user)
    → lib.decode now (lib.encode (refresh_claims settings issued user.id jti))
      ≡ some (refresh_claims settings issued user.id jti)
    → ((decode_access_token lib now token ≡ none) ⊎ (decode_refresh_token lib now token ≡ none))
      × (decode_access_token lib now (lib.encode (access_claims settings issued user))
          ≡ some user.id)
      × (decode_refresh_token lib now (lib.encode (refresh_claims settings issued user.id jti))
          ≡ some (user.id, jti))
unfolding decode_access_token decode_refresh_token access_claims refresh_claims
tokens_apart lib settings token issued now jti user access refresh_ = (
  read_one lib (lib.decode now token),
  ap (read_access lib) access,
  ap (read_refresh lib) refresh_,
)
