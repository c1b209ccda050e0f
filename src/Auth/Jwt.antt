-- ===== src/Auth/Jwt.antt =====
-- backend/app/auth/jwt.py and backend/app/auth/dependencies.py: access tokens and the current user.
pub mod Laws
use nivara.Prelude.{
  ℕ, ◌+◌, ◌*◌, String, Bool, true, false, Option, none, some, List, str_eq, if◌then◌else◌,
}
use nivara.Http.{HttpError, http, Result, ok, err}
use nivara.Auth.Users.{User, get_user, active_user}
use nivara.Auth.Config.{Settings, Claims, Services}

pub record DecodedAccessToken : Type 0 where
  pub user_id : ℕ
  pub tier : String
  pub base_currency : String
  pub kid : String
  pub expires_at : ℕ

module _ (cfg : Settings) (sv : Services) where
  -- The claims that `create_access_token` signs; times are in whole seconds.
  unfoldable pub access_claims : ℕ → String → String → ℕ → Claims
  access_claims user_id tier base_currency issued_at = record {
    user_id = user_id;
    tier = tier;
    base_currency = base_currency;
    kid = cfg.jwt_kid;
    iss = cfg.jwt_issuer;
    aud = cfg.jwt_audience;
    iat = issued_at;
    exp = issued_at + cfg.access_token_expires_minutes * 60;
  }

  unfoldable pub create_access_token : ℕ → String → String → ℕ → sv.Jwt
  create_access_token user_id tier base_currency now =
      sv.encode (access_claims user_id tier base_currency now)

  -- `none` is `InvalidTokenError`.
  unfoldable pub decode_access_token : sv.Jwt → ℕ → Option DecodedAccessToken
  decode_access_token token now = elim (sv.decode token cfg.jwt_audience cfg.jwt_issuer now) [
    | none ↦ none
    | some c ↦ some (record {
      user_id = c.user_id;
      tier = c.tier;
      base_currency = c.base_currency;
      kid = c.kid;
      expires_at = c.exp;
    })
  ]

  abbrev pub not_authenticated : HttpError
  not_authenticated = http 401 "Not authenticated"

  abbrev pub invalid_access_token : HttpError
  invalid_access_token = http 401 "Invalid access token"

  unfoldable pub user_of_token :
      Option DecodedAccessToken → List (User sv.Hash) → Result (User sv.Hash)
  user_of_token none users = err invalid_access_token
  user_of_token (some t) users = elim (active_user (get_user t.user_id users)) [
    | none ↦ err not_authenticated
    | some u ↦ ok u
  ]

  -- `none` and the empty text are missing credentials.
  unfoldable pub get_current_user : Option sv.Jwt → ℕ → List (User sv.Hash) → Result (User sv.Hash)
  get_current_user none now users = err not_authenticated
  get_current_user (some token) now users =
      if sv.is_empty token
      then err not_authenticated
      else user_of_token (decode_access_token token now) users
