-- ===== src/Auth/Config.antt =====
-- What the auth service is configured with (backend/app/config.py) and what it calls: argon2, JWT
-- signing, SHA-256, `str.lower` and Redis, whose documented behaviour the fields state.
use nivara.Prelude.{ℕ, ◌<◌, String, Bool, true, false, Option, some, ◌≡◌}
use nivara.Redis.Values.{Values}
use nivara.Redis.Counters.{Counters}

pub record Settings : Type 0 where
  pub default_user_tier : String
  pub default_base_currency : String
  pub jwt_kid : String
  pub jwt_issuer : String
  pub jwt_audience : String
  pub access_token_expires_minutes : ℕ
  pub refresh_token_expires_days : ℕ
  pub password_reset_token_expires_minutes : ℕ
  pub password_reset_rate_limit_max : ℕ
  pub password_reset_rate_limit_window_seconds : ℕ

-- The payload of an access token. `sub` repeats `user_id`.
pub record Claims : Type 0 where
  pub user_id : ℕ
  pub tier : String
  pub base_currency : String
  pub kid : String
  pub iss : String
  pub aud : String
  pub iat : ℕ
  pub exp : ℕ

-- `auth:rt:{token}` and `auth:pwreset:{sha256(token)}`
pub data Key : Type 0 where
  rt pwreset : String → Key

-- The JSON values under those keys; `other` is any text that does not decode.
pub data Payload : Type 0 where
  refresh_payload : ℕ → ℕ → Payload
  reset_payload : ℕ → Payload
  other : String → Payload

-- `auth:pwv:{user_id}`, `auth:pwreset:rl:email:{email}` and `auth:pwreset:rl:ip:{ip}`
pub data CounterKey : Type 0 where
  pwv : ℕ → CounterKey
  rl_email rl_ip : String → CounterKey

pub record Services : Type 1 where
  pub Hash : Type 0
  pub hash : String → ℕ → Hash
  pub verify : Hash → String → Bool
  pub needs_rehash : Hash → Bool
  -- An encoded JWT, a text.
  pub Jwt : Type 0
  pub is_empty : Jwt → Bool
  -- `jwt.encode` with the private key, and `jwt.decode` with the public key, an audience and an
  -- issuer at a time
  pub encode : Claims → Jwt
  pub decode : Jwt → String → String → ℕ → Option Claims
  pub sha256_hex : String → String
  pub lower : String → String
  pub tokens : Values Key Payload
  pub counters : Counters CounterKey
  -- A hash under any salt verifies its password.
  pub verify-hash : (password : String) (salt : ℕ) → verify (hash password salt) password ≡ true
  pub encode_nonempty : (c : Claims) → is_empty (encode c) ≡ false
  pub decode-encode :
      (c : Claims) (now : ℕ) → now < c.exp → decode (encode c) c.aud c.iss now ≡ some c
