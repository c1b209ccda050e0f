-- ===== src/Auth/Service.antt =====
-- `class AuthService` of backend/app/services/auth.py. A method takes the time in seconds and the
-- random values that it draws as arguments: `fresh` is the next `generate_refresh_token()`, `salt`
-- the salt of the next hash, `new_id` the id of a new row.
pub mod Versions
pub mod Sound
pub mod Calls
pub mod Sessions
pub mod Limits
pub mod Accounts
use nivara.Prelude.{
  ℕ, ◌+◌, ◌*◌, String, Bool, true, false, not, Option, none, some, is_some, List, [], ◌∷◌, ◌++◌,
  ltb, ◌==◌, str_eq, if◌then◌else◌,
}
use nivara.Http.{
  HttpError, http, Result, ok, err, Action, pure, raise, gets, modify, ◌>>=◌, ◌>>◌, raise_if,
  or_raise,
}
use nivara.Redis.Counters.{amount}
use nivara.Auth.Users.{User, get_user, find_email, save_user, active_user}
use nivara.Auth.Config.{
  Settings, Services, Key, rt, pwreset, Payload, refresh_payload, reset_payload, other, CounterKey,
  pwv, rl_email, rl_ip,
}
use nivara.Auth.Jwt.{create_access_token}

pub record TokenPair (Jwt : Type 0) : Type 0 where
  pub access_token : Jwt
  pub refresh_token : String
  pub expires_in : ℕ

abbrev pub email_taken : HttpError
email_taken = http 409 "Email already registered"

abbrev pub invalid_credentials : HttpError
invalid_credentials = http 401 "Invalid credentials"

abbrev pub invalid_refresh : HttpError
invalid_refresh = http 401 "Invalid or expired refresh token"

abbrev pub malformed_refresh : HttpError
malformed_refresh = http 401 "Malformed refresh token"

abbrev pub password_changed : HttpError
password_changed = http 401 "Refresh token invalidated (password changed)"

abbrev pub user_inactive : HttpError
user_inactive = http 401 "User no longer active"

abbrev pub current_incorrect : HttpError
current_incorrect = http 401 "Current password incorrect"

abbrev pub too_many_requests : HttpError
too_many_requests = http 429 "Too many password reset requests. Please try again later."

abbrev pub invalid_reset : HttpError
invalid_reset = http 400 "Invalid or expired reset token"

-- `json.loads` and the two fields that `refresh` reads.
unfoldable pub decode_refresh : Payload → Option (ℕ × ℕ)
decode_refresh (refresh_payload user_id pw_v) = some (user_id, pw_v)
decode_refresh _ = none

-- `json.loads` and the one field that `reset_password` reads.
unfoldable pub decode_reset : Payload → Option ℕ
decode_reset (refresh_payload user_id pw_v) = some user_id
decode_reset (reset_payload user_id) = some user_id
decode_reset _ = none

module _ (cfg : Settings) (sv : Services) where
  abbrev Account : Type 0
  Account = User sv.Hash

  -- The users table, Redis, and the reset mails that were handed to the sender.
  pub record State : Type 0 where
    pub users : List (User sv.Hash)
    pub tokens : sv.tokens.Store
    pub counters : sv.counters.Store
    pub outbox : List (String × String)

  unfoldable pub get_pw_version : ℕ → ℕ → State → ℕ
  get_pw_version user_id now s = amount (sv.counters.entry (pwv user_id) now s.counters)

  unfoldable pub bump_pw_version : ℕ → ℕ → Action State ℕ
  bump_pw_version user_id now s =
      let (n, c) = sv.counters.incr (pwv user_id) now s.counters in
      (ok n, record s { counters = c })

  -- SET key payload EX ttl
  abbrev store_token : Key → Payload → ℕ → ℕ → State → State
  store_token key payload ttl now s = record s {
    tokens = sv.tokens.set key payload (some ttl) now s.tokens;
  }

  -- GETDEL
  abbrev take_token : Key → ℕ → Action State (Option Payload)
  take_token key now s =
      let (raw, t) = sv.tokens.getdel key now s.tokens in (ok raw, record s { tokens = t })

  unfoldable pub issue_tokens : User sv.Hash → String → ℕ → Action State (TokenPair sv.Jwt)
  unfolding get_pw_version
  issue_tokens user fresh now = do
    pw_v ← gets (get_pw_version user.id now)
    modify (
        store_token (rt fresh) (refresh_payload user.id pw_v)
          (cfg.refresh_token_expires_days * 24 * 3600) now)
    pure (record {
      access_token =
          create_access_token cfg sv user.id cfg.default_user_tier cfg.default_base_currency now;
      refresh_token = fresh;
      expires_in = cfg.access_token_expires_minutes * 60;
    })

  abbrev or_default : Option String → String
  or_default none = "en-IN"
  or_default (some locale) = if str_eq locale "" then "en-IN" else locale

  -- The commit fails on the unique email, and the rollback leaves the table as it was.
  unfoldable pub register :
      String
      → String
      → Option String
      → Option String
      → ℕ
      → ℕ
      → String
      → ℕ
      → Action State (TokenPair sv.Jwt)
  register email password full_name locale new_id salt fresh now = do
    let user : Account = record {
      id = new_id;
      email = sv.lower email;
      password_hash = sv.hash password salt;
      full_name = full_name;
      locale = or_default locale;
      is_active = true;
    }
    raise_if (is_some (← gets (λ s. find_email (sv.lower email) s.users))) email_taken
    modify (λ s. record s { users = s.users ++ user ∷ [] })
    issue_tokens user fresh now

  -- Saves the new hash where argon2's parameters have moved on.
  unfoldable pub rehash : User sv.Hash → String → ℕ → Action State (User sv.Hash)
  rehash user password salt s =
      let user' = record user { password_hash = sv.hash password salt } in
      if sv.needs_rehash user.password_hash
      then (ok user', record s { users = save_user user' s.users })
      else (ok user, s)

  unfoldable pub login : String → String → ℕ → String → ℕ → Action State (TokenPair sv.Jwt)
  login email password salt fresh now = do
    found ← gets (λ s. active_user (find_email (sv.lower email) s.users))
    user ← or_raise found invalid_credentials
    raise_if (not (sv.verify user.password_hash password)) invalid_credentials
    user' ← rehash user password salt
    issue_tokens user' fresh now

  unfoldable pub refresh : String → String → ℕ → Action State (TokenPair sv.Jwt)
  unfolding get_pw_version decode_refresh
  refresh refresh_token fresh now = do
    raw ← take_token (rt refresh_token) now
    payload ← or_raise raw invalid_refresh
    claim ← or_raise (decode_refresh payload) malformed_refresh
    current ← gets (get_pw_version claim.0 now)
    raise_if (not (claim.1 == current)) password_changed
    found ← gets (λ s. active_user (get_user claim.0 s.users))
    user ← or_raise found user_inactive
    issue_tokens user fresh now

  unfoldable pub logout : String → Action State Unit
  logout refresh_token =
      modify (λ s. record s { tokens = sv.tokens.delete (rt refresh_token) s.tokens })

  abbrev set_password : User sv.Hash → String → ℕ → State → State
  set_password user new_password salt s = record s {
    users = save_user (record user { password_hash = sv.hash new_password salt }) s.users;
  }

  unfoldable pub change_password : User sv.Hash → String → String → ℕ → ℕ → Action State Unit
  unfolding bump_pw_version
  change_password user current_password new_password salt now = do
    raise_if (not (sv.verify user.password_hash current_password)) current_incorrect
    modify (set_password user new_password salt)
    bump_pw_version user.id now
    pure tt

  -- INCR and EXPIRE NX in one pipeline.
  unfoldable pub check_rate_limit : CounterKey → ℕ → Action State Unit
  check_rate_limit key now s =
      let (count, counted) = sv.counters.incr key now s.counters in
      let c = sv.counters.expire_nx key cfg.password_reset_rate_limit_window_seconds now counted in
      raise_if (ltb cfg.password_reset_rate_limit_max count) too_many_requests
        (record s { counters = c })

  -- `if ip:`
  unfoldable pub check_ip : Option String → ℕ → Action State Unit
  unfolding check_rate_limit
  check_ip none now = pure tt
  check_ip (some ip) now = if str_eq ip "" then pure tt else check_rate_limit (rl_ip ip) now

  -- The mail goes to the sender, behind the response or at once; the sender never raises.
  unfoldable pub send_reset : Option (User sv.Hash) → String → ℕ → Action State Unit
  send_reset none fresh now = pure tt
  send_reset (some user) fresh now = do
    modify (
        store_token (pwreset (sv.sha256_hex fresh)) (reset_payload user.id)
          (cfg.password_reset_token_expires_minutes * 60) now)
    modify (λ s. record s { outbox = s.outbox ++ (user.email, fresh) ∷ [] })

  unfoldable pub request_password_reset : String → Option String → String → ℕ → Action State Unit
  unfolding send_reset
  request_password_reset email ip fresh now = do
    check_rate_limit (rl_email (sv.lower email)) now
    check_ip ip now
    found ← gets (λ s. active_user (find_email (sv.lower email) s.users))
    send_reset found fresh now

  unfoldable pub reset_password : String → String → ℕ → ℕ → Action State Unit
  unfolding decode_reset bump_pw_version
  reset_password token new_password salt now = do
    raw ← take_token (pwreset (sv.sha256_hex token)) now
    payload ← or_raise raw invalid_reset
    user_id ← or_raise (decode_reset payload) invalid_reset
    found ← gets (λ s. active_user (get_user user_id s.users))
    user ← or_raise found invalid_reset
    modify (set_password user new_password salt)
    bump_pw_version user.id now
    pure tt
