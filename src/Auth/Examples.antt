-- ===== src/Auth/Examples.antt =====
-- Tests of the auth service, on a Redis in memory and with hashes that keep the password.
pub mod Sessions
use nivara.Prelude.{
  ℕ, ◌+◌, ◌*◌, ◌≤◌, ◌<◌, String, ◌≡◌, refl, Bool, true, false, ◌&&◌, Option, none, some, List, [],
  ◌∷◌, ◌==◌, str_eq, eq_iff, eq_refl, arith, ltb, if◌then◌else◌,
}
use nivara.Redis.Values
use nivara.Redis.Counters
use nivara.Http.{Result, ok, err, ◌>>=◌, modify}
use nivara.Auth.Users.{User, get_user, find_email}
use nivara.Auth.Config.{
  Settings, Claims, Services, Key, rt, pwreset, Payload, refresh_payload, reset_payload, CounterKey,
  pwv, rl_email, rl_ip,
}
use nivara.Auth.Service.{State}
use nivara.Auth.Service.Versions.{IsSound}
use nivara.Auth.Service.Calls.{logging_in, requesting, serve, idle, call, Served-IsSound}

abbrev pub same_key : Key → Key → Bool
same_key (rt a) (rt b) = str_eq a b
same_key (pwreset a) (pwreset b) = str_eq a b
same_key _ _ = false

pub same_key_iff : (k j : Key) → (same_key k j ≡ true → k ≡ j) × (k ≡ j → same_key k j ≡ true)
same_key_iff (rt a) (rt b) = (ground (arith, eq_iff a b), ground (arith, eq_iff a b))
same_key_iff (pwreset a) (pwreset b) = (ground (arith, eq_iff a b), ground (arith, eq_iff a b))
same_key_iff (rt a) (pwreset b) = (ground arith, ground arith)
same_key_iff (pwreset a) (rt b) = (ground arith, ground arith)

abbrev pub same_counter : CounterKey → CounterKey → Bool
same_counter (pwv a) (pwv b) = a == b
same_counter (rl_email a) (rl_email b) = str_eq a b
same_counter (rl_ip a) (rl_ip b) = str_eq a b
same_counter _ _ = false

pub same_counter_iff :
    (k j : CounterKey) → (same_counter k j ≡ true → k ≡ j) × (k ≡ j → same_counter k j ≡ true)
same_counter_iff (pwv a) (pwv b) = (ground arith, ground arith)
same_counter_iff (rl_email a) (rl_email b) =
    (ground (arith, eq_iff a b), ground (arith, eq_iff a b))
same_counter_iff (rl_ip a) (rl_ip b) = (ground (arith, eq_iff a b), ground (arith, eq_iff a b))
same_counter_iff (pwv a) (rl_email b) = (ground arith, ground arith)
same_counter_iff (pwv a) (rl_ip b) = (ground arith, ground arith)
same_counter_iff (rl_email a) (pwv b) = (ground arith, ground arith)
same_counter_iff (rl_email a) (rl_ip b) = (ground arith, ground arith)
same_counter_iff (rl_ip a) (pwv b) = (ground arith, ground arith)
same_counter_iff (rl_ip a) (rl_email b) = (ground arith, ground arith)

-- A token is its claims; the missing one is empty.
abbrev pub read : Option Claims → String → String → ℕ → Option Claims
read none aud iss now = none
read (some c) aud iss now =
    if str_eq c.aud aud && (str_eq c.iss iss && ltb now c.exp) then some c else none

abbrev pub is_missing : Option Claims → Bool
is_missing none = true
is_missing (some c) = false

pub read_own : (c : Claims) (now : ℕ) → now < c.exp → read (some c) c.aud c.iss now ≡ some c
read_own c now h = ground (arith, h, eq_refl c.aud, eq_refl c.iss)

abbrev pub services : Services
services = record {
  Hash = String × ℕ;
  hash = λ password salt. (password, salt);
  verify = λ h password. str_eq h.0 password;
  needs_rehash = λ h. h.1 == 0;
  Jwt = Option Claims;
  is_empty = is_missing;
  encode = some;
  decode = read;
  sha256_hex = λ t. t;
  lower = λ t. if str_eq t "Alice" then "alice" else t;
  tokens = Values.memory Payload same_key same_key_iff;
  counters = Counters.memory same_counter same_counter_iff;
  verify-hash = λ password salt. eq_refl password;
  encode_nonempty = λ c. refl;
  decode-encode = read_own;
}

abbrev pub settings : Settings
settings = record {
  default_user_tier = "free";
  default_base_currency = "INR";
  jwt_kid = "1";
  jwt_issuer = "nivara";
  jwt_audience = "api";
  access_token_expires_minutes = 15;
  refresh_token_expires_days = 30;
  password_reset_token_expires_minutes = 30;
  password_reset_rate_limit_max = 2;
  password_reset_rate_limit_window_seconds = 3600;
}

abbrev pub alice : User (String × ℕ)
alice = record {
  id = 3;
  email = "alice";
  password_hash = ("old", 1);
  full_name = none;
  locale = "en-IN";
  is_active = true;
}

abbrev pub start : State settings services
start = record { users = alice ∷ []; tokens = λ k. none; counters = λ k. none; outbox = [] }

pub start-IsSound : IsSound settings services 100 start
start-IsSound = record { steady = λ u t. refl; plain = λ u. tt; bounded = λ token u v t p e. cc e }

-- Alice has logged in and has asked for a reset.
abbrev pub logged_in : State settings services
logged_in =
    serve settings services (requesting "Alice" none "mail") 110
      (serve settings services (logging_in "Alice" "old" 5 "tok") 100 start)

Served-IsSound_example : IsSound settings services 110 logged_in
Served-IsSound_example = Served-IsSound settings services start-IsSound (
    call (requesting "Alice" none "mail") 110
      (call (logging_in "Alice" "old" 5 "tok") 100 idle (omega arith)) (omega arith))
