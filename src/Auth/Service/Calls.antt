-- ===== src/Auth/Service/Calls.antt =====
-- The requests that reach the auth service (backend/app/api/auth.py), one after another.
use nivara.Prelude.{ℕ, ◌≤◌, String, Option}
use nivara.Auth.Users.{User}
use nivara.Auth.Config.{Settings, Services}
use nivara.Auth.Service.{
  State, register, login, refresh, logout, change_password, request_password_reset, reset_password,
}
use nivara.Auth.Service.Versions.{IsSound, IsSound-later}
use nivara.Auth.Service.Sound.{
  register-Keeps, login-Keeps, refresh-Keeps, logout-Keeps, change_password-Keeps, request-Keeps,
  reset-Keeps,
}

-- A request with the random values that it draws.
pub data Call (Hash : Type 0) : Type 0 where
  registering : String → String → Option String → Option String → ℕ → ℕ → String → Call Hash
  logging_in : String → String → ℕ → String → Call Hash
  refreshing : String → String → Call Hash
  logging_out : String → Call Hash
  changing : User Hash → String → String → ℕ → Call Hash
  requesting : String → Option String → String → Call Hash
  resetting : String → String → ℕ → Call Hash

module _ (cfg : Settings) (sv : Services) where
  -- What one request at a time leaves; its answer goes to the client.
  unfoldable pub serve : Call sv.Hash → ℕ → State cfg sv → State cfg sv
  serve (registering email password name locale id salt fresh) now s =
      (register cfg sv email password name locale id salt fresh now s).1
  serve (logging_in email password salt fresh) now s =
      (login cfg sv email password salt fresh now s).1
  serve (refreshing token fresh) now s = (refresh cfg sv token fresh now s).1
  serve (logging_out token) now s = (logout cfg sv token s).1
  serve (changing user current new salt) now s =
      (change_password cfg sv user current new salt now s).1
  serve (requesting email ip fresh) now s = (request_password_reset cfg sv email ip fresh now s).1
  serve (resetting token new salt) now s = (reset_password cfg sv token new salt now s).1

  pub serve-IsSound :
      (c : Call sv.Hash) (now : ℕ) (s : State cfg sv)
      → IsSound cfg sv now s
      → IsSound cfg sv now (serve c now s)
  unfolding serve
  serve-IsSound (registering email password name locale id salt fresh) now =
      (register-Keeps cfg sv now email password name locale id salt fresh).at
  serve-IsSound (logging_in email password salt fresh) now =
      (login-Keeps cfg sv now email password salt fresh).at
  serve-IsSound (refreshing token fresh) now = (refresh-Keeps cfg sv now token fresh).at
  serve-IsSound (logging_out token) now = (logout-Keeps cfg sv now token).at
  serve-IsSound (changing user current new salt) now =
      (change_password-Keeps cfg sv now user current new salt).at
  serve-IsSound (requesting email ip fresh) now = (request-Keeps cfg sv now email ip fresh).at
  serve-IsSound (resetting token new salt) now = (reset-Keeps cfg sv now token new salt).at

  -- Requests at times that never go back.
  pub data Served (s : State cfg sv) (start : ℕ) : State cfg sv → ℕ → Type 0 where
    idle : Served s start s start
    call :
        {u : State cfg sv} {then_at : ℕ} (c : Call sv.Hash) (now : ℕ)
        → Served s start u then_at
        → then_at ≤ now
        → Served s start (serve c now u) now

  -- From a sound state on, whatever requests are served in whatever order, the state stays sound:
  -- no refresh token that is still stored carries a password version above its user's counter, and
  -- these counters never expire.
  pub Served-IsSound :
      {s : State cfg sv} {start : ℕ} {u : State cfg sv} {now : ℕ}
      → IsSound cfg sv start s
      → Served s start u now
      → IsSound cfg sv now u
  Served-IsSound h idle = h
  Served-IsSound h (call {u = u} c now r le) =
      serve-IsSound c now u (IsSound-later cfg sv le (Served-IsSound h r))
