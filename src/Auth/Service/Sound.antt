-- ===== src/Auth/Service/Sound.antt =====
-- The methods of the auth service, one by one, against the bound of `Versions`.
use nivara.Prelude.{ℕ, String, Option, none, some, Bool-cases, inl, inr, str_eq, List, arith, ltb}
use nivara.Http.{◌>>=◌, modify, raise_if}
use nivara.Http.Keeps.{
  Keeps, Keeps-if, Keeps-pure, Keeps-gets, Keeps-bind, Keeps-raise_if, Keeps-modify, keeps_rules,
}
use nivara.Auth.Users.{User}
use nivara.Auth.Config.{Settings, Services, Key, rt, CounterKey, pwv, rl_email, rl_ip}
use nivara.Auth.Service.{
  State, take_token, set_password, bump_pw_version, issue_tokens, register, rehash, login, refresh,
  logout, change_password, too_many_requests, check_rate_limit, check_ip, send_reset,
  request_password_reset, reset_password,
}
use nivara.Auth.Service.Versions.{
  IsSound, delete-IsSound, set_refresh-IsSound, set_reset-IsSound, bump-IsSound, limit-IsSound,
  IsOther,
}

module _ (cfg : Settings) (sv : Services) (now : ℕ) where
  -- The table of users is no part of the bound.
  users-IsSound :
      (users : List (User sv.Hash)) (s : State cfg sv)
      → IsSound cfg sv now s
      → IsSound cfg sv now (record s { users = users })
  users-IsSound users s h = record { steady = h.steady; plain = h.plain; bounded = h.bounded }

  outbox-IsSound :
      (outbox : List (String × String)) (s : State cfg sv)
      → IsSound cfg sv now s
      → IsSound cfg sv now (record s { outbox = outbox })
  outbox-IsSound outbox s h = record { steady = h.steady; plain = h.plain; bounded = h.bounded }

  take-Keeps : (key : Key) → Keeps (IsSound cfg sv now) (take_token cfg sv key now)
  take-Keeps key = record {
    at = λ s h. rw (sv.tokens.getdel_lem key now s.tokens) (delete-IsSound cfg sv key s h);
  }

  bump-Keeps : (user : ℕ) → Keeps (IsSound cfg sv now) (bump_pw_version cfg sv user now)
  unfolding bump_pw_version
  bump-Keeps user = record { at = bump-IsSound cfg sv user }

  issue-Keeps :
      (user : User sv.Hash) (fresh : String)
      → Keeps (IsSound cfg sv now) (issue_tokens cfg sv user fresh now)
  unfolding issue_tokens ◌>>=◌
  issue-Keeps user fresh = record { at = λ s h. set_refresh-IsSound cfg sv fresh user.id _ s h }

  rehash-Keeps :
      (user : User sv.Hash) (password : String) (salt : ℕ)
      → Keeps (IsSound cfg sv now) (rehash cfg sv user password salt)
  unfolding rehash
  rehash-Keeps user password salt = record {
    at = λ s h. elim (Bool-cases (sv.needs_rehash user.password_hash)) [
      | inl old ↦ rw old (users-IsSound _ s h)
      | inr new ↦ rw new h
    ];
  }

  email-IsOther : (email : String) → IsOther sv (rl_email email)
  email-IsOther email u = ground (arith, (sv.counters.same_iff (rl_email email) (pwv u)).0)

  ip-IsOther : (ip : String) → IsOther sv (rl_ip ip)
  ip-IsOther ip u = ground (arith, (sv.counters.same_iff (rl_ip ip) (pwv u)).0)

  limit-Keeps :
      (key : CounterKey)
      → IsOther sv key
      → Keeps (IsSound cfg sv now) (check_rate_limit cfg sv key now)
  unfolding check_rate_limit
  limit-Keeps key apart = record {
    at = λ s h.
        let (count, counted) = sv.counters.incr key now s.counters in
        let c =
          sv.counters.expire_nx key cfg.password_reset_rate_limit_window_seconds now counted in
        let refused = ltb cfg.password_reset_rate_limit_max count in
        let keep : Keeps (IsSound cfg sv now) (raise_if refused too_many_requests) =
          Keeps-raise_if refused too_many_requests in
        keep.at (record s { counters = c }) (limit-IsSound cfg sv key s apart h);
  }

  ip-Keeps : (ip : Option String) → Keeps (IsSound cfg sv now) (check_ip cfg sv ip now)
  unfolding check_ip
  ip-Keeps none = Keeps-pure tt
  ip-Keeps (some ip) =
      Keeps-if (str_eq ip "") _ _ (Keeps-pure tt) (limit-Keeps (rl_ip ip) (ip-IsOther ip))

  send-Keeps :
      (user : Option (User sv.Hash)) (fresh : String)
      → Keeps (IsSound cfg sv now) (send_reset cfg sv user fresh now)
  unfolding send_reset
  send-Keeps none fresh = Keeps-pure tt
  send-Keeps (some user) fresh =
      Keeps-bind _ _ (Keeps-modify _ (λ s h. set_reset-IsSound cfg sv _ _ _ s h))
        (λ _. Keeps-modify _ (λ s h. outbox-IsSound _ s h))

  password-Keeps :
      (user : User sv.Hash) (password : String) (salt : ℕ)
      → Keeps (IsSound cfg sv now) (modify (set_password cfg sv user password salt))
  password-Keeps user password salt = Keeps-modify _ (λ s h. users-IsSound _ s h)

  ruleset parts = (
    keeps_rules, take-Keeps, bump-Keeps, issue-Keeps, rehash-Keeps, limit-Keeps, ip-Keeps,
    send-Keeps, password-Keeps, email-IsOther,
  )

  pub register-Keeps :
      (email password : String) (full_name locale : Option String) (new_id salt : ℕ)
      (fresh : String)
      → Keeps
          (IsSound cfg sv now)
          (register cfg sv email password full_name locale new_id salt fresh now)
  unfolding register
  register-Keeps email password full_name locale new_id salt fresh =
      Keeps-bind _ _ (Keeps-gets _) (λ _. Keeps-bind _ _ (Keeps-raise_if _ _) (λ _.
        Keeps-bind _ _ (Keeps-modify _ (λ s h. users-IsSound _ s h)) (λ _. issue-Keeps _ fresh)))

  pub login-Keeps :
      (email password : String) (salt : ℕ) (fresh : String)
      → Keeps (IsSound cfg sv now) (login cfg sv email password salt fresh now)
  unfolding login
  login-Keeps email password salt fresh = search parts depth 12

  pub refresh-Keeps :
      (token fresh : String) → Keeps (IsSound cfg sv now) (refresh cfg sv token fresh now)
  unfolding refresh
  refresh-Keeps token fresh = search parts depth 16

  pub logout-Keeps : (token : String) → Keeps (IsSound cfg sv now) (logout cfg sv token)
  unfolding logout
  logout-Keeps token = Keeps-modify _ (λ s h. delete-IsSound cfg sv (rt token) s h)

  pub change_password-Keeps :
      (user : User sv.Hash) (current new : String) (salt : ℕ)
      → Keeps (IsSound cfg sv now) (change_password cfg sv user current new salt now)
  unfolding change_password
  change_password-Keeps user current new salt = search parts depth 12

  pub request-Keeps :
      (email : String) (ip : Option String) (fresh : String)
      → Keeps (IsSound cfg sv now) (request_password_reset cfg sv email ip fresh now)
  unfolding request_password_reset
  request-Keeps email ip fresh = search parts depth 12

  pub reset-Keeps :
      (token new : String) (salt : ℕ)
      → Keeps (IsSound cfg sv now) (reset_password cfg sv token new salt now)
  unfolding reset_password
  reset-Keeps token new salt = search parts depth 16
