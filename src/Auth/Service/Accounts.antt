-- ===== src/Auth/Service/Accounts.antt =====
-- What a client sees of accounts: credentials after a registration or a reset, the one answer to
-- every wrong credential, and the silence about unknown emails.
use nivara.Prelude.{
  ℕ, String, ◌≡◌, refl, true, Option, none, some, List, [], ◌∷◌, ◌++◌, inl, inr, arith, Bool-cases,
  eq_refl,
}
use nivara.Http.{HttpError, Result, ok, err, ◌>>=◌}
use nivara.Auth.Users.{User, get_user, find_email, active_user, find_email-save_user}
use nivara.Auth.Config.{Settings, Services, Payload, pwreset}
use nivara.Auth.Service.{
  State, TokenPair, issue_tokens, rehash, register, login, request_password_reset, reset_password,
  check_rate_limit, check_ip, invalid_credentials, or_default,
}

module _ (cfg : Settings) (sv : Services) where
  -- The answer to a login or a registration.
  abbrev pub IsPair : String → Result (TokenPair sv.Jwt) → Type 0
  IsPair fresh (ok pair) = pair.refresh_token ≡ fresh
  IsPair fresh (err e) = ⊥

  issue-IsPair :
      (user : User sv.Hash) (fresh : String) (now : ℕ) (s : State cfg sv)
      → IsPair fresh (issue_tokens cfg sv user fresh now s).0
  unfolding issue_tokens ◌>>=◌
  issue-IsPair user fresh now s = refl

  -- An active user with the right password gets tokens.
  login-IsPair :
      (email password fresh : String) (salt now : ℕ) (user : User sv.Hash) (s : State cfg sv)
      → active_user (find_email (sv.lower email) s.users) ≡ some user
      → sv.verify user.password_hash password ≡ true
      → IsPair fresh (login cfg sv email password salt fresh now s).0
  unfolding login rehash ◌>>=◌
  login-IsPair email password fresh salt now user s found right =
      rw (found, right)
        (elim (Bool-cases (sv.needs_rehash user.password_hash)) [
          | inl old ↦ rw old (issue-IsPair _ fresh now _)
          | inr new ↦ rw new (issue-IsPair _ fresh now _)
        ])

  users-issue :
      (user : User sv.Hash) (fresh : String) (now : ℕ) (s : State cfg sv)
      → (issue_tokens cfg sv user fresh now s).1.users ≡ s.users
  unfolding issue_tokens ◌>>=◌
  users-issue user fresh now s = refl

  find_email-append :
      (email : String) (u : User sv.Hash) (us : List (User sv.Hash))
      → find_email email us ≡ none
      → u.email ≡ email
      → find_email email (us ++ u ∷ []) ≡ some u
  unfolding find_email
  find_email-append email u [] h e = rw (e, eq_refl email)
  find_email-append email u (w ∷ us) h e = ground (arith, find_email-append email u us)

  -- What a successful registration leaves in the table.
  register_user :
      (email password fresh : String) (name locale : Option String) (id salt now : ℕ)
      (s : State cfg sv) (pair : TokenPair sv.Jwt)
      → (register cfg sv email password name locale id salt fresh now s).0 ≡ ok pair
      → (user : User sv.Hash) × (active_user (
            find_email
              (sv.lower email)
              (register cfg sv email password name locale id salt fresh now s).1.users)
          ≡ some user)
        × (user.password_hash ≡ sv.hash password salt)
  unfolding register ◌>>=◌
  register_user email password fresh name locale id salt now s pair done =
      let email' = sv.lower email in
      let user : User sv.Hash = record {
        id = id;
        email = email';
        password_hash = sv.hash password salt;
        full_name = name;
        locale = or_default cfg sv locale;
        is_active = true;
      } in
      let added : State cfg sv = record s { users = s.users ++ user ∷ [] } in
      (
        user,
        ground
            (arith, done, find_email-append email' user s.users, users-issue user fresh now added),
        refl,
      )

  -- After a successful registration, logging in with the same email and password succeeds.
  pub login-register :
      (email password fresh again : String) (name locale : Option String) (id salt salt' now t : ℕ)
      (s : State cfg sv) (pair : TokenPair sv.Jwt)
      → (register cfg sv email password name locale id salt fresh now s).0 ≡ ok pair
      → IsPair again
          (login cfg sv email password salt' again t
            (register cfg sv email password name locale id salt fresh now s).1).0
  login-register email password fresh again name locale id salt salt' now t s pair done =
      let (user, found, hashed) =
        register_user email password fresh name locale id salt now s pair done in
      login-IsPair email password again salt' t user _ found
        (rw hashed (sv.verify-hash password salt))

  -- Every failed login gives the same answer, for an unknown email, an inactive account and a wrong
  -- password alike, and changes nothing.
  pub login_uniform :
      (email password fresh : String) (salt now : ℕ) (s : State cfg sv) (e : HttpError)
      → (login cfg sv email password salt fresh now s).0 ≡ err e
      → login cfg sv email password salt fresh now s ≡ (err invalid_credentials, s)
  unfolding login ◌>>=◌ rehash issue_tokens
  login_uniform email password fresh salt now s e failed = ground arith

  -- The answer to a request for a password reset does not depend on the users table.
  pub request_blind :
      (email fresh : String) (ip : Option String) (now : ℕ) (s : State cfg sv)
      (others : List (User sv.Hash))
      → (request_password_reset cfg sv email ip fresh now s).0
        ≡ (request_password_reset cfg sv email ip fresh now (record s { users = others })).0
  unfolding request_password_reset check_rate_limit check_ip ◌>>=◌
  request_blind email fresh ip now s others = ground arith

  -- A reset token that is still stored lets its active user set a password, and the login with that
  -- password succeeds.
  pub login-reset_password :
      (email token new again : String) (salt salt' now t : ℕ) (user : User sv.Hash)
      (s : State cfg sv)
      → sv.tokens.get (pwreset (sv.sha256_hex token)) now s.tokens
        ≡ some (Payload.reset_payload user.id)
      → get_user user.id s.users ≡ some user
      → find_email (sv.lower email) s.users ≡ some user
      → user.is_active ≡ true
      → let (r, s') = reset_password cfg sv token new salt now s in
        (r ≡ ok tt) × IsPair again (login cfg sv email new salt' again t s').0
  unfolding reset_password ◌>>=◌
  login-reset_password email token new again salt salt' now t user s stored own found active =
      let raw = sv.tokens.getdel_lem (pwreset (sv.sha256_hex token)) now s.tokens in
      let user' : User sv.Hash = record user { password_hash = sv.hash new salt } in
      let saved = find_email-save_user user user' (sv.lower email) s.users found own refl refl in
      (
        ground (arith, raw, stored, own, active),
        login-IsPair email new again salt' t user' _
            (ground (arith, raw, stored, own, active, saved)) (sv.verify-hash new salt),
      )
