-- ===== src/Auth/Examples/Sessions.antt =====
-- Tests of tokens, credentials and the password-reset limit.
use nivara.Prelude.{◌≡◌, refl, Option, none, some, [], ◌∷◌, arith}
use nivara.Http.{ok, err, ◌>>=◌}
use nivara.Auth.Users.{get_user, find_email}
use nivara.Auth.Config.{Claims, rt, pwreset, refresh_payload, reset_payload}
use nivara.Auth.Jwt.{access_claims, create_access_token}
use nivara.Auth.Service.{
  TokenPair, issue_tokens, rehash, register, login, refresh, change_password,
  request_password_reset, reset_password, send_reset, check_ip, check_rate_limit, bump_pw_version,
  get_pw_version, decode_reset, invalid_refresh, password_changed, invalid_credentials,
}
use nivara.Auth.Service.Versions.{IsSound, IsSound-later}
use nivara.Auth.Service.Calls.{logging_in, requesting, serve, idle, call, Served-IsSound}
use nivara.Auth.Service.Sessions.{refresh_once, change_password_revokes}
use nivara.Auth.Examples.{services, settings, alice, start, start-IsSound, logged_in}

at_150 : IsSound settings services 150 logged_in
at_150 = IsSound-later settings services {now = 110} {later = 150} {s = logged_in} (omega arith) (
    Served-IsSound settings services start-IsSound (
      call (requesting "Alice" none "mail") 110
        (call (logging_in "Alice" "old" 5 "tok") 100 idle (omega arith)) (omega arith)))

token_stored : services.tokens.get (rt "tok") 200 logged_in.tokens ≡ some (refresh_payload 3 0)
unfolding serve login rehash issue_tokens get_pw_version find_email request_password_reset
    check_rate_limit check_ip send_reset create_access_token ◌>>=◌
token_stored = refl

mail_stored : services.tokens.get (pwreset "mail") 150 logged_in.tokens ≡ some (reset_payload 3)
unfolding serve login rehash issue_tokens get_pw_version find_email request_password_reset
    check_rate_limit check_ip send_reset create_access_token ◌>>=◌
mail_stored = refl

own_row : get_user 3 (alice ∷ []) ≡ some alice
unfolding get_user
own_row = refl

changes : (change_password settings services alice "old" "new" 6 150 logged_in).0 ≡ ok tt
unfolding change_password bump_pw_version ◌>>=◌
changes = refl

resets : (reset_password settings services "mail" "new" 6 150 logged_in).0 ≡ ok tt
unfolding reset_password decode_reset get_user bump_pw_version serve login rehash issue_tokens
    get_pw_version find_email request_password_reset check_rate_limit check_ip send_reset
    create_access_token ◌>>=◌
resets = refl

alice_row : get_user 3 logged_in.users ≡ some alice
unfolding get_user serve login rehash issue_tokens get_pw_version find_email request_password_reset
    check_rate_limit check_ip send_reset create_access_token ◌>>=◌
alice_row = refl

alice_email : find_email "alice" logged_in.users ≡ some alice
unfolding serve login rehash issue_tokens get_pw_version find_email request_password_reset
    check_rate_limit check_ip send_reset create_access_token ◌>>=◌
alice_email = refl

wrong_password :
    (login settings services "Alice" "guess" 5 "tok" 100 start).0 ≡ err invalid_credentials
unfolding login find_email ◌>>=◌
wrong_password = refl

-- What Bob's registration answers.
abbrev bob : TokenPair (Option Claims)
bob = record {
  access_token = some (record {
    user_id = 4;
    tier = "free";
    base_currency = "INR";
    kid = "1";
    iss = "nivara";
    aud = "api";
    iat = 100;
    exp = 1000;
  });
  refresh_token = "t1";
  expires_in = 900;
}

bob_registers : (register settings services "bob" "pw" none none 4 5 "t1" 100 start).0 ≡ ok bob
unfolding register find_email issue_tokens create_access_token access_claims ◌>>=◌
bob_registers = refl

change_password_revokes_example :
    (refresh settings services "tok" "t2" 200
      (change_password settings services alice "old" "new" 6 150 logged_in).1).0
    ≡ err password_changed
change_password_revokes_example =
    change_password_revokes settings services alice "old" "new" "tok" "t2" 6 0 150 200 logged_in
      at_150 changes (omega arith) token_stored

refresh_once_example :
    (refresh settings services "tok" "t3" 200
      (refresh settings services "tok" "t2" 150 logged_in).1).0
    ≡ err invalid_refresh
refresh_once_example =
    refresh_once settings services "tok" "t2" "t3" 150 200 logged_in (omega arith) refl
