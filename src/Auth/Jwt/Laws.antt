-- ===== src/Auth/Jwt/Laws.antt =====
-- Access tokens from their creation to their use.
use nivara.Prelude.{ℕ, ◌+◌, ◌*◌, ◌<◌, String, ◌≡◌, some, arith, List, if◌then◌else◌}
use nivara.Http.{ok, err}
use nivara.Auth.Users.{User, get_user}
use nivara.Auth.Config.{Settings, Services}
use nivara.Auth.Jwt.{
  access_claims, create_access_token, decode_access_token, user_of_token, get_current_user,
  not_authenticated,
}

module _ (cfg : Settings) (sv : Services) where
  -- The token that `create_access_token` signs at `now` is resolved by `get_current_user` to its user
  -- until `access_token_expires_minutes` have passed; for a user that was deactivated meanwhile it is
  -- refused.
  pub current_user-create :
      (user : User sv.Hash) (tier currency : String) (now t : ℕ) (users : List (User sv.Hash))
      → get_user user.id users ≡ some user
      → t < now + cfg.access_token_expires_minutes * 60
      → get_current_user cfg sv
          (some (create_access_token cfg sv user.id tier currency now))
          t
          users
        ≡ (if user.is_active then ok user else err (not_authenticated cfg sv))
  unfolding get_current_user create_access_token access_claims decode_access_token user_of_token
  current_user-create user tier currency now t users row young =
      let c = access_claims cfg sv user.id tier currency now in
      ground (arith, row, sv.encode_nonempty c, sv.decode-encode c t young)
