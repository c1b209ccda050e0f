-- ===== src/Auth/Service/Sessions.antt =====
-- Refresh tokens across refreshes and changes of the password.
use nivara.Prelude.{ℕ, ◌≤◌, ◌<◌, String, ◌≡◌, false, none, some, inl, inr, arith, Option-cases}
use nivara.Http.{ok, err, ◌>>=◌}
use nivara.Auth.Users.{User, get_user, active_user, active_user_id}
use nivara.Auth.Config.{Settings, Services, Payload, rt, pwreset, refresh_payload, pwv}
use nivara.Auth.Service.{
  State, issue_tokens, refresh, change_password, reset_password, get_pw_version, invalid_refresh,
  password_changed,
}
use nivara.Auth.Service.Versions.{IsSound, amount-bump, entry-bump}

module _ (cfg : Settings) (sv : Services) where
  open sv use {tokens}

  -- New tokens are stored under their own key.
  get-issue_tokens :
      (user : User sv.Hash) (fresh token : String) (now t : ℕ) (s : State cfg sv)
      → now ≤ t
      → tokens.same (rt fresh) (rt token) ≡ false
      → tokens.get (rt token) t (issue_tokens cfg sv user fresh now s).1.tokens
        ≡ tokens.get (rt token) t s.tokens
  unfolding issue_tokens ◌>>=◌
  get-issue_tokens user fresh token now t s le apart =
      rw (tokens.get-set (rt fresh) (rt token) _ _ now t s.tokens le, apart)

  token_spent :
      (token fresh : String) (now t : ℕ) (s : State cfg sv)
      → now ≤ t
      → tokens.same (rt fresh) (rt token) ≡ false
      → tokens.get (rt token) t (refresh cfg sv token fresh now s).1.tokens ≡ none
  unfolding refresh ◌>>=◌
  token_spent token fresh now t s le apart = grind (
    arith,
    tokens.getdel_lem (rt token) now s.tokens,
    tokens.get-delete (rt token) (rt token) t s.tokens,
    tokens.same_iff (rt token) (rt token),
    get-issue_tokens,
  )

  refresh_missing :
      (token fresh : String) (now : ℕ) (s : State cfg sv)
      → tokens.get (rt token) now s.tokens ≡ none
      → (refresh cfg sv token fresh now s).0 ≡ err invalid_refresh
  unfolding refresh ◌>>=◌
  refresh_missing token fresh now s h = ground (arith, h, tokens.getdel_lem (rt token) now s.tokens)

  -- A refresh token works once: whatever the first `refresh` answers, a later one with the same token
  -- is refused, unless the first drew that very token anew.
  pub refresh_once :
      (token fresh again : String) (now t : ℕ) (s : State cfg sv)
      → now ≤ t
      → tokens.same (rt fresh) (rt token) ≡ false
      → (refresh cfg sv token again t (refresh cfg sv token fresh now s).1).0 ≡ err invalid_refresh
  refresh_once token fresh again now t s le apart =
      refresh_missing token again t _ (token_spent token fresh now t s le apart)

  -- A stored token of an older version is refused.
  refresh_outdated :
      (token fresh : String) (u v now : ℕ) (s : State cfg sv)
      → tokens.get (rt token) now s.tokens ≡ some (refresh_payload u v)
      → v < get_pw_version cfg sv u now s
      → (refresh cfg sv token fresh now s).0 ≡ err password_changed
  unfolding refresh ◌>>=◌
  refresh_outdated token fresh u v now s stored older =
      ground (arith, stored, older, tokens.getdel_lem (rt token) now s.tokens)

  -- A change of the password bumps one counter and leaves the tokens alone.
  changed :
      (user : User sv.Hash) (current new : String) (salt now : ℕ) (s : State cfg sv)
      → (change_password cfg sv user current new salt now s).0 ≡ ok tt
      → let s' = (change_password cfg sv user current new salt now s).1 in
        (s'.tokens ≡ s.tokens) × (s'.counters ≡ (sv.counters.incr (pwv user.id) now s.counters).1)
  unfolding change_password ◌>>=◌
  changed user current new salt now s h = (ground arith, ground arith)

  -- The version that a bump leaves is above that of every stored token of the user.
  bumped :
      (u v now t : ℕ) (token : String) (s s' : State cfg sv)
      → IsSound cfg sv now s
      → now ≤ t
      → tokens.get (rt token) t s.tokens ≡ some (refresh_payload u v)
      → s'.counters ≡ (sv.counters.incr (pwv u) now s.counters).1
      → v < get_pw_version cfg sv u t s'
  unfolding get_pw_version
  bumped u v now t token s s' sound le stored same = ground (
    arith,
    sound.bounded token u v t le stored,
    same,
    entry-bump cfg sv u u t s sound,
    (sv.counters.same_iff (pwv u) (pwv u)).1 (λ i. pwv u),
    amount-bump (sv.counters.entry (pwv u) 0 s.counters),
  )

  -- In a sound state, a successful change of the password revokes every refresh token of the user
  -- that was stored before: `refresh` refuses it at any later time.
  pub change_password_revokes :
      (user : User sv.Hash) (current new token fresh : String) (salt v now t : ℕ) (s : State cfg sv)
      → IsSound cfg sv now s
      → (change_password cfg sv user current new salt now s).0 ≡ ok tt
      → now ≤ t
      → tokens.get (rt token) t s.tokens ≡ some (refresh_payload user.id v)
      → (refresh cfg sv token fresh t (change_password cfg sv user current new salt now s).1).0
        ≡ err password_changed
  change_password_revokes user current new token fresh salt v now t s sound done le stored =
      let s' = (change_password cfg sv user current new salt now s).1 in
      let c = changed user current new salt now s done in
      refresh_outdated token fresh user.id v t s' (rw c.0 stored)
        (bumped user.id v now t token s s' sound le stored c.1)

  -- What a successful reset wrote, for the user of the reset token.
  reset_lem :
      (reset new : String) (u salt now : ℕ) (s : State cfg sv)
      → tokens.get (pwreset (sv.sha256_hex reset)) now s.tokens ≡ some (Payload.reset_payload u)
      → (reset_password cfg sv reset new salt now s).0 ≡ ok tt
      → let s' = (reset_password cfg sv reset new salt now s).1 in
        (s'.tokens ≡ tokens.delete (pwreset (sv.sha256_hex reset)) s.tokens)
        × (s'.counters ≡ (sv.counters.incr (pwv u) now s.counters).1)
  unfolding reset_password ◌>>=◌
  reset_lem reset new u salt now s stored done =
      let raw = tokens.getdel_lem (pwreset (sv.sha256_hex reset)) now s.tokens in
      elim (Option-cases (active_user (get_user u s.users))) [
        | inl gone ↦ (ground (arith, stored, raw, gone), ground (arith, stored, raw, gone))
        | inr (user, found) ↦
            let id = (active_user_id u user s.users found).1 in
            (ground (arith, stored, raw, found), ground (arith, stored, raw, found, id))
      ]

  -- In a sound state, a successful reset of the password by a stored reset token revokes every
  -- refresh token of its user that was stored before: `refresh` refuses it at any later time.
  pub reset_password_revokes :
      (reset new token fresh : String) (u salt v now t : ℕ) (s : State cfg sv)
      → IsSound cfg sv now s
      → tokens.get (pwreset (sv.sha256_hex reset)) now s.tokens ≡ some (Payload.reset_payload u)
      → (reset_password cfg sv reset new salt now s).0 ≡ ok tt
      → now ≤ t
      → tokens.get (rt token) t s.tokens ≡ some (refresh_payload u v)
      → (refresh cfg sv token fresh t (reset_password cfg sv reset new salt now s).1).0
        ≡ err password_changed
  reset_password_revokes reset new token fresh u salt v now t s sound mailed done le stored =
      let key = pwreset (sv.sha256_hex reset) in
      let s' = (reset_password cfg sv reset new salt now s).1 in
      let c = reset_lem reset new u salt now s mailed done in
      let apart = tokens.same_iff key (rt token) in
      refresh_outdated token fresh u v t s'
        (rw c.0 (ground (arith, stored, tokens.get-delete key (rt token) t s.tokens, apart.0)))
        (bumped u v now t token s s' sound le stored c.1)
