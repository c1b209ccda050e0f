-- ===== src/Auth/Service/Limits.antt =====
-- The fixed window of the password-reset rate limit.
use nivara.Prelude.{
  ℕ, suc, ◌+◌, ◌<◌, ◌≡◌, none, some, List, [], ◌∷◌, arith, ltb, refl, if◌then◌else◌,
}
use nivara.Http.{Result, ok, err, ◌>>=◌}
use nivara.Auth.Config.{Settings, Services, CounterKey}
use nivara.Auth.Service.{State, check_rate_limit, too_many_requests}

module _ (cfg : Settings) (sv : Services) (key : CounterKey) where
  open sv.counters use {entry, incr, expire_nx, entry-incr, entry-expire_nx, value-incr, same_iff}

  abbrev window : ℕ
  window = cfg.password_reset_rate_limit_window_seconds

  -- The answer to the request that makes the count `n`.
  abbrev pub answer : ℕ → Result Unit
  answer n = if ltb cfg.password_reset_rate_limit_max n then err too_many_requests else ok tt

  -- Requests at the given times.
  unfoldable pub hits : List ℕ → State cfg sv → List (Result Unit) × State cfg sv
  hits [] s = ([], s)
  hits (now ∷ later) s =
      let (r, s') = check_rate_limit cfg sv key now s in
      let (rs, s'') = hits later s' in (r ∷ rs, s'')

  -- The answers to requests numbered from `suc n` on.
  unfoldable pub answers : ℕ → List ℕ → List (Result Unit)
  answers n [] = []
  answers n (now ∷ later) = answer (suc n) ∷ answers (suc n) later

  -- All times lie before a deadline.
  abbrev pub Before : ℕ → List ℕ → Type 0
  Before deadline [] = Unit
  Before deadline (t ∷ ts) = (t < deadline) × Before deadline ts

  -- One request in a running window counts once and keeps the deadline.
  check_running :
      (n deadline now t : ℕ) (s : State cfg sv)
      → entry key now s.counters ≡ some (n, some deadline)
      → now < deadline
      → t < deadline
      → let (r, s') = check_rate_limit cfg sv key now s in
        (r ≡ answer (suc n)) × (entry key t s'.counters ≡ some (suc n, some deadline))
  unfolding check_rate_limit ◌>>=◌
  check_running n deadline now t s held p q =
      let counted = (incr key now s.counters).1 in
      let self = (same_iff key key).1 refl in
      let facts = value-incr key now s.counters in
      (
        ground (arith, held, facts),
        ground (
          arith,
          held,
          self,
          entry-incr key key now now s.counters,
          entry-expire_nx key key window now t counted,
        ),
      )

  hits_running :
      (n deadline : ℕ) (times : List ℕ) (s : State cfg sv)
      → ((t : ℕ) → t < deadline → entry key t s.counters ≡ some (n, some deadline))
      → Before deadline times
      → (hits times s).0 ≡ answers n times
  unfolding hits answers
  hits_running n deadline [] s held h = refl
  hits_running n deadline (now ∷ later) s held h =
      let s' = (check_rate_limit cfg sv key now s).1 in
      let first = (check_running n deadline now now s (held now h.0) h.0 h.0).0 in
      let rest =
        hits_running (suc n) deadline later s'
          (λ t q. (check_running n deadline now t s (held now h.0) h.0 q).1) h.1 in
      cc (first, rest)

  check_first :
      (now t : ℕ) (s : State cfg sv)
      → entry key now s.counters ≡ none
      → let (r, s') = check_rate_limit cfg sv key now s in
        (r ≡ answer 1)
        × (t < now + window → entry key t s'.counters ≡ some (1, some (now + window)))
  unfolding check_rate_limit ◌>>=◌
  check_first now t s empty =
      let counted = (incr key now s.counters).1 in
      let self = (same_iff key key).1 refl in
      (
        ground (arith, empty, value-incr key now s.counters),
        ground (
          arith,
          empty,
          self,
          entry-incr key key now now s.counters,
          entry-expire_nx key key window now t counted,
        ),
      )

  -- From the first request on, a key's requests within the window are counted 1, 2, 3, and so on, and
  -- a request is answered 429 exactly when its number exceeds the maximum.
  pub hits-window :
      (start : ℕ) (later : List ℕ) (s : State cfg sv)
      → entry key start s.counters ≡ none
      → Before (start + window) later
      → (hits (start ∷ later) s).0 ≡ answers 0 (start ∷ later)
  unfolding hits answers
  hits-window start later s empty h =
      let s' = (check_rate_limit cfg sv key start s).1 in
      let rest =
        hits_running 1 (start + window) later s' (λ t. (check_first start t s empty).1) h in
      cc ((check_first start start s empty).0, rest)
