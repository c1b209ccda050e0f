-- ===== src/Brokers/RateLimiter.antt =====
-- `class GlobalRateLimiter` of backend/app/brokers/rate_limiter.py: a sliding window over a sorted
-- set. Times are in milliseconds; the window is given in microseconds and cut to milliseconds, so one
-- below a millisecond counts as none.
pub mod Window
pub mod Overlap
use nivara.Prelude.{
  ℕ, ◌+◌, ◌-◌, ◌*◌, ◌/◌, Bool, true, false, Option, none, some, List, [], ◌∷◌, ltb, leb, ◌==◌,
  if◌then◌else◌,
}
use nivara.Redis.Ranks.{Ranks}

pub record Limiter : Type 0 where
  pub max_requests : ℕ
  pub window_ms : ℕ
  pub max_wait_ms : ℕ
  pub expire_s : ℕ

abbrev pub max : ℕ → ℕ → ℕ
max a b = if ltb a b then b else a

-- `__init__`; `none` is its `ValueError`. A negative wait is not a number here.
unfoldable pub limiter : ℕ → ℕ → ℕ → Option Limiter
limiter max_requests window_us max_wait_ms =
    if ltb max_requests 1
    then none
    else if window_us == 0
    then none
    else some (record {
      max_requests = max_requests;
      window_ms = window_us / 1000;
      max_wait_ms = max_wait_ms;
      expire_s = max (window_us * 2 / 1000000 + 1) 2;
    })

-- How one round of the loop ends.
pub data Turn : Type 0 where
  admitted retry : Turn
  sleep_ms : ℕ → Turn

pub data Acquired : Type 0 where
  acquired rate_limited still_waiting : Acquired

module _ {M : Type 0} (redis : Ranks M) (lim : Limiter) where
  -- Trims the window and counts it.
  unfoldable pub probe : ℕ → redis.Store → ℕ × redis.Store
  probe now s = let s' = redis.trim lim.window_ms now s in (redis.zcard now s', s')

  unfoldable pub admit : M → ℕ → redis.Store → redis.Store
  admit member now s = redis.expire lim.expire_s now (redis.zadd member now s)

  abbrev pub until_oldest : ℕ → Option (M × ℕ) → Turn
  until_oldest now none = retry
  until_oldest now (some (m, oldest)) = sleep_ms (max (oldest + lim.window_ms - now) 5)

  -- One round of `acquire`.
  unfoldable pub attempt : M → ℕ → redis.Store → Turn × redis.Store
  unfolding probe admit
  attempt member now s =
      let (count, s') = probe now s in
      if ltb count lim.max_requests
      then (admitted, admit member now s')
      else (until_oldest now (redis.zrange_first now s'), s')

  -- The rounds of one `acquire`, each with its new member, the clock's time and the time that has
  -- elapsed since the start; `still_waiting` where the rounds run out.
  unfoldable pub acquire : List (M × ℕ × ℕ) → redis.Store → Acquired × redis.Store
  unfolding attempt
  acquire [] s = (still_waiting, s)
  acquire ((member, now, elapsed) ∷ rounds) s =
      let (turn, s') = attempt member now s in
      let rest = acquire rounds s' in
      elim turn [
        | admitted ↦ (acquired, s')
        | retry ↦ rest
        | sleep_ms wait ↦ if ltb lim.max_wait_ms (elapsed + wait) then (rate_limited, s') else rest
      ]

  abbrev pub is_admitted : Turn → Bool
  is_admitted admitted = true
  is_admitted _ = false

  -- Rounds of any workers, one after another; the times of the admissions, the last one first.
  unfoldable pub admissions : List (M × ℕ) → List ℕ → redis.Store → List ℕ × redis.Store
  unfolding attempt
  admissions [] past s = (past, s)
  admissions ((member, now) ∷ rounds) past s =
      let (turn, s') = attempt member now s in
      admissions rounds (if is_admitted turn then now ∷ past else past) s'
