-- ===== src/Scheduler/Cadence.antt =====
-- Which tasks a tick plans for a market.
use nivara.Prelude.{
  ℕ, ◌+◌, ◌≤◌, ◌%◌, String, ◌≡◌, Bool, false, ◌&&◌, ◌||◌, none, some, List, [], ◌∷◌, arith, ltb,
  leb, ◌==◌, str_eq,
}
use nivara.Calendar.Service.{SessionHours}
use nivara.Calendar.Service.Hours.{within_hours}
use nivara.Scheduler.Plan.{snapshot, state_at, DispatchPlan, market_plans, minute, minute_floor}

-- Whether a plan runs this task.
abbrev pub runs : String → List DispatchPlan → Bool
runs name [] = false
runs name (p ∷ ps) = str_eq p.task_name name || runs name ps

-- The minute that starts at the close.
abbrev pub in_closing_minute : SessionHours → ℕ → Bool
in_closing_minute h now = elim h.open_utc [
  | none ↦ false
  | some o ↦ elim h.close_utc [
    | none ↦ false
    | some c ↦ h.is_open && (leb o now && (leb c now && ltb now (c + 60)))
  ]
]

-- A tick plans the indicator recalculation exactly in the session's minutes that are multiples of
-- five, the portfolio sync exactly in its full hours, and the post-close batch exactly in the
-- minute from the close on.
pub runs-market_plans :
    (mic : String) (now : ℕ) (h : SessionHours)
    → let plans = market_plans mic now (snapshot mic now h) in
      (runs "tasks.in_session.recalc_indicators" plans
        ≡ (within_hours h now && (minute now % 5 == 0)))
      × (runs "tasks.in_session.sync_portfolios" plans ≡ (within_hours h now && (minute now == 0)))
      × (runs "tasks.post_close.run_post_close_batch" plans ≡ in_closing_minute h now)
unfolding market_plans snapshot state_at
runs-market_plans mic now h = (ground arith, ground arith, ground arith)

-- A session whose close lies in an earlier minute than the tick gets no post-close batch, whatever
-- was dispatched before: a tick that misses the closing minute loses the batch of that session.
pub late_tick_misses :
    (mic : String) (now c : ℕ) (h : SessionHours)
    → h.close_utc ≡ some c
    → c + 60 ≤ minute_floor now
    → market_plans mic (minute_floor now) (snapshot mic (minute_floor now) h) ≡ []
unfolding market_plans snapshot state_at minute_floor
late_tick_misses mic now c h close late = ground (arith, close, late)
