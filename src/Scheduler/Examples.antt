-- ===== src/Scheduler/Examples.antt =====
-- Tests of the scheduler, on a Redis in memory.
use nivara.Prelude.{
  ℕ, ◌+◌, ◌≤◌, String, ◌≡◌, refl, Bool, true, false, ◌&&◌, none, some, List, [], ◌∷◌, ◌==◌, str_eq,
  eq_iff, arith,
}
use nivara.Redis.Values
use nivara.Redis.Values.{Values}
use nivara.Calendar.Examples.{six_days}
use nivara.Calendar.Service.{value, SessionHours, library, normalize_exchange}
use nivara.Scheduler.Plan.{
  DedupeKey, recalc_key, sync_key, post_close_key, DispatchPlan, plan_post_close, snapshot,
  market_plans, minute_floor,
}
use nivara.Scheduler.Cadence.{late_tick_misses}
use nivara.Scheduler.Dispatch.{count}
use nivara.Scheduler.Runs.{ticks, AllLasting, InOrder, ticks_exactly_once}

abbrev same_key : DedupeKey → DedupeKey → Bool
same_key (recalc_key m t) (recalc_key n u) = str_eq m n && t == u
same_key (sync_key m t) (sync_key n u) = str_eq m n && t == u
same_key (post_close_key m t) (post_close_key n u) = str_eq m n && t == u
same_key _ _ = false

same_key_iff : (k j : DedupeKey) → (same_key k j ≡ true → k ≡ j) × (k ≡ j → same_key k j ≡ true)
same_key_iff (recalc_key m t) (recalc_key n u) =
    (ground (arith, eq_iff m n), ground (arith, eq_iff m n))
same_key_iff (sync_key m t) (sync_key n u) =
    (ground (arith, eq_iff m n), ground (arith, eq_iff m n))
same_key_iff (post_close_key m t) (post_close_key n u) =
    (ground (arith, eq_iff m n), ground (arith, eq_iff m n))
same_key_iff (recalc_key m t) (sync_key n u) = (ground arith, ground arith)
same_key_iff (recalc_key m t) (post_close_key n u) = (ground arith, ground arith)
same_key_iff (sync_key m t) (recalc_key n u) = (ground arith, ground arith)
same_key_iff (sync_key m t) (post_close_key n u) = (ground arith, ground arith)
same_key_iff (post_close_key m t) (recalc_key n u) = (ground arith, ground arith)
same_key_iff (post_close_key m t) (sync_key n u) = (ground arith, ground arith)

abbrev redis : Values DedupeKey String
redis = Values.memory String same_key same_key_iff

-- Two ticks a minute apart that both plan the post-close batch of the eighth day.
abbrev batch : List DispatchPlan
batch = plan_post_close "XNYS" 8 false ∷ []

abbrev two_ticks : List (ℕ × List DispatchPlan)
two_ticks = (766800, batch) ∷ (766860, batch) ∷ []

long : AllLasting redis 172800 two_ticks
long = ((omega arith, tt), ((omega arith, tt), tt))

order : InOrder redis 766800 766900 two_ticks
order = (omega arith, (omega arith, (omega arith, (omega arith, tt))))

ticks_exactly_once_example :
    count redis (post_close_key "XNYS" 8) (ticks redis two_ticks (some (λ k. none))) ≡ 1
ticks_exactly_once_example =
    ticks_exactly_once redis (post_close_key "XNYS" 8) batch ((766860, batch) ∷ []) 172800 766800
      766900 (λ k. none) long order (omega arith) refl (omega arith)

xnys : normalize_exchange six_days "XNYS" ≡ value "XNYS"
unfolding normalize_exchange
xnys = refl

late : 766800 + 60 ≤ minute_floor 766870
unfolding minute_floor
late = omega arith

abbrev eighth : SessionHours
eighth = record {
  exchange = "XNYS";
  session_date = 8;
  is_open = true;
  open_utc = some 743400;
  close_utc = some 766800;
  is_half_day = false;
  source = library;
}

late_tick_misses_example :
    market_plans "XNYS" (minute_floor 766870) (snapshot "XNYS" (minute_floor 766870) eighth) ≡ []
late_tick_misses_example = late_tick_misses "XNYS" 766870 766800 eighth refl late
