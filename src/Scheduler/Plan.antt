-- ===== src/Scheduler/Plan.antt =====
-- The market states, the plan of a tick, and its dispatch. Times are seconds, so the minute of an
-- hour is `now / 60 % 60` and `_minute_floor` drops `now % 60`.
use nivara.Prelude.{
  ℕ, ◌+◌, ◌-◌, ◌*◌, ◌/◌, ◌%◌, String, Bool, true, false, ◌&&◌, Option, none, some, List, [], ◌∷◌,
  ◌++◌, ltb, leb, ◌==◌, length, if◌then◌else◌,
}
use nivara.Redis.Values.{Values}
use nivara.Calendar.Library.{Library}
use nivara.Calendar.Service.{
  Outcome, value, ◌>>=◌, CalendarOverride, SessionHours, get_session_hours,
}

pub data MarketState : Type 0 where
  holiday shut open_now just_closed : MarketState

pub record MarketSnapshot : Type 0 where
  pub exchange : String
  pub now_utc : ℕ
  pub state : MarketState
  pub session_hours : SessionHours
  pub is_half_day : Bool

-- `sched:last_dispatch:recalc:{mic}:{stamp}`, the same for `sync`, and
-- `sched:post_close_done:{mic}:{date}`. The stamp is the minute.
pub data DedupeKey : Type 0 where
  recalc_key sync_key post_close_key : String → ℕ → DedupeKey

pub data Kwargs : Type 0 where
  for_exchange : String → Kwargs
  for_session : String → ℕ → Bool → Kwargs

-- `args` and `queue` keep their defaults in every plan.
pub record DispatchPlan : Type 0 where
  pub task_name : String
  pub kwargs : Kwargs
  pub dedupe_key : Option DedupeKey
  pub dedupe_ttl : ℕ

pub record SchedulerTick : Type 0 where
  pub now_utc : ℕ
  pub snapshots : List MarketSnapshot
  pub planned : List DispatchPlan

abbrev pub indicator_recalc_every_minutes : ℕ
indicator_recalc_every_minutes = 5

abbrev pub portfolio_sync_every_minutes : ℕ
portfolio_sync_every_minutes = 60

abbrev pub dedupe_ttl_default : ℕ
dedupe_ttl_default = 7 * 24 * 60 * 60

abbrev pub post_close_ttl : ℕ
post_close_ttl = 48 * 60 * 60

unfoldable pub minute_floor : ℕ → ℕ
minute_floor ts = ts - ts % 60

abbrev pub minute : ℕ → ℕ
minute ts = ts / 60 % 60

-- The state between an open and a close.
unfoldable pub state_at : ℕ → ℕ → ℕ → MarketState
state_at opening closing now =
    if ltb now opening
    then shut
    else if leb opening now && ltb now closing
    then open_now
    else if leb closing now && ltb now (closing + 60)
    then just_closed
    else shut

-- `not hours.is_open or hours.open_utc is None or hours.close_utc is None`
unfoldable pub snapshot : String → ℕ → SessionHours → MarketSnapshot
unfolding state_at
snapshot exchange now hours =
    let off : MarketSnapshot = record {
      exchange = exchange;
      now_utc = now;
      state = holiday;
      session_hours = hours;
      is_half_day = false;
    } in
    if hours.is_open
    then elim hours.open_utc [
      | none ↦ off
      | some o ↦ elim hours.close_utc [
        | none ↦ off
        | some c ↦ record {
          exchange = exchange;
          now_utc = now;
          state = state_at o c now;
          session_hours = hours;
          is_half_day = hours.is_half_day;
        }
      ]
    ]
    else off

abbrev pub plan_recalc : String → ℕ → DispatchPlan
plan_recalc mic now = record {
  task_name = "tasks.in_session.recalc_indicators";
  kwargs = for_exchange mic;
  dedupe_key = some (recalc_key mic (now / 60));
  dedupe_ttl = dedupe_ttl_default;
}

abbrev pub plan_sync : String → ℕ → DispatchPlan
plan_sync mic now = record {
  task_name = "tasks.in_session.sync_portfolios";
  kwargs = for_exchange mic;
  dedupe_key = some (sync_key mic (now / 60));
  dedupe_ttl = dedupe_ttl_default;
}

abbrev pub plan_post_close : String → ℕ → Bool → DispatchPlan
plan_post_close mic date half = record {
  task_name = "tasks.post_close.run_post_close_batch";
  kwargs = for_session mic date half;
  dedupe_key = some (post_close_key mic date);
  dedupe_ttl = post_close_ttl;
}

abbrev pub when : Bool → DispatchPlan → List DispatchPlan
when b p = if b then p ∷ [] else []

-- What one market adds to the plan.
unfoldable pub market_plans : String → ℕ → MarketSnapshot → List DispatchPlan
market_plans mic now snap = elim snap.state [
  | open_now ↦
      when (minute now % indicator_recalc_every_minutes == 0) (plan_recalc mic now)
      ++ when (minute now % portfolio_sync_every_minutes == 0) (plan_sync mic now)
  | just_closed ↦ plan_post_close mic snap.session_hours.session_date snap.is_half_day ∷ []
  | holiday ↦ []
  | shut ↦ []
]

module _ (lib : Library) (rows : List CalendarOverride) where
  -- The local date of the exchange decides which session is looked up.
  unfoldable pub compute_market_state : String → ℕ → Outcome MarketSnapshot
  unfolding snapshot
  compute_market_state exchange now = do
    hours ← get_session_hours lib rows exchange (lib.local_date exchange now)
    value (snapshot exchange now hours)

  -- The loop over the exchanges, with the snapshots and the plans so far.
  unfoldable pub plan_from :
      ℕ → List String → List MarketSnapshot → List DispatchPlan → Outcome SchedulerTick
  unfolding compute_market_state market_plans
  plan_from now [] snaps plans =
      value (record { now_utc = now; snapshots = snaps; planned = plans })
  plan_from now (mic ∷ exchanges) snaps plans = compute_market_state mic now >>= λ snap.
      plan_from now exchanges (snaps ++ snap ∷ []) (plans ++ market_plans mic now snap)

  unfoldable pub plan : ℕ → List String → Outcome SchedulerTick
  unfolding plan_from minute_floor
  plan now_utc exchanges = plan_from (minute_floor now_utc) exchanges [] []

module _ (redis : Values DedupeKey String) where
  -- `none` is a scheduler without Redis, which claims everything.
  unfoldable pub claim : DispatchPlan → ℕ → Option redis.Store → Bool × Option redis.Store
  claim p now store = elim p.dedupe_key [
    | none ↦ (true, store)
    | some key ↦ elim store [
      | none ↦ (true, none)
      | some s ↦ let (ok, s') = redis.set_nx key "1" (some p.dedupe_ttl) now s in (ok, some s')
    ]
  ]

  -- The plans that were sent to Celery, in order.
  unfoldable pub apply :
      List DispatchPlan → ℕ → Option redis.Store → List DispatchPlan × Option redis.Store
  unfolding claim
  apply [] now store = ([], store)
  apply (p ∷ planned) now store =
      let (ok, store') = claim p now store in
      let (sent, store'') = apply planned now store' in (if ok then p ∷ sent else sent, store'')

-- What a tick reports.
pub record TickReport : Type 0 where
  pub now_utc : ℕ
  pub snapshots : List MarketSnapshot
  pub dispatched : List DispatchPlan
  pub skipped : ℕ

abbrev pub supported_exchanges : List String
supported_exchanges = "XNYS" ∷ "XNAS" ∷ "XBOM" ∷ []

module _ (lib : Library) (rows : List CalendarOverride) (redis : Values DedupeKey String) where
  unfoldable pub tick : ℕ → Option redis.Store → Outcome (TickReport × Option redis.Store)
  unfolding plan apply
  tick now store = do
    t ← plan lib rows now supported_exchanges
    let (sent, store') = apply redis t.planned now store
    value (
      record {
        now_utc = t.now_utc;
        snapshots = t.snapshots;
        dispatched = sent;
        skipped = length t.planned - length sent;
      },
      store',
    )
