-- ===== src/Lib.antt =====
-- Nivara's backend (backend/app): the parts that decide what may be traded, who may act, when jobs
-- run, and what a portfolio holds. Each part is a module, and its files name the code they model.
--
-- - Safety: backend/app/safety/guardian.py, kill_switch.py and position_sizer.py, with the audit writer
--   of backend/app/services/audit.py. `SafetyGuardian` is `Safety.Guardian`: a check takes the state
--   (the recent orders and the flags in Redis, the audit rows) and returns a decision with the new
--   state; `validate_action` runs them in the order of the code.
-- - Auth: backend/app/services/auth.py, backend/app/auth/jwt.py and dependencies.py, and the users table.
--   A method is an action that keeps state and may raise (`Http`); `Auth.Service.Calls` serves requests
--   one after another.
-- - Calendar: backend/app/services/calendar.py. Times are seconds, dates are day numbers.
-- - Scheduler: backend/app/scheduling/scheduler.py, which asks the calendar for a market's state, plans
--   the tasks of a tick, and claims a key in Redis before it sends a task.
-- - Brokers: backend/app/brokers/rate_limiter.py. Times are milliseconds.
-- - Portfolio: backend/app/services/symbol_mapping.py and portfolio_sync.py, which writes an audit row
--   too. A table is the list of its rows; an error of the database ends the sync.
-- - Safety.AuditQuery: backend/app/safety/audit_query.py.
-- - Safety.RiskGuardian: backend/app/safety/risk_guardian.py, one detector per module, and `Run` for the
--   whole round. Its alerts go to Notifications: backend/app/notifications/base.py and push.py.
-- - Calendar.Verify: backend/app/tasks/calendar_verify.py, which compares the overrides and the library.
-- - Corporate: backend/app/services/corporate_actions.py: two detectors and the adjustment for a split.
-- - Rates: backend/app/services/fx.py, portfolio_summary.py and benchmark.py.
-- - Intelligence: backend/app/intelligence/staleness.py, synthesizer.py, portfolio.py,
--   fx_attribution.py and explainers/template.py. `synthesize` blends the scores of
--   the engines into a recommendation.
-- - Analysis: backend/app/analysis/risk_meter.py and health_score.py, on the statistics of the series.
-- - Texts and Floats are shared too: `Floats` is the interface of Python's `float`, NaN included.
-- - Redis, Decimals, Http and Prelude are shared. `Redis` has the interfaces of the commands that the
--   services send (plain keys, counters, sorted sets), each with laws for its documented behaviour and
--   an instance in memory; `Decimals` is the interface of Python's `Decimal`.
--
-- The code that is not in the repository is a parameter: Redis, decimals, floats, argon2, JWT signing,
-- SHA-256, `exchange_calendars`, pandas, the database's order of rows and rounding of
-- columns, and the answers of FRED, the ECB, Yahoo, Expo and the language models. Random values and the
-- time are arguments of the operation that draws them. A UUID is a number that is only compared.
--
-- Loops are structural recursion over the list that the code iterates over. `next_session_close` has
-- the code's own bound of twenty days. `acquire` of the rate limiter loops without a bound in the code:
-- its rounds are a list, and `still_waiting` says that the list ended first. `walk_days` of
-- Calendar.Verify runs on fuel: two rounds more than the days of the horizon are enough.
--
-- Not modelled: a verification of days that the calendar library does not know, a benchmark over no
-- days, overlapping requests (each operation runs to its end before the next, but for the two
-- workers of `Brokers.RateLimiter.Overlap`), logging, the HTTP routes, the Celery wrappers, the mail
-- transport, the broker and data clients and the cache of prices, the analyses of single instruments
-- over pandas, and the mobile app.
pub mod Prelude
pub mod Redis
pub mod Texts
pub mod Decimals
pub mod Floats
pub mod Safety
pub mod Http
pub mod Auth
pub mod Calendar
pub mod Scheduler
pub mod Brokers
pub mod Portfolio
pub mod Notifications
pub mod Corporate
pub mod Rates
pub mod Intelligence
pub mod Analysis
