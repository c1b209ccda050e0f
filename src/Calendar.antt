-- ===== src/Calendar.antt =====
-- backend/app/services/calendar.py: market calendars with the overrides of the database. Times are
-- seconds and dates are day numbers, so `candidate + timedelta(days=1)` is the next number.
pub mod Library
pub mod Service
pub mod Verify
pub mod Examples
