-- ===== src/Notifications.antt =====
-- backend/app/notifications/: the channels that carry a copy of a notification to its user, and the
-- dispatcher that tries each of them.
pub mod Dispatcher
pub mod Push
mod Examples
