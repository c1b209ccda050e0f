-- ===== src/Notifications/Dispatcher.antt =====
-- `class AlertDispatcher` of backend/app/notifications/base.py. What the channels change outside,
-- such as the requests they have sent, is a world that each send takes and hands on.
pub mod Laws
use nivara.Prelude.{
  ℕ, String, Bool, true, false, not, ◌&&◌, Option, none, some, List, [], ◌∷◌, ◌++◌, str_eq, is_some,
  if◌then◌else◌,
}

-- The columns that the code sets or reads; `Pay` is the JSON payload.
pub record Notification (Pay : Type 0) : Type 0 where
  pub id : ℕ
  pub user_id : ℕ
  pub notification_type : String
  pub title : String
  pub body : String
  pub payload : Option Pay
  pub sent_at : Option ℕ

-- What a call of `send` does: it returns a flag, or it raises an exception with this text.
pub data Outcome : Type 0 where
  returned : Bool → Outcome
  raised : String → Outcome

-- `class NotificationChannel`, with the name of its class.
pub record Channel (Pay W : Type 0) : Type 0 where
  pub name : String
  pub send : Notification Pay → W → Outcome × W

abbrev pub Errors : Type 0
Errors = List (String × String)

abbrev pub has_error : String → Errors → Bool
has_error name [] = false
has_error name ((n, t) ∷ rest) = if str_eq n name then true else has_error name rest

-- `errors[name] = text`: an entry that is there keeps its place.
abbrev pub set_error : String → String → Errors → Errors
set_error name text [] = (name, text) ∷ []
set_error name text ((n, t) ∷ rest) =
    if str_eq n name then (n, text) ∷ rest else (n, t) ∷ set_error name text rest

-- `errors.setdefault(name, text)`
abbrev pub set_default : String → String → Errors → Errors
set_default name text errors = if has_error name errors then errors else errors ++ (name, text) ∷ []

pub record DispatchResult : Type 0 where
  pub notification_id : ℕ
  pub channels_attempted : List String
  pub channels_succeeded : List String
  pub errors : Errors

abbrev pub is_empty : List String → Bool
is_empty [] = true
is_empty (_ ∷ _) = false

-- `DispatchResult.any_success`
abbrev pub any_success : DispatchResult → Bool
any_success result = not (is_empty result.channels_succeeded)

-- `DispatchResult(notification_id=notification.id)`
abbrev pub initial : ℕ → DispatchResult
initial id = record {
  notification_id = id;
  channels_attempted = [];
  channels_succeeded = [];
  errors = [];
}

-- One round of the loop over the channels, after `send`.
abbrev pub note : String → Outcome → DispatchResult → DispatchResult
note name (raised text) result = record result {
  channels_attempted = result.channels_attempted ++ name ∷ [];
  errors = set_error name text result.errors;
}
note name (returned true) result = record result {
  channels_attempted = result.channels_attempted ++ name ∷ [];
  channels_succeeded = result.channels_succeeded ++ name ∷ [];
}
note name (returned false) result = record result {
  channels_attempted = result.channels_attempted ++ name ∷ [];
  errors = set_default name "send returned False" result.errors;
}

abbrev pub stamp : {Pay : Type 0} → ℕ → Bool → Notification Pay → Notification Pay
stamp now success notification =
    if success && not (is_some notification.sent_at)
    then record notification { sent_at = some now }
    else notification

module _ {Pay W : Type 0} where
  unfoldable pub fan_out :
      List (Channel Pay W) → Notification Pay → DispatchResult → W → DispatchResult × W
  fan_out [] notification result w = (result, w)
  fan_out (channel ∷ rest) notification result w =
      let (outcome, w') = channel.send notification w in
      fan_out rest notification (note channel.name outcome result) w'

  -- `dispatch` at the time `now`: the result and the notification with its `sent_at`.
  unfoldable pub dispatch :
      List (Channel Pay W) → ℕ → Notification Pay → W → DispatchResult × Notification Pay × W
  dispatch channels now notification w =
      let (result, w') = fan_out channels notification (initial notification.id) w in
      (result, stamp now (any_success result) notification, w')

  -- `dispatch_many`, with the clock's time at each of them.
  unfoldable pub dispatch_many :
      List (Channel Pay W)
      → List (ℕ × Notification Pay)
      → W
      → List DispatchResult × List (Notification Pay) × W
  unfolding dispatch
  dispatch_many channels [] w = ([], [], w)
  dispatch_many channels ((now, notification) ∷ rest) w =
      let (result, sent, w') = dispatch channels now notification w in
      let (results, others, w'') = dispatch_many channels rest w' in
      (result ∷ results, sent ∷ others, w'')
