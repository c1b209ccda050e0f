-- ===== src/Notifications/Examples.antt =====
-- Runs of the notification channels at concrete inputs.
use nivara.Prelude.{ℕ, ◌+◌, String, true, false, none, some, List, [], ◌∷◌, ◌≡◌, refl, length}
use nivara.Notifications.Dispatcher.{Notification, Channel, returned, raised, has_error, dispatch}
use nivara.Notifications.Dispatcher.Laws.{
  names, outcomes, after, succeeded, failed, dispatch-outcomes,
}
use nivara.Notifications.Push.{
  DeviceToken, Request, Answer, response, object, active_tokens, request_of,
}

abbrev alert : Notification ℕ
alert = record {
  id = 7;
  user_id = 1;
  notification_type = "price_alert";
  title = "Volatility alert: AAPL";
  body = "AAPL traded a wide range today";
  payload = some 3;
  sent_at = none;
}

abbrev push : Channel ℕ ℕ
push = record { name = "ExpoPushChannel"; send = λ n w. (returned true, w + 1) }

abbrev mail : Channel ℕ ℕ
mail = record { name = "EmailChannel"; send = λ n w. (raised "OSError: refused", w + 1) }

abbrev sms : Channel ℕ ℕ
sms = record { name = "SmsChannel"; send = λ n w. (returned false, w + 1) }

abbrev channels : List (Channel ℕ ℕ)
channels = mail ∷ push ∷ sms ∷ []

dispatch-outcomes_example :
    let r = dispatch channels 100 alert 0 in
    (r.0.notification_id ≡ alert.id)
    × (r.0.channels_attempted ≡ names channels)
    × (r.0.channels_succeeded ≡ succeeded (outcomes channels alert 0))
    × ((key : String) → has_error key r.0.errors ≡ failed key (outcomes channels alert 0))
    × (r.2 ≡ after channels alert 0)
dispatch-outcomes_example = dispatch-outcomes channels 100 alert 0

abbrev devices : List DeviceToken
devices =
    record { user_id = 1; expo_push_token = "ExponentPushToken[a]"; is_active = true }
    ∷ record { user_id = 1; expo_push_token = "ExponentPushToken[b]"; is_active = false }
    ∷ record { user_id = 2; expo_push_token = "ExponentPushToken[c]"; is_active = true }
    ∷ []

abbrev retired : DeviceToken
retired = record { user_id = 1; expo_push_token = "ExponentPushToken[b]"; is_active = false }

-- A client that accepts each request, and counts them.
abbrev accept : Request ℕ → ℕ → Answer × ℕ
accept request w = (response 200 (object false), w + 1)

one_request : length (request_of 0 none alert (active_tokens 1 devices)).messages ≡ 1
one_request = refl
