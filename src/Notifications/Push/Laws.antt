-- ===== src/Notifications/Push/Laws.antt =====
-- Who receives a push, and when the dispatcher marks its notification as sent
-- (backend/app/notifications/push.py, backend/app/notifications/base.py).
use nivara.Prelude.{
  ℕ, String, Bool, true, false, not, ◌&&◌, Option, none, some, List, [], ◌∷◌, ◌++◌, ◌≡◌, refl, ◌==◌,
  if◌then◌else◌, arith, ap,
}
use nivara.Notifications.Dispatcher.{
  returned, Notification, is_empty, any_success, initial, note, stamp, dispatch, fan_out,
}
use nivara.Notifications.Push.{
  DeviceToken, Request, Answer, active_tokens, delivered, request_of, send_to, send,
  expo_push_channel,
}

active_tokens-skip :
    (u : ℕ) (before after : List DeviceToken) (row : DeviceToken)
    → (row.user_id == u) && row.is_active ≡ false
    → active_tokens u (before ++ row ∷ after) ≡ active_tokens u (before ++ after)
active_tokens-skip u [] after row h = ground arith
active_tokens-skip u (d ∷ before) after row h =
    ground (arith, active_tokens-skip u before after row)

stamp-note :
    {Pay : Type 0} (ok : Bool) (now : ℕ) (n : Notification Pay)
    → n.sent_at ≡ none
    → (stamp now (any_success (note "ExpoPushChannel" (returned ok) (initial n.id))) n).sent_at
      ≡ (if ok then some now else none)
stamp-note true now n h = ground arith
stamp-note false now n h = h

module _ {Pay W : Type 0} (empty_payload : Pay) where
  -- A device of another user, or one that is not active, makes no difference to a push: neither to
  -- its request nor to its result.
  pub send-other_device :
      (before after : List DeviceToken) (row : DeviceToken) (access_token : Option String)
      (post : Request Pay → W → Answer × W) (n : Notification Pay) (w : W)
      → (row.user_id == n.user_id) && row.is_active ≡ false
      → send empty_payload (before ++ row ∷ after) access_token post n w
        ≡ send empty_payload (before ++ after) access_token post n w
  unfolding send
  send-other_device before after row access_token post n w h =
      ap (λ tokens. send_to empty_payload access_token post n tokens w)
        (active_tokens-skip n.user_id before after row h)

  dispatch-send_to :
      (tokens : List String) (access_token : Option String) (post : Request Pay → W → Answer × W)
      (now : ℕ) (n : Notification Pay) (w : W)
      → n.sent_at ≡ none
      → let (outcome, w') = send_to empty_payload access_token post n tokens w in
        let answer = post (request_of empty_payload access_token n tokens) w in
        ((stamp now (any_success (note "ExpoPushChannel" outcome (initial n.id))) n).sent_at
          ≡ (if not (is_empty tokens) && delivered answer.0 then some now else none))
        × (w' ≡ (if is_empty tokens then w else answer.1))
  dispatch-send_to [] access_token post now n w h = ground arith
  dispatch-send_to (t ∷ ts) access_token post now n w h = (
    stamp-note (delivered (post (request_of empty_payload access_token n (t ∷ ts)) w).0) now n h,
    refl,
  )

  -- A push to a user marks the notification as sent exactly where the user has an active device and
  -- Expo accepts the request, which has one message for each of these devices. Without such a
  -- device there is no request.
  pub dispatch-push :
      (devices : List DeviceToken) (access_token : Option String)
      (post : Request Pay → W → Answer × W) (now : ℕ) (n : Notification Pay) (w : W)
      → n.sent_at ≡ none
      → let tokens = active_tokens n.user_id devices in
        let answer = post (request_of empty_payload access_token n tokens) w in
        let sent =
          dispatch (expo_push_channel empty_payload devices access_token post ∷ []) now n w in
        (sent.1.sent_at ≡ (if not (is_empty tokens) && delivered answer.0 then some now else none))
        × (sent.2 ≡ (if is_empty tokens then w else answer.1))
  unfolding dispatch fan_out send
  dispatch-push devices access_token post now n w h =
      dispatch-send_to (active_tokens n.user_id devices) access_token post now n w h
