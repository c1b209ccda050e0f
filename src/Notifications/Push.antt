-- ===== src/Notifications/Push.antt =====
-- `class ExpoPushChannel` of backend/app/notifications/push.py. The HTTP client is a function on a
-- world; its answer is a transport error, or a status and a body.
pub mod Laws
use nivara.Prelude.{
  ℕ, String, Bool, true, false, ◌&&◌, Option, none, some, List, [], ◌∷◌, ◌==◌, if◌then◌else◌,
}
use nivara.Notifications.Dispatcher.{Notification, Outcome, returned, Channel}

pub record DeviceToken : Type 0 where
  pub user_id : ℕ
  pub expo_push_token : String
  pub is_active : Bool

pub record Message (Pay : Type 0) : Type 0 where
  pub to : String
  pub title : String
  pub body : String
  pub payload : Pay
  pub sound : String

-- `resp.json()`, as far as the channel reads it: no JSON, an object with the truth of its `errors`
-- entry, or any other value.
pub data Body : Type 0 where
  not_json other_json : Body
  object : Bool → Body

pub data Answer : Type 0 where
  http_error : Answer
  response : ℕ → Body → Answer

pub record Request (Pay : Type 0) : Type 0 where
  pub messages : List (Message Pay)
  -- the header `Authorization: Bearer ...`
  pub bearer : Option String

abbrev pub active_tokens : ℕ → List DeviceToken → List String
active_tokens user_id [] = []
active_tokens user_id (row ∷ rows) =
    if (row.user_id == user_id) && row.is_active
    then row.expo_push_token ∷ active_tokens user_id rows
    else active_tokens user_id rows

abbrev pub delivered : Answer → Bool
delivered http_error = false
delivered (response status body) =
    if status == 200
    then elim body [
      | not_json ↦ false
      | other_json ↦ true
      | object errors ↦ if errors then false else true
    ]
    else false

-- `if self._access_token`: the empty token sends no header.
abbrev pub bearer_of : Option String → Option String
bearer_of none = none
bearer_of (some String.[]) = none
bearer_of (some (String.◌∷◌ c s)) = some (String.◌∷◌ c s)

module _ {Pay : Type 0} (empty_payload : Pay) where
  -- `_build_messages`; `notification.payload or {}`
  abbrev pub build_messages : Notification Pay → List String → List (Message Pay)
  build_messages notification [] = []
  build_messages notification (token ∷ tokens) =
      record {
        to = token;
        title = notification.title;
        body = notification.body;
        payload = elim notification.payload [ none ↦ empty_payload | some p ↦ p ];
        sound = "default";
      }
      ∷ build_messages notification tokens

  abbrev pub request_of : Option String → Notification Pay → List String → Request Pay
  request_of access_token notification tokens = record {
    messages = build_messages notification tokens;
    bearer = bearer_of access_token;
  }

  abbrev pub send_to :
      {W : Type 0}
      → Option String
      → (Request Pay → W → Answer × W)
      → Notification Pay
      → List String
      → W
      → Outcome × W
  send_to access_token post notification [] w = (returned false, w)
  send_to access_token post notification (token ∷ tokens) w =
      let (answer, w') = post (request_of access_token notification (token ∷ tokens)) w in
      (returned (delivered answer), w')

  -- `send`, with the table of device tokens and the client's `post`.
  unfoldable pub send :
      {W : Type 0}
      → List DeviceToken
      → Option String
      → (Request Pay → W → Answer × W)
      → Notification Pay
      → W
      → Outcome × W
  send devices access_token post notification w =
      send_to access_token post notification (active_tokens notification.user_id devices) w

  abbrev pub expo_push_channel :
      {W : Type 0}
      → List DeviceToken
      → Option String
      → (Request Pay → W → Answer × W)
      → Channel Pay W
  expo_push_channel devices access_token post = record {
    name = "ExpoPushChannel";
    send = send devices access_token post;
  }
