-- ===== src/Safety/RiskGuardian/Run.antt =====
-- `RiskGuardian.persist_alerts`, `RiskGuardian.run_all`, `build_default_dispatcher` and
-- `run_risk_guardian_once`. An id is drawn for each new row, and the dispatch of a row reads the clock
-- at a time of its own.
pub mod Rows
pub mod Raises
use nivara.Prelude.{ℕ, suc, ◌+◌, String, Bool, Option, none, some, List, [], ◌∷◌, ◌++◌}
use nivara.Floats.{Floats}
use nivara.Notifications.Dispatcher.{Notification, Channel, dispatch}
use nivara.Notifications.Push.{DeviceToken, Request, Answer, expo_push_channel}
use nivara.Safety.RiskGuardian.{Payload, AlertEvent, Position, Tables}
use nivara.Safety.RiskGuardian.Volatility.{Bar, detect_volatility}
use nivara.Safety.RiskGuardian.Earnings.{DateTexts, detect_earnings}
use nivara.Safety.RiskGuardian.Macro.{User, FredReply, detect_macro}

-- What the detectors read: the clock, the settings and the database.
pub record Inputs (f : Floats) : Type 0 where
  pub texts : DateTexts
  pub today : ℕ
  pub get_earnings_date : String → Option ℕ
  pub fred_api_key : Option String
  pub tables : Tables
  pub positions : List Position
  pub price_history : List (Bar f.Decimal)
  pub users : List User
  -- the default `multiplier`, 2.0, and `MACRO_CHANGE_THRESHOLD`, 0.1
  pub multiplier : f.Num
  pub macro_change_threshold : f.Num

abbrev pub lookback_days : ℕ
lookback_days = 20

abbrev pub days_ahead : ℕ
days_ahead = 5

module _ (f : Floats) where
  open f use {Num}

  abbrev pub Row : Type 0
  Row = Notification (Payload Num)

  abbrev pub notification_of : ℕ → AlertEvent Num → Row
  notification_of id alert = record {
    id = id;
    user_id = alert.user_id;
    notification_type = alert.notification_type;
    title = alert.title;
    body = alert.body;
    payload = some alert.payload;
    sent_at = none;
  }

  -- The new rows; the id of the k-th row drawn is `new_id k`.
  unfoldable pub persist_alerts : (ℕ → ℕ) → ℕ → List (AlertEvent Num) → List Row
  persist_alerts new_id k [] = []
  persist_alerts new_id k (alert ∷ alerts) =
      notification_of (new_id k) alert ∷ persist_alerts new_id (k + 1) alerts

  -- The detectors in their order; `none` is an exception.
  unfoldable pub detect_all :
      {W : Type 0}
      → Inputs f
      → (String → W → FredReply Num × W)
      → W
      → Option (List (AlertEvent Num)) × W
  detect_all i get w =
      let (macro, w') = detect_macro f get i.macro_change_threshold i.fred_api_key i.users w in
      (
        elim macro [
          | none ↦ none
          | some alerts ↦ some (
              detect_volatility f lookback_days i.multiplier i.tables i.price_history i.positions
              ++ (detect_earnings Num i.texts i.get_earnings_date i.today days_ahead i.tables
                    i.positions
                  ++ alerts))
        ],
        w',
      )

  -- The loop over the dispatches: the rows with their `sent_at`.
  unfoldable pub dispatch_each :
      {W : Type 0} → List (Channel (Payload Num) W) → (ℕ → ℕ) → List Row → W → List Row × W
  dispatch_each channels clock [] w = ([], w)
  dispatch_each channels clock (row ∷ rows) w =
      let (result, sent, w') = dispatch channels (clock row.id) row w in
      let (others, w'') = dispatch_each channels clock rows w' in (sent ∷ others, w'')

  -- `dispatcher` is `None` or the channels of one.
  abbrev pub dispatch_with :
      {W : Type 0} → Option (List (Channel (Payload Num) W)) → (ℕ → ℕ) → List Row → W → List Row × W
  dispatch_with none clock rows w = (rows, w)
  dispatch_with (some channels) clock rows w = dispatch_each channels clock rows w

  -- The rows that the session holds when `run_all` returns; `none` is an exception.
  unfoldable pub run_all :
      {W : Type 0}
      → Inputs f
      → (String → W → FredReply Num × W)
      → (ℕ → ℕ)
      → Option (List (Channel (Payload Num) W))
      → (ℕ → ℕ)
      → W
      → Option (List Row) × W
  unfolding detect_all persist_alerts dispatch_each
  run_all i get new_id dispatcher clock w =
      let (events, w') = detect_all i get w in
      elim events [
        | none ↦ (none, w')
        | some alerts ↦
            let (rows, w'') = dispatch_with dispatcher clock (persist_alerts new_id 0 alerts) w' in
            (some rows, w'')
      ]

  -- `build_default_dispatcher`: push is the only channel.
  abbrev pub default_channels :
      {W : Type 0}
      → Payload Num
      → List DeviceToken
      → Option String
      → (Request (Payload Num) → W → Answer × W)
      → List (Channel (Payload Num) W)
  default_channels empty_payload devices access_token post =
      expo_push_channel empty_payload devices access_token post ∷ []

  -- `run_risk_guardian_once`: the result and the committed table; an exception commits nothing.
  unfoldable pub run_once :
      {W : Type 0}
      → Inputs f
      → (String → W → FredReply Num × W)
      → (ℕ → ℕ)
      → List (Channel (Payload Num) W)
      → (ℕ → ℕ)
      → List Row
      → W
      → Option (List Row) × List Row × W
  unfolding run_all
  run_once i get new_id channels clock table w =
      let (result, w') = run_all i get new_id (some channels) clock w in
      (result, elim result [ none ↦ table | some rows ↦ table ++ rows ], w')
