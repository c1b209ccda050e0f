-- ===== src/Safety/RiskGuardian/Examples.antt =====
-- Runs of the risk guardian at concrete inputs.
use Prim.Native.String.{◌++◌ as append}
use nivara.Prelude.{
  ℕ, zero, suc, ◌+◌, String, true, false, ◌&&◌, inl, Option, none, some, List, [], ◌∷◌, ◌++◌, ◌≡◌,
  refl, is_some, if◌then◌else◌, arith, map, length,
}
use nivara.Floats.{Floats, hundredth_floats}
use nivara.Notifications.Dispatcher.{Channel, raised}
use nivara.Safety.RiskGuardian.{Payload, AlertEvent, pos, Position, Tables, holding_of}
use nivara.Safety.RiskGuardian.Volatility.{Bar, detect_volatility}
use nivara.Safety.RiskGuardian.Volatility.Window.{detect_volatility-older}
use nivara.Safety.RiskGuardian.Earnings.{DateTexts, due_date, detect_earnings}
use nivara.Safety.RiskGuardian.Earnings.Once.{alert_count, has_row, closed, detect_earnings-once}
use nivara.Safety.RiskGuardian.Macro.{
  User, FredReply, not_json, observations, Change, macro_alerts, detect_macro,
}
use nivara.Safety.RiskGuardian.Run.{Inputs, Row, detect_all, run_once}
use nivara.Safety.RiskGuardian.Run.Rows.{columns, columns_of, run_once-rows}
use nivara.Safety.RiskGuardian.Run.Raises.{run_once-not_json, run_once-returns}

abbrev f : Floats
f = hundredth_floats

abbrev tally : ℕ → String
tally zero = ""
tally (suc n) = append "i" (tally n)

abbrev texts : DateTexts
texts = record { number = tally; isoformat = tally }

-- Two accounts of user 1 have AAPL, one of them with quantity 0.
abbrev tables : Tables
tables = record {
  connections = record { id = 10; user_id = 1 } ∷ record { id = 11; user_id = 1 } ∷ [];
  instruments = record { id = 5; symbol = "AAPL"; exchange = "NASDAQ" } ∷ [];
}

abbrev positions : List Position
positions =
    record { broker_connection_id = 10; instrument_id = 5; quantity = pos 100 }
    ∷ record { broker_connection_id = 11; instrument_id = 5; quantity = pos 0 }
    ∷ []

abbrev bar : ℕ → ℕ → Bar ℕ
bar t high = record { instrument_id = 5; timestamp = t; high = high; low = 100 }

abbrev history : List (Bar ℕ)
history = bar 2 110 ∷ bar 4 190 ∷ bar 3 110 ∷ []

-- The newest bar's range is nine times the mean of the two before it.
volatile : length (detect_volatility f 2 200 tables history positions) ≡ 2
unfolding detect_volatility holding_of
volatile = refl

detect_volatility-older_example :
    detect_volatility f 2 200 tables (bar 1 500 ∷ history) positions
    ≡ detect_volatility f 2 200 tables history positions
detect_volatility-older_example =
    detect_volatility-older f 2 200 tables (bar 1 500) history positions (omega arith)

abbrev earnings_date : String → Option ℕ
earnings_date symbol = some 103

detect_earnings-once_example :
    (alert_count 1 "AAPL" (detect_earnings ℕ texts earnings_date 100 5 tables positions) ≡ (
      if is_some (due_date earnings_date 100 5 "AAPL") && has_row tables 1 "AAPL" positions
      then 1
      else 0))
    × (detect_earnings ℕ texts earnings_date 100 5 tables (map closed positions)
        ≡ detect_earnings ℕ texts earnings_date 100 5 tables positions)
detect_earnings-once_example =
    detect_earnings-once ℕ texts earnings_date 100 5 tables 1 "AAPL" positions

abbrev users : List User
users = record { id = 1; is_active = true } ∷ record { id = 2; is_active = false } ∷ []

abbrev change : Change ℕ
change = record {
  series_id = "DFF";
  latest = 550;
  previous = 525;
  delta = 25;
  latest_date = some "2026-01-02";
}

abbrev inputs : Inputs f
inputs = record {
  texts = texts;
  today = 100;
  get_earnings_date = earnings_date;
  fred_api_key = some "key";
  tables = tables;
  positions = positions;
  price_history = history;
  users = users;
  multiplier = 200;
  macro_change_threshold = 10;
}

abbrev fred : String → ℕ → FredReply ℕ × ℕ
fred series w = (
  observations (
      record { value = some 550; date = some "2026-01-02" }
      ∷ record { value = some 525; date = some "2026-01-01" }
      ∷ []),
  w + 1,
)

abbrev no_fred : String → ℕ → FredReply ℕ × ℕ
no_fred series w = (not_json, w + 1)

abbrev channels : List (Channel (Payload ℕ) ℕ)
channels = record { name = "ExpoPushChannel"; send = λ n w. (raised "OSError", w + 1) } ∷ []

abbrev found : List (AlertEvent ℕ)
found =
    detect_earnings ℕ texts earnings_date 100 5 tables positions
    ++ macro_alerts f users (change ∷ record change { series_id = "UNRATE" } ∷ [])

detect_all-found : (detect_all f inputs fred 0).0 ≡ some found
unfolding detect_all detect_volatility detect_macro detect_earnings holding_of
detect_all-found = refl

run_once-rows_example :
    (rows : List (Row f)) × ((run_once f inputs fred (λ k. k) channels (λ k. 500) [] 0).0
      ≡ some rows)
    × ((run_once f inputs fred (λ k. k) channels (λ k. 500) [] 0).1 ≡ [] ++ rows)
    × (map (columns f) rows ≡ map (columns_of f) found)
run_once-rows_example =
    run_once-rows f inputs fred (λ k. k) channels (λ k. 500) [] 0 found detect_all-found

run_once-not_json_example :
    ((run_once f inputs no_fred (λ k. k) channels (λ k. 500) [] 0).0 ≡ none)
    × ((run_once f inputs no_fred (λ k. k) channels (λ k. 500) [] 0).1 ≡ [])
run_once-not_json_example =
    run_once-not_json f no_fred inputs (λ k. k) channels (λ k. 500) [] 0 "DFF" refl refl (λ v. refl)

run_once-returns_example :
    is_some (run_once f inputs fred (λ k. k) channels (λ k. 500) [] 0).0 ≡ true
run_once-returns_example =
    run_once-returns f fred inputs (λ k. k) channels (λ k. 500) [] 0 (inl (λ s v. refl))
