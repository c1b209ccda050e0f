-- ===== src/Corporate/Actions.antt =====
-- The tables and the cache of `class CorporateActionsService`. A date is the number of its day, and a
-- timestamp a number of seconds, both from the first day.
use nivara.Prelude.{ℕ, String, Option, none, some, List, [], ◌∷◌, ◌==◌, if◌then◌else◌}
use nivara.Decimals.{Decimals}
use nivara.Safety.Audit.{AuditLog}

abbrev pub applied_marker : String
applied_marker = "[applied]"

abbrev pub flagged_marker : String
flagged_marker = "[flagged:qty-anomaly]"

abbrev pub seconds_per_day : ℕ
seconds_per_day = 86400

-- The key `tech:{instrument_id}:{rest}`.
pub data CacheKey : Type 0 where
  tech : ℕ → String → CacheKey

module _ (d : Decimals) where
  open d use {Num}

  pub record CorporateAction : Type 0 where
    pub id : ℕ
    pub instrument_id : ℕ
    pub action_type : String
    pub ex_date : ℕ
    pub ratio_or_amount : Num
    pub currency : Option String
    pub notes : Option String

  pub record PriceHistory : Type 0 where
    pub instrument_id : ℕ
    pub timestamp : ℕ
    pub open_price : Num
    pub high : Num
    pub low : Num
    pub close : Num
    pub volume : ℕ

  pub record SplitDetection : Type 0 where
    pub instrument_id : ℕ
    pub ex_date : ℕ
    pub factor : Num
    pub corporate_action_id : ℕ

  pub record QtyAnomaly : Type 0 where
    pub instrument_id : ℕ
    pub broker_connection_id : ℕ
    pub observed_at : ℕ
    pub previous_qty : Num
    pub new_qty : Num
    pub corporate_action_id : ℕ

  -- The columns of an order that the anomaly check reads.
  pub record Order : Type 0 where
    pub broker_connection_id : ℕ
    pub instrument_id : ℕ
    pub side : String
    pub quantity : Num
    pub status : String
    pub created_at : ℕ

  -- `event_data` of an applied action.
  pub record AppliedData : Type 0 where
    pub corporate_action_id : ℕ
    pub instrument_id : ℕ
    pub ex_date : ℕ
    pub factor : Num
    pub rows_updated : ℕ
    pub cache_keys_invalidated : ℕ

  pub record State : Type 0 where
    pub actions : List CorporateAction
    pub history : List PriceHistory
    pub cache : List CacheKey
    pub audit : List (AuditLog AppliedData)

  -- `session.get(CorporateAction, id)`
  abbrev pub find_action : ℕ → List CorporateAction → Option CorporateAction
  find_action id [] = none
  find_action id (row ∷ rows) = if row.id == id then some row else find_action id rows
