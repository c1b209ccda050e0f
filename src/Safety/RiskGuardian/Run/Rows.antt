-- ===== src/Safety/RiskGuardian/Run/Rows.antt =====
-- The rows that a run of the guardian leaves (backend/app/safety/risk_guardian.py).
use nivara.Prelude.{
  ℕ, ◌+◌, String, Option, some, List, [], ◌∷◌, ◌++◌, ◌≡◌, refl, arith, ap, map, ◌∙◌,
}
use nivara.Floats.{Floats}
use nivara.Notifications.Dispatcher.{Channel, dispatch}
use nivara.Notifications.Dispatcher.Laws.{dispatch-sent_at}
use nivara.Safety.RiskGuardian.{Payload, AlertEvent}
use nivara.Safety.RiskGuardian.Macro.{FredReply}
use nivara.Safety.RiskGuardian.Run.{
  Inputs, Row, persist_alerts, detect_all, dispatch_each, run_all, run_once,
}

-- The columns of a row that an alert sets.
pub record Columns (F : Type 0) : Type 0 where
  pub user_id : ℕ
  pub notification_type : String
  pub title : String
  pub body : String
  pub payload : Option (Payload F)

module _ (f : Floats) where
  open f use {Num}

  abbrev pub columns : Row f → Columns Num
  columns row = record {
    user_id = row.user_id;
    notification_type = row.notification_type;
    title = row.title;
    body = row.body;
    payload = row.payload;
  }

  abbrev pub columns_of : AlertEvent Num → Columns Num
  columns_of alert = record {
    user_id = alert.user_id;
    notification_type = alert.notification_type;
    title = alert.title;
    body = alert.body;
    payload = some alert.payload;
  }

  persist_alerts-columns :
      (new_id : ℕ → ℕ) (k : ℕ) (alerts : List (AlertEvent Num))
      → map columns (persist_alerts f new_id k alerts) ≡ map columns_of alerts
  unfolding persist_alerts
  persist_alerts-columns new_id k [] = refl
  persist_alerts-columns new_id k (alert ∷ alerts) =
      ap (λ rest. columns_of alert ∷ rest) (persist_alerts-columns new_id (k + 1) alerts)

  dispatch_each-columns :
      {W : Type 0} (channels : List (Channel (Payload Num) W)) (clock : ℕ → ℕ) (rows : List (Row f))
      (w : W)
      → map columns (dispatch_each f channels clock rows w).0 ≡ map columns rows
  unfolding dispatch_each
  dispatch_each-columns channels clock [] w = refl
  dispatch_each-columns channels clock (row ∷ rows) w =
      let sent = dispatch channels (clock row.id) row w in
      cc (
        ap columns (dispatch-sent_at channels (clock row.id) row w),
        dispatch_each-columns channels clock rows sent.2,
      )

  -- A run whose detectors find some alerts returns one new row for each of them, in their order,
  -- with the columns of the alert, and commits these rows behind those of the table, whatever the
  -- channels return or raise.
  pub run_once-rows :
      {W : Type 0} (i : Inputs f) (get : String → W → FredReply Num × W) (new_id : ℕ → ℕ)
      (channels : List (Channel (Payload Num) W)) (clock : ℕ → ℕ) (table : List (Row f)) (w : W)
      (alerts : List (AlertEvent Num))
      → (detect_all f i get w).0 ≡ some alerts
      → (rows : List (Row f)) × ((run_once f i get new_id channels clock table w).0 ≡ some rows)
        × ((run_once f i get new_id channels clock table w).1 ≡ table ++ rows)
        × (map columns rows ≡ map columns_of alerts)
  unfolding run_once run_all
  run_once-rows i get new_id channels clock table w alerts h =
      let w' = (detect_all f i get w).1 in
      let rows = (dispatch_each f channels clock (persist_alerts f new_id 0 alerts) w').0 in
      (
        rows,
        ground arith,
        ground arith,
        dispatch_each-columns channels clock (persist_alerts f new_id 0 alerts) w'
            ∙ persist_alerts-columns new_id 0 alerts,
      )
