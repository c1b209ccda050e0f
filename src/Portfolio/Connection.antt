-- ===== src/Portfolio/Connection.antt =====
-- `PortfolioSyncService.sync_connection`.
use nivara.Prelude.{
  ℕ, String, ◌≡◌, refl, true, none, some, List, [], ◌∷◌, ◌++◌, arith, length, ap, sym,
}
use nivara.Decimals.{Decimals}
use nivara.Safety.Audit.{AuditLog, record_entry, event_portfolio_sync}
use nivara.Portfolio.Symbols.{Instrument, SymbolMapping, Texts}
use nivara.Portfolio.Sync.{
  Warning, positions_fetch_failed, orders_fetch_failed, Synced, done, ◌>>=◌, Fetched, broker_error,
  fetched_or, Position, NormalizedPosition, PositionsSynced, sync_positions,
}
use nivara.Portfolio.Sync.Reconcile.{bind_done, done_inj, reconciled, sync_positions-reconciled}
use nivara.Portfolio.Orders.{Order, NormalizedOrder, OrdersSynced, sync_orders}

pub record SyncSummary : Type 0 where
  pub broker_connection_id : ℕ
  pub synced_at : ℕ
  pub positions_upserted : ℕ
  pub positions_closed : ℕ
  pub orders_upserted : ℕ
  pub positions_skipped : ℕ
  pub warnings : List Warning

-- The `event_data` of the audit row: the summary with the broker's name.
pub record SyncEvent : Type 0 where
  pub broker : String
  pub summary : SyncSummary

length_zero : {A : Type 0} (xs : List A) → length xs ≡ 0 → xs ≡ []
length_zero [] h = refl
length_zero (x ∷ xs) h = cc h

module _ (d : Decimals) where
  pub record Tables : Type 0 where
    pub positions : List (Position d)
    pub orders : List (Order d)
    pub mappings : List SymbolMapping
    pub audit : List (AuditLog SyncEvent)

  unfoldable pub summary_of :
      ℕ → ℕ → PositionsSynced d → OrdersSynced d → List Warning → List Warning → SyncSummary
  summary_of conn now p o position_warnings order_warnings = record {
    broker_connection_id = conn;
    synced_at = now;
    positions_upserted = p.upserted;
    positions_closed = p.closed;
    orders_upserted = o.upserted;
    positions_skipped = p.skipped;
    warnings = position_warnings ++ p.warnings ++ order_warnings ++ o.warnings;
  }

  module _ (texts : Texts) (instruments : List Instrument) (conn : ℕ) (broker : String) where
    -- The audit row, the summary and the tables.
    unfoldable pub conclude :
        ℕ
        → ℕ
        → List Warning
        → List Warning
        → Tables
        → PositionsSynced d
        → OrdersSynced d
        → SyncSummary × Tables
    unfolding summary_of
    conclude user_id now position_warnings order_warnings s p o =
        let summary = summary_of conn now p o position_warnings order_warnings in
        (
          summary,
          record {
            positions = p.positions;
            orders = o.orders;
            mappings = o.mappings;
            audit =
                record_entry
                  (record {
                    user_id = some user_id;
                    event_type = event_portfolio_sync;
                    event_data = some (record { broker = broker; summary = summary });
                    ip_address = none;
                    user_agent = none;
                  })
                  s.audit;
          },
        )

    -- The second half, behind the positions.
    abbrev pub then_orders :
        ℕ
        → ℕ
        → List Warning
        → Fetched (NormalizedOrder d)
        → Tables
        → PositionsSynced d
        → Synced (SyncSummary × Tables)
    then_orders user_id now position_warnings broker_orders s p =
        let (bos, order_warnings) = fetched_or orders_fetch_failed broker_orders in
        sync_orders d texts instruments conn broker bos s.orders p.mappings >>= λ o.
        done (conclude user_id now position_warnings order_warnings s p o)

    unfoldable pub sync_connection :
        ℕ
        → ℕ
        → Fetched (NormalizedPosition d)
        → Fetched (NormalizedOrder d)
        → Tables
        → Synced (SyncSummary × Tables)
    unfolding conclude
    sync_connection user_id now broker_positions broker_orders s =
        let (bps, position_warnings) = fetched_or positions_fetch_failed broker_positions in
        sync_positions d texts instruments conn broker bps now s.positions s.mappings
        >>= then_orders user_id now position_warnings broker_orders s

    -- What is stored is what the sync of positions returns.
    stored_positions :
        (user_id now : ℕ) (broker_positions : Fetched (NormalizedPosition d))
        (broker_orders : Fetched (NormalizedOrder d)) (s s' : Tables) (summary : SyncSummary)
        → sync_connection user_id now broker_positions broker_orders s ≡ done (summary, s')
        → (p : PositionsSynced d) × (sync_positions d texts instruments conn broker
              (fetched_or positions_fetch_failed broker_positions).0
              now
              s.positions
              s.mappings
            ≡ done p)
          × (s'.positions ≡ p.positions)
    unfolding sync_connection conclude
    stored_positions user_id now broker_positions broker_orders s s' summary h =
        let (bps, position_warnings) = fetched_or positions_fetch_failed broker_positions in
        let (bos, order_warnings) = fetched_or orders_fetch_failed broker_orders in
        let (p, synced, rest) =
          bind_done (sync_positions d texts instruments conn broker bps now s.positions s.mappings)
            (then_orders user_id now position_warnings broker_orders s) (summary, s') h in
        let (o, ordered, stored) =
          bind_done (sync_orders d texts instruments conn broker bos s.orders p.mappings)
            (λ o. done (conclude user_id now position_warnings order_warnings s p o)) (summary, s')
            rest in
        (p, synced, ap (λ r. r.1.positions) (sym (done_inj stored)))

    -- When the broker does not answer the request for positions and the sync returns, no position of
    -- the connection has a quantity any more.
    pub failed_fetch_closes :
        (user_id now : ℕ) (e : String) (broker_orders : Fetched (NormalizedOrder d)) (s s' : Tables)
        (summary : SyncSummary)
        → sync_connection user_id now (broker_error e) broker_orders s ≡ done (summary, s')
        → reconciled d conn [] s'.positions ≡ true
    unfolding sync_connection
    failed_fetch_closes user_id now e broker_orders s s' summary h =
        let (p, synced, same) =
          stored_positions user_id now (broker_error e) broker_orders s s' summary h in
        let (counted, kept, (seen, many, ok)) =
          sync_positions-reconciled d texts instruments conn broker [] now s.positions s.mappings p
            synced in
        rw (same, ← length_zero seen (omega (arith, counted, many))) ok
