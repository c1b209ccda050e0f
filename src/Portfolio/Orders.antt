-- ===== src/Portfolio/Orders.antt =====
-- `PortfolioSyncService._sync_orders`. An order's idempotency key is unique.
pub mod Kept
use nivara.Prelude.{
  ℕ, suc, ◌+◌, String, Bool, true, false, not, ◌&&◌, ◌||◌, Option, none, some, List, [], ◌∷◌, ◌++◌,
  ◌==◌, str_eq, if◌then◌else◌,
}
use nivara.Decimals.{Decimals}
use nivara.Portfolio.Symbols.{
  Instrument, SymbolMapping, Texts, Normalized, found, not_mapped, ambiguous, normalize_symbol,
}
use nivara.Portfolio.Sync.{
  Warning, unmapped_order_symbol, Synced, done, multiple_results_found, integrity_error, ◌>>=◌,
}

-- `_ORDER_STATUS_TO_DB.get(status, "pending")`
unfoldable pub order_status_to_db : String → String
order_status_to_db status =
    if str_eq status "new"
    then "submitted"
    else if str_eq status "partially_filled"
    then "partial"
    else if str_eq status "filled"
    then "filled"
    else if str_eq status "canceled"
    then "cancelled"
    else if str_eq status "rejected"
    then "rejected"
    else if str_eq status "expired"
    then "cancelled"
    else "pending"

abbrev pub order_type_to_db : String → String
order_type_to_db t = if str_eq t "market" || str_eq t "limit" then t else "market"

-- The connection, the instrument and the broker's id that an idempotency key joins.
pub data IdempotencyKey : Type 0 where
  idem_key : ℕ → ℕ → String → IdempotencyKey

module _ (d : Decimals) where
  open d use {Num}

  pub record Order : Type 0 where
    pub broker_connection_id : ℕ
    pub instrument_id : ℕ
    pub side : String
    pub order_type : String
    pub quantity : Num
    pub limit_price : Option Num
    pub status : String
    pub broker_order_id : Option String
    pub idempotency_key : IdempotencyKey

  pub record NormalizedOrder : Type 0 where
    pub broker_symbol : String
    pub broker_order_id : String
    pub side : String
    pub order_type : String
    pub quantity : Num
    pub limit_price : Option Num
    pub status : String

  -- An order of the connection that `by_broker_id` has under this id; `if o.broker_order_id` leaves
  -- out the empty one.
  abbrev pub order_fits : ℕ → String → Order → Bool
  order_fits conn id o = elim o.broker_order_id [
    | none ↦ false
    | some own ↦ o.broker_connection_id == conn && (not (str_eq own "") && str_eq own id)
  ]

  abbrev pub has_order : ℕ → String → List Order → Bool
  has_order conn id [] = false
  has_order conn id (o ∷ rows) = order_fits conn id o || has_order conn id rows

  abbrev pub or_kept : Option Num → Option Num → Option Num
  or_kept none old = old
  or_kept (some p) old = some p

  -- A dict keeps the last of two rows with one id.
  unfoldable pub update_order : ℕ → NormalizedOrder → List Order → List Order
  unfolding order_status_to_db
  update_order conn bo [] = []
  update_order conn bo (o ∷ rows) =
      let rest = update_order conn bo rows in
      if order_fits conn bo.broker_order_id o && not (has_order conn bo.broker_order_id rows)
      then record o {
        status = order_status_to_db bo.status;
        quantity = bo.quantity;
        limit_price = or_kept bo.limit_price o.limit_price;
      }
        ∷ rows
      else o ∷ rest

  unfoldable pub new_order : ℕ → ℕ → NormalizedOrder → Order
  unfolding order_status_to_db
  new_order conn inst bo = record {
    broker_connection_id = conn;
    instrument_id = inst;
    side = bo.side;
    order_type = order_type_to_db bo.order_type;
    quantity = bo.quantity;
    limit_price = bo.limit_price;
    status = order_status_to_db bo.status;
    broker_order_id = some bo.broker_order_id;
    idempotency_key = idem_key conn inst bo.broker_order_id;
  }

  -- `rows` were there before the loop, `added` were not.
  pub record OrderProgress : Type 0 where
    pub rows : List Order
    pub added : List Order
    pub mappings : List SymbolMapping
    pub upserted : ℕ
    pub warnings : List Warning

  unfoldable pub upsert_order : ℕ → ℕ → NormalizedOrder → OrderProgress → OrderProgress
  unfolding update_order new_order
  upsert_order conn inst bo t =
      if has_order conn bo.broker_order_id t.rows
      then record t { rows = update_order conn bo t.rows; upserted = suc t.upserted }
      else record t { added = t.added ++ new_order conn inst bo ∷ []; upserted = suc t.upserted }

  abbrev pub same_idem_key : IdempotencyKey → IdempotencyKey → Bool
  same_idem_key (idem_key c i b) (idem_key c' i' b') = c == c' && (i == i' && str_eq b b')

  abbrev pub has_key : IdempotencyKey → List Order → Bool
  has_key k [] = false
  has_key k (o ∷ rows) = same_idem_key o.idempotency_key k || has_key k rows

  -- The unique constraint, checked at the flush: a new key is neither in the table nor new twice.
  unfoldable pub violates_key : List Order → List Order → Bool
  violates_key rows [] = false
  violates_key rows (o ∷ added) =
      has_key o.idempotency_key rows || (has_key o.idempotency_key added || violates_key rows added)

  pub record OrdersSynced : Type 0 where
    pub orders : List Order
    pub mappings : List SymbolMapping
    pub upserted : ℕ
    pub warnings : List Warning

  unfoldable pub finish_orders : OrderProgress → Synced OrdersSynced
  unfolding violates_key
  finish_orders t =
      if violates_key t.rows t.added
      then integrity_error
      else done (record {
        orders = t.rows ++ t.added;
        mappings = t.mappings;
        upserted = t.upserted;
        warnings = t.warnings;
      })

  module _ (texts : Texts) (instruments : List Instrument) (conn : ℕ) (broker : String) where
    abbrev pub apply_order : NormalizedOrder → Normalized → OrderProgress → Synced OrderProgress
    apply_order bo (found i) t = done (upsert_order conn i.id bo t)
    apply_order bo not_mapped t =
        done (record t { warnings = t.warnings ++ unmapped_order_symbol bo.broker_symbol ∷ [] })
    apply_order bo ambiguous t = multiple_results_found

    -- An order's symbol is looked up without an exchange.
    unfoldable pub sync_order : NormalizedOrder → OrderProgress → Synced OrderProgress
    sync_order bo t =
        let (r, mappings) =
          normalize_symbol texts instruments broker bo.broker_symbol none t.mappings in
        apply_order bo r (record t { mappings = mappings })

    unfoldable pub order_loop : List NormalizedOrder → OrderProgress → Synced OrderProgress
    unfolding sync_order
    order_loop [] t = done t
    order_loop (bo ∷ bos) t = sync_order bo t >>= order_loop bos

    unfoldable pub sync_orders :
        List NormalizedOrder → List Order → List SymbolMapping → Synced OrdersSynced
    unfolding order_loop finish_orders
    sync_orders bos orders mappings =
        order_loop bos
          (record { rows = orders; added = []; mappings = mappings; upserted = 0; warnings = [] })
        >>= finish_orders
