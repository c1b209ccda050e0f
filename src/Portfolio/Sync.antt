-- ===== src/Portfolio/Sync.antt =====
-- `class PortfolioSyncService`: the positions and orders of a connection after what its broker
-- reports. The rows of a table are in the order of insertion. A pair of a connection and an
-- instrument is unique among the positions.
pub mod Reconcile
pub mod Rows
pub mod Reports
use nivara.Prelude.{
  ℕ, suc, ◌+◌, String, Bool, true, false, not, ◌&&◌, ◌||◌, Option, none, some, List, [], ◌∷◌, ◌++◌,
  ◌==◌, str_eq, if◌then◌else◌,
}
use nivara.Decimals.{Decimals}
use nivara.Portfolio.Symbols.{
  Instrument, SymbolMapping, Texts, Normalized, found, not_mapped, ambiguous, normalize_symbol,
}

pub data Warning : Type 0 where
  positions_fetch_failed orders_fetch_failed : String → Warning
  unmapped_symbol unmapped_order_symbol : String → Warning

-- What a sync returns, or the error of the database that it does not catch.
pub data Synced (A : Type 0) : Type 0 where
  done : A → Synced A
  multiple_results_found integrity_error : Synced A

infixl 5 ◌>>=◌
abbrev pub ◌>>=◌ : {A B : Type 0} → Synced A → (A → Synced B) → Synced B
done a >>= f = f a
multiple_results_found >>= f = multiple_results_found
integrity_error >>= f = integrity_error

-- What the broker answers, or its `BrokerAPIError`.
pub data Fetched (A : Type 0) : Type 0 where
  fetched : List A → Fetched A
  broker_error : String → Fetched A

-- The answer to work with, and the warnings.
abbrev pub fetched_or : {A : Type 0} → (String → Warning) → Fetched A → List A × List Warning
fetched_or warn (fetched as_list) = (as_list, [])
fetched_or warn (broker_error e) = ([], warn e ∷ [])

abbrev pub mem : ℕ → List ℕ → Bool
mem x [] = false
mem x (y ∷ ys) = x == y || mem x ys

module _ (d : Decimals) where
  open d use {Num, zero, leb}

  pub record Position : Type 0 where
    pub broker_connection_id : ℕ
    pub instrument_id : ℕ
    pub quantity : Num
    pub avg_cost : Num
    pub currency : String
    pub as_of : ℕ

  pub record NormalizedPosition : Type 0 where
    pub broker_symbol : String
    pub exchange : Option String
    pub quantity : Num
    pub avg_entry_price : Num
    pub currency : String

  -- `quantity == 0`
  abbrev pub is_zero : Num → Bool
  is_zero q = leb q zero && leb zero q

  abbrev pub position_fits : ℕ → ℕ → Position → Bool
  position_fits conn inst p = p.broker_connection_id == conn && p.instrument_id == inst

  -- Whether `existing_by_instrument` has the instrument.
  abbrev pub has_position : ℕ → ℕ → List Position → Bool
  has_position conn inst [] = false
  has_position conn inst (p ∷ rows) = position_fits conn inst p || has_position conn inst rows

  unfoldable pub update_position : ℕ → ℕ → NormalizedPosition → ℕ → List Position → List Position
  update_position conn inst bp now [] = []
  update_position conn inst bp now (p ∷ rows) =
      if position_fits conn inst p
      then record p {
        quantity = bp.quantity;
        avg_cost = bp.avg_entry_price;
        currency = bp.currency;
        as_of = now;
      }
        ∷ rows
      else p ∷ update_position conn inst bp now rows

  -- What the loop over the broker's positions has done. `rows` were there before it, `added` were not.
  pub record Progress : Type 0 where
    pub rows : List Position
    pub added : List Position
    pub mappings : List SymbolMapping
    pub seen : List ℕ
    pub upserted : ℕ
    pub skipped : ℕ
    pub warnings : List Warning

  -- An instrument that is not among the rows from before is added, also a second time.
  unfoldable pub upsert_position : ℕ → ℕ → NormalizedPosition → ℕ → Progress → Progress
  unfolding update_position
  upsert_position conn inst bp now t =
      let marked = record t { seen = inst ∷ t.seen; upserted = suc t.upserted } in
      if has_position conn inst t.rows
      then record marked { rows = update_position conn inst bp now t.rows }
      else record marked {
        added =
            t.added
            ++ record {
              broker_connection_id = conn;
              instrument_id = inst;
              quantity = bp.quantity;
              avg_cost = bp.avg_entry_price;
              currency = bp.currency;
              as_of = now;
            }
              ∷ [];
      }

  abbrev pub skip : String → Progress → Progress
  skip symbol t = record t {
    skipped = suc t.skipped;
    warnings = t.warnings ++ unmapped_symbol symbol ∷ [];
  }

  -- Positions of the connection that were not seen are closed.
  unfoldable pub close_missing : ℕ → List ℕ → ℕ → List Position → List Position × ℕ
  close_missing conn seen now [] = ([], 0)
  close_missing conn seen now (p ∷ rows) =
      let (rest, closed) = close_missing conn seen now rows in
      if not (p.broker_connection_id == conn) || mem p.instrument_id seen
      then (p ∷ rest, closed)
      else if is_zero p.quantity
      then (record p { as_of = now } ∷ rest, closed)
      else (record p { quantity = zero; as_of = now } ∷ rest, suc closed)

  -- The unique constraint, checked at the flush: no two of the new rows have one instrument.
  unfoldable pub has_duplicate : List Position → Bool
  has_duplicate [] = false
  has_duplicate (p ∷ rows) =
      has_position p.broker_connection_id p.instrument_id rows || has_duplicate rows

  pub record PositionsSynced : Type 0 where
    pub positions : List Position
    pub mappings : List SymbolMapping
    pub upserted : ℕ
    pub closed : ℕ
    pub skipped : ℕ
    pub warnings : List Warning

  unfoldable pub finish_positions : ℕ → ℕ → Progress → Synced PositionsSynced
  unfolding close_missing has_duplicate
  finish_positions conn now t =
      let (rows, closed) = close_missing conn t.seen now t.rows in
      if has_duplicate t.added
      then integrity_error
      else done (record {
        positions = rows ++ t.added;
        mappings = t.mappings;
        upserted = t.upserted;
        closed = closed;
        skipped = t.skipped;
        warnings = t.warnings;
      })

  module _ (texts : Texts) (instruments : List Instrument) (conn : ℕ) (broker : String) where
    abbrev pub apply_position : ℕ → NormalizedPosition → Normalized → Progress → Synced Progress
    apply_position now bp (found i) t = done (upsert_position conn i.id bp now t)
    apply_position now bp not_mapped t = done (skip bp.broker_symbol t)
    apply_position now bp ambiguous t = multiple_results_found

    unfoldable pub sync_position : ℕ → NormalizedPosition → Progress → Synced Progress
    sync_position now bp t =
        let (r, mappings) =
          normalize_symbol texts instruments broker bp.broker_symbol bp.exchange t.mappings in
        apply_position now bp r (record t { mappings = mappings })

    unfoldable pub position_loop : ℕ → List NormalizedPosition → Progress → Synced Progress
    unfolding sync_position
    position_loop now [] t = done t
    position_loop now (bp ∷ bps) t = sync_position now bp t >>= λ t'. position_loop now bps t'

    unfoldable pub sync_positions :
        List NormalizedPosition → ℕ → List Position → List SymbolMapping → Synced PositionsSynced
    unfolding position_loop finish_positions
    sync_positions bps now positions mappings =
        position_loop now bps (record {
          rows = positions;
          added = [];
          mappings = mappings;
          seen = [];
          upserted = 0;
          skipped = 0;
          warnings = [];
        })
        >>= λ t. finish_positions conn now t
