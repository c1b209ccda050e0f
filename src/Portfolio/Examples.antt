-- ===== src/Portfolio/Examples.antt =====
-- Tests of symbol lookups and syncs, with amounts in hundredths.
use nivara.Prelude.{◌+◌, ◌≡◌, refl, true, none, some, List, [], ◌∷◌, length}
use nivara.Decimals.{hundredths}
use nivara.Portfolio.Symbols.{
  Instrument, SymbolMapping, Texts, found, normalize_symbol, normalize_clean, infer, candidate,
  create_mapping, broker_exchange_to_canonical,
}
use nivara.Portfolio.Symbols.Laws.{normalize_symbol_again, OwnIds}
use nivara.Portfolio.Sync.{
  done, multiple_results_found, broker_error, fetched, Position, NormalizedPosition,
  PositionsSynced, sync_positions, position_loop, sync_position, finish_positions, upsert_position,
  update_position, close_missing, has_duplicate, positions_fetch_failed,
}
use nivara.Portfolio.Sync.Reconcile.{others, reconciled}
use nivara.Portfolio.Sync.Rows.{AllSettled}
use nivara.Portfolio.Sync.Reports.{reported, sync_positions-reported}
use nivara.Portfolio.Orders.{
  NormalizedOrder, OrdersSynced, sync_orders, order_loop, sync_order, finish_orders, upsert_order,
  new_order, violates_key, order_status_to_db,
}
use nivara.Portfolio.Orders.Kept.{sync_orders-two_listings}
use nivara.Portfolio.Connection.{Tables, sync_connection, conclude, failed_fetch_closes}

abbrev plain : Texts
plain = record { strip = λ t. t; upper = λ t. t; lower = λ t. t }

abbrev reliance_nse : Instrument
reliance_nse = record { id = 1; symbol = "RELIANCE"; exchange = "NSE" }

abbrev reliance_bse : Instrument
reliance_bse = record { id = 2; symbol = "RELIANCE"; exchange = "BSE" }

abbrev listed : List Instrument
listed = reliance_nse ∷ reliance_bse ∷ []

own : OwnIds listed listed
own = (refl, (refl, tt))

abbrev nse_mapping : SymbolMapping
nse_mapping = record {
  instrument_id = 1;
  broker = "zerodha";
  broker_symbol = "RELIANCE";
  broker_exchange = some "NSE";
}

first_lookup :
    normalize_symbol plain listed "zerodha" "RELIANCE" (some "NSE") []
    ≡ (found reliance_nse, nse_mapping ∷ [])
unfolding normalize_symbol normalize_clean infer candidate create_mapping
    broker_exchange_to_canonical
first_lookup = refl

normalize_symbol_again_example :
    normalize_symbol plain listed "zerodha" "RELIANCE" (some "NSE") (nse_mapping ∷ [])
    ≡ (found reliance_nse, nse_mapping ∷ [])
normalize_symbol_again_example =
    normalize_symbol_again plain listed "zerodha" "RELIANCE" (some "NSE") reliance_nse []
      (nse_mapping ∷ []) own tt first_lookup

abbrev held : Position hundredths
held = record {
  broker_connection_id = 5;
  instrument_id = 2;
  quantity = 300;
  avg_cost = 1000;
  currency = "INR";
  as_of = 1;
}

abbrev report : NormalizedPosition hundredths
report = record {
  broker_symbol = "RELIANCE";
  exchange = some "NSE";
  quantity = 200;
  avg_entry_price = 1100;
  currency = "INR";
}

-- One report of another instrument: the position held before is closed.
abbrev synced : PositionsSynced hundredths
synced = record {
  positions =
      record held { quantity = 0; as_of = 9 }
      ∷ record {
        broker_connection_id = 5;
        instrument_id = 1;
        quantity = 200;
        avg_cost = 1100;
        currency = "INR";
        as_of = 9;
      }
      ∷ [];
  mappings = nse_mapping ∷ [];
  upserted = 1;
  closed = 1;
  skipped = 0;
  warnings = [];
}

positions_run :
    sync_positions hundredths plain listed 5 "zerodha" (report ∷ []) 9 (held ∷ []) [] ≡ done synced
unfolding sync_positions position_loop sync_position finish_positions upsert_position
    update_position close_missing has_duplicate normalize_symbol normalize_clean infer candidate
    create_mapping broker_exchange_to_canonical
positions_run = refl

sync_positions-reported_example :
    let log = reported hundredths plain listed 5 "zerodha" (report ∷ []) [] [] in
    (synced.upserted ≡ length log)
    × (synced.upserted + synced.skipped ≡ 1)
    × (others hundredths 5 synced.positions ≡ [])
    × AllSettled hundredths 5 log synced.positions
sync_positions-reported_example =
    sync_positions-reported hundredths plain listed 5 "zerodha" (report ∷ []) 9 (held ∷ []) []
      synced refl positions_run

abbrev bought : NormalizedOrder hundredths
bought = record {
  broker_symbol = "RELIANCE";
  broker_order_id = "A1";
  side = "buy";
  order_type = "market";
  quantity = 200;
  limit_price = none;
  status = "filled";
}

abbrev orders_synced : OrdersSynced hundredths
orders_synced = record {
  orders = new_order hundredths 5 1 bought ∷ [];
  mappings = record nse_mapping { broker_exchange = none } ∷ [];
  upserted = 1;
  warnings = [];
}

orders_run :
    sync_orders hundredths plain (reliance_nse ∷ []) 5 "zerodha" (bought ∷ []) [] []
    ≡ done orders_synced
unfolding sync_orders order_loop sync_order finish_orders upsert_order violates_key normalize_symbol
    normalize_clean infer candidate create_mapping new_order order_status_to_db
orders_run = refl

sync_orders-two_listings_example :
    sync_orders hundredths plain listed 5 "zerodha" (bought ∷ []) [] [] ≡ multiple_results_found
sync_orders-two_listings_example =
    sync_orders-two_listings hundredths plain listed 5 "zerodha" bought [] [] [] reliance_nse
      reliance_bse [] refl refl

abbrev tables : Tables hundredths
tables = record { positions = held ∷ []; orders = []; mappings = []; audit = [] }

abbrev outage : PositionsSynced hundredths
outage = record {
  positions = record held { quantity = 0; as_of = 9 } ∷ [];
  mappings = [];
  upserted = 0;
  closed = 1;
  skipped = 0;
  warnings = [];
}

abbrev no_orders : OrdersSynced hundredths
no_orders = record { orders = []; mappings = []; upserted = 0; warnings = [] }

outage_run :
    sync_connection hundredths plain listed 5 "zerodha" 7 9
      (broker_error "down")
      (fetched [])
      tables
    ≡ done (
        conclude hundredths plain listed 5 "zerodha" 7 9
          (positions_fetch_failed "down" ∷ [])
          []
          tables
          outage
          no_orders)
unfolding sync_connection conclude sync_positions position_loop finish_positions close_missing
    has_duplicate sync_orders order_loop finish_orders violates_key
outage_run = refl

failed_fetch_closes_example :
    reconciled hundredths 5 []
      (conclude hundredths plain listed 5 "zerodha" 7 9
        (positions_fetch_failed "down" ∷ [])
        []
        tables
        outage
        no_orders).1.positions
    ≡ true
failed_fetch_closes_example =
    failed_fetch_closes hundredths plain listed 5 "zerodha" 7 9 "down" (fetched []) tables
      (conclude hundredths plain listed 5 "zerodha" 7 9 (positions_fetch_failed "down" ∷ []) []
        tables outage no_orders).1
      (conclude hundredths plain listed 5 "zerodha" 7 9 (positions_fetch_failed "down" ∷ []) []
        tables outage no_orders).0
      outage_run
