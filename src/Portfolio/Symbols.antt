-- ===== src/Portfolio/Symbols.antt =====
-- `class SymbolMappingService`: the canonical instrument of a broker's symbol. A pair of a symbol and
-- an exchange is unique among the instruments, and a triple of a broker, a symbol and an exchange
-- among the mappings.
pub mod Laws
use Prim.Native.String.{◌++◌ as append}
use nivara.Prelude.{
  ℕ, String, Bool, true, false, ◌&&◌, Option, none, some, List, [], ◌∷◌, ◌++◌, ◌==◌, str_eq,
  if◌then◌else◌,
}

pub record Instrument : Type 0 where
  pub id : ℕ
  pub symbol : String
  pub exchange : String

pub record SymbolMapping : Type 0 where
  pub instrument_id : ℕ
  pub broker : String
  pub broker_symbol : String
  pub broker_exchange : Option String

-- `str.strip`, `str.upper` and `str.lower`
pub record Texts : Type 0 where
  pub strip : String → String
  pub upper : String → String
  pub lower : String → String

abbrev pub same_option : Option String → Option String → Bool
same_option none none = true
same_option (some a) (some b) = str_eq a b
same_option _ _ = false

-- What a lookup finds: `scalar_one_or_none` raises on a second row.
pub data Lookup (A : Type 0) : Type 0 where
  no_row multiple_rows : Lookup A
  one_row : A → Lookup A

-- The result of `normalize_symbol`: an instrument, `SymbolNotMappedError`, or
-- `MultipleResultsFound`.
pub data Normalized : Type 0 where
  found : Instrument → Normalized
  not_mapped ambiguous : Normalized

abbrev pub one_or_none : {A : Type 0} → List A → Lookup A
one_or_none [] = no_row
one_or_none (a ∷ []) = one_row a
one_or_none (a ∷ b ∷ rest) = multiple_rows

abbrev pub mapping_fits : String → String → Option String → SymbolMapping → Bool
mapping_fits broker symbol exchange m =
    str_eq m.broker broker
    && (str_eq m.broker_symbol symbol && same_option m.broker_exchange exchange)

abbrev pub matching : {A : Type 0} → (A → Bool) → List A → List A
matching fits [] = []
matching fits (a ∷ rest) = if fits a then a ∷ matching fits rest else matching fits rest

abbrev pub get_instrument : ℕ → List Instrument → Option Instrument
get_instrument id [] = none
get_instrument id (i ∷ rest) = if i.id == id then some i else get_instrument id rest

-- A condition on the exchange, where one is known.
abbrev pub exchange_fits : Option String → Instrument → Bool
exchange_fits none i = true
exchange_fits (some e) i = str_eq i.exchange e

-- `_broker_exchange_to_canonical`
unfoldable pub broker_exchange_to_canonical : String → String
broker_exchange_to_canonical code =
    if str_eq code "XNSE"
    then "NSE"
    else if str_eq code "XBOM"
    then "BSE"
    else if str_eq code "XNAS"
    then "NASDAQ"
    else if str_eq code "XNYS"
    then "NYSE"
    else code

-- `_YAHOO_SUFFIX.get(exchange, "")`
unfoldable pub yahoo_suffix : String → String
yahoo_suffix exchange =
    if str_eq exchange "NSE" then ".NS" else if str_eq exchange "BSE" then ".BO" else ""

-- INSERT ... ON CONFLICT DO NOTHING. A NULL exchange conflicts with nothing.
unfoldable pub create_mapping : SymbolMapping → List SymbolMapping → List SymbolMapping
create_mapping m rows = elim m.broker_exchange [
  | none ↦ rows ++ m ∷ []
  | some e ↦ elim (matching (mapping_fits m.broker m.broker_symbol (some e)) rows) [
    | [] ↦ rows ++ m ∷ []
    | _ ∷ _ ↦ rows
  ]
]

abbrev pub list_for_instrument : ℕ → List SymbolMapping → List SymbolMapping
list_for_instrument id rows = matching (λ m. m.instrument_id == id) rows

module _ (texts : Texts) (instruments : List Instrument) where
  open texts use {strip, upper, lower}

  -- `none` is the `ValueError` of an unsupported provider.
  unfoldable pub data_symbol : Instrument → String → Option String
  unfolding yahoo_suffix
  data_symbol i provider =
      if str_eq (lower (strip provider)) "yahoo"
      then some (append i.symbol (yahoo_suffix i.exchange))
      else none

  -- `value.strip().upper() if value else None`
  abbrev pub clean_exchange : Option String → Option String
  clean_exchange none = none
  clean_exchange (some e) = if str_eq e "" then none else some (upper (strip e))

  -- `_broker_exchange_to_canonical(be) if be else None`, whose `upper` meets upper case
  abbrev pub inferred_exchange : Option String → Option String
  inferred_exchange none = none
  inferred_exchange (some e) =
      if str_eq e "" then none else some (broker_exchange_to_canonical (upper e))

  unfoldable pub candidate : String → Option String → Lookup Instrument
  candidate symbol exchange = one_or_none (
      matching (λ i. str_eq i.symbol (upper symbol) && exchange_fits (inferred_exchange exchange) i)
        instruments)

  -- The fallback: a candidate becomes a mapping.
  unfoldable pub infer :
      String → String → Option String → List SymbolMapping → Normalized × List SymbolMapping
  unfolding candidate create_mapping
  infer broker symbol exchange rows = elim (candidate symbol exchange) [
    | no_row ↦ (not_mapped, rows)
    | multiple_rows ↦ (ambiguous, rows)
    | one_row i ↦ (
      found i,
      create_mapping
          (record {
            instrument_id = i.id;
            broker = broker;
            broker_symbol = symbol;
            broker_exchange = exchange;
          })
          rows,
    )
  ]

  -- With the symbol stripped and the exchange cleaned.
  unfoldable pub normalize_clean :
      String → String → Option String → List SymbolMapping → Normalized × List SymbolMapping
  unfolding infer
  normalize_clean broker symbol exchange rows =
      elim (one_or_none (matching (mapping_fits broker symbol exchange) rows)) [
        | multiple_rows ↦ (ambiguous, rows)
        | no_row ↦ infer broker symbol exchange rows
        | one_row m ↦ elim (get_instrument m.instrument_id instruments) [
          | some i ↦ (found i, rows)
          | none ↦ infer broker symbol exchange rows
        ]
      ]

  unfoldable pub normalize_symbol :
      String → String → Option String → List SymbolMapping → Normalized × List SymbolMapping
  unfolding normalize_clean
  normalize_symbol broker broker_symbol broker_exchange rows =
      normalize_clean broker (strip broker_symbol) (clean_exchange broker_exchange) rows
