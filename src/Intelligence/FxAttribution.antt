-- ===== src/Intelligence/FxAttribution.antt =====
-- backend/app/intelligence/fx_attribution.py. Python's `upper`, the literal 100, `quantize` to one
-- decimal place, which raises where the result has too many digits, and the format `.1f` are arguments.
-- A positive divisor neither divides by zero nor is invalid, so the `except` around the divisions is
-- left out.
use Prim.Native.String.{◌++◌ as append}
use nivara.Prelude.{
  String, false, not, Option, none, some, List, [], ◌∷◌, ◌≡◌, str_eq, arith, if◌then◌else◌,
}
use nivara.Decimals.{Decimals}

infixl 10 ◌>>=◌
-- An error of `quantize` ends the call.
abbrev ◌>>=◌ : {A B : Type 0} → Option A → (A → Option B) → Option B
none >>= k = none
(some a) >>= k = k a

module _ (d : Decimals) where
  open d use {Num}

  pub record FxAttribution : Type 0 where
    pub stock_return_pct : Num
    pub fx_impact_pct : Num
    pub base_return_pct : Num
    pub note_text : String

  -- What a call gives: `None`, a `ValueError` for the named input, the error of `quantize`, or a value.
  pub data Outcome : Type 0 where
    same_currency : Outcome
    value_error : String → Outcome
    invalid_operation : Outcome
    attributed : FxAttribution → Outcome

  pub record Inputs : Type 0 where
    pub cost_basis_native : Num
    pub current_price_native : Num
    pub native_ccy : String
    pub base_ccy : String
    pub fx_at_open : Num
    pub fx_current : Num
    pub symbol : Option String

  -- The first input of the list that is not above zero.
  abbrev pub first_nonpositive : List (String × Num) → Option String
  first_nonpositive [] = none
  first_nonpositive ((name, val) ∷ rest) =
      if d.leb val d.zero then some name else first_nonpositive rest

  abbrev pub checked_inputs : Inputs → List (String × Num)
  checked_inputs i =
      ("cost_basis_native", i.cost_basis_native)
      ∷ ("current_price_native", i.current_price_native)
      ∷ ("fx_at_open", i.fx_at_open)
      ∷ ("fx_current", i.fx_current)
      ∷ []

module _ (d : Decimals) (upper : String → String) (hundred : d.Num)
    (quantize : d.Num → Option d.Num) (fixed_1 : d.Num → String) where
  open d use {Num}

  -- `_fmt_pct`
  abbrev pub fmt_pct : Num → String
  fmt_pct value = append (if d.leb d.zero value then "+" else "") (append (fixed_1 value) "%")

  -- `_currency_move_phrase`
  abbrev pub currency_move_phrase : String → Num → Option String
  currency_move_phrase ccy pct = elim (quantize (d.abs pct)) [
    | none ↦ none
    | some abs_pct ↦ some (
        if not (d.leb pct d.zero)
        then append ccy (append " weakened " (append (d.text abs_pct) "%"))
        else if not (d.leb d.zero pct)
        then append ccy (append " strengthened " (append (d.text abs_pct) "%"))
        else append ccy " flat")
  ]

  abbrev pub label_of : Option String → String
  label_of none = "Position"
  label_of (some symbol) = if str_eq symbol "" then "Position" else symbol

  abbrev pub note_of : Inputs d → Num → String → Num → String
  note_of i stock move base = append (label_of i.symbol) (
      append " " (
        append (fmt_pct stock) (
          append " " (
            append (upper i.native_ccy) (
              append ", " (
                append move (
                  append ", your "
                    (append (upper i.base_ccy) (append " return: " (fmt_pct base))))))))))

  -- A ratio as a percentage of change.
  abbrev pub change_of : Num → Num
  change_of ratio = d.mul (d.sub ratio d.one) hundred

  unfoldable pub attribute : Inputs d → Num → Num → Option (FxAttribution d)
  attribute i stock_ratio fx_ratio = do
    stock ← quantize (change_of stock_ratio)
    fx ← quantize (change_of fx_ratio)
    base ← quantize (change_of (d.mul stock_ratio fx_ratio))
    move ← currency_move_phrase (upper i.base_ccy) fx
    some (record {
      stock_return_pct = stock;
      fx_impact_pct = fx;
      base_return_pct = base;
      note_text = note_of i stock move base;
    })

  -- `compute_fx_attribution`
  unfoldable pub compute_fx_attribution : Inputs d → Outcome d
  compute_fx_attribution i =
      if str_eq (upper i.native_ccy) (upper i.base_ccy)
      then same_currency
      else elim (first_nonpositive d (checked_inputs d i)) [
        | some name ↦ value_error name
        | none ↦
            elim (attribute i (d.div i.current_price_native i.cost_basis_native)
              (d.div i.fx_current i.fx_at_open)) [
                | none ↦ invalid_operation
                | some out ↦ attributed out
              ]
      ]

  -- An attribution stands for inputs in two currencies, all above zero.
  pub attributed-positive :
      (i : Inputs d) (out : FxAttribution d)
      → compute_fx_attribution i ≡ attributed out
      → (str_eq (upper i.native_ccy) (upper i.base_ccy) ≡ false)
        × (first_nonpositive d (checked_inputs d i) ≡ none)
  unfolding compute_fx_attribution
  attributed-positive i out h = ground arith
