-- ===== src/Corporate/Apply/Rows.antt =====
-- What one application of a split changes (backend/app/services/corporate_actions.py).
use nivara.Prelude.{
  ℕ, ◌+◌, ◌-◌, ◌*◌, ◌/◌, Bool, false, ◌&&◌, ltb, leb, Option, none, some, List, [], ◌∷◌, ◌≡◌, refl,
  ◌==◌, arith, map, if◌then◌else◌, length,
}
use nivara.Decimals.{Decimals}
use nivara.Corporate.Actions.{
  CorporateAction, PriceHistory, SplitDetection, State, CacheKey, tech, find_action,
  seconds_per_day,
}
use nivara.Corporate.Apply.{
  updated, is_applied, one_less, invalidate, in_window, scale, update_history, window_start, adjust,
  apply_split,
}

abbrev pub keys_of_others : ℕ → List CacheKey → List CacheKey
keys_of_others id [] = []
keys_of_others id (tech i rest ∷ keys) =
    if i == id then keys_of_others id keys else tech i rest ∷ keys_of_others id keys

invalidate-none :
    (id : ℕ) (keys : List CacheKey) → (invalidate none id keys).0 ≡ keys_of_others id keys
unfolding invalidate
invalidate-none id [] = refl
invalidate-none id (tech i rest ∷ keys) = ground (arith, invalidate-none id keys)

-- Whatever deletion fails, the cached indicators of other instruments stay in the cache, and the
-- number that is reported is the number of keys that are gone.
pub invalidate-others :
    (left : Option ℕ) (id : ℕ) (keys : List CacheKey)
    → (keys_of_others id (invalidate left id keys).0 ≡ keys_of_others id keys)
      × ((invalidate left id keys).1 + length (invalidate left id keys).0 ≡ length keys)
unfolding invalidate
invalidate-others left id [] = (refl, omega arith)
invalidate-others left id (tech i rest ∷ keys) =
    ground (arith, invalidate-others left id keys, invalidate-others (one_less left) id keys)

-- Whether a time lies on one of the days from `days` before the ex-date up to, not at, the ex-date.
abbrev pub is_before_ex : ℕ → ℕ → ℕ → Bool
is_before_ex days ex_date time =
    let day = time / 86400 in if ltb day ex_date then leb ex_date (day + days) else false

window_lem :
    (days ex_date time : ℕ)
    → (leb ((ex_date - days) * 86400) time && ltb time (ex_date * 86400))
      ≡ is_before_ex days ex_date time
window_lem days ex_date time = ground arith

module _ (d : Decimals) (store_volume : d.Num → ℕ → ℕ) where
  -- What a bar becomes: inside the window the four prices are multiplied by the factor, and the
  -- volume is stored after a multiplication by its inverse, or by one where the factor is zero.
  abbrev pub rescale : ℕ → ℕ → ℕ → d.Num → PriceHistory d → PriceHistory d
  rescale id days ex_date factor row =
      if (row.instrument_id == id) && is_before_ex days ex_date row.timestamp
      then record {
        instrument_id = row.instrument_id;
        timestamp = row.timestamp;
        open_price = d.mul row.open_price factor;
        high = d.mul row.high factor;
        low = d.mul row.low factor;
        close = d.mul row.close factor;
        volume =
            if d.eq factor d.zero
            then store_volume d.one row.volume
            else store_volume (d.div d.one factor) row.volume;
      }
      else row

  abbrev pub bars_before_ex : ℕ → ℕ → ℕ → List (PriceHistory d) → ℕ
  bars_before_ex id days ex_date [] = 0
  bars_before_ex id days ex_date (row ∷ rows) =
      (if (row.instrument_id == id) && is_before_ex days ex_date row.timestamp then 1 else 0)
      + bars_before_ex id days ex_date rows

  update_row :
      (id days ex_date : ℕ) (factor : d.Num) (row : PriceHistory d)
      → (if in_window d store_volume id
            (window_start d store_volume days ex_date)
            (ex_date * seconds_per_day)
            row
          then scale d store_volume factor row
          else row)
        ≡ rescale id days ex_date factor row
  update_row id days ex_date factor row = ground (arith, window_lem days ex_date row.timestamp)

  update_history-rescale :
      (id days ex_date : ℕ) (factor : d.Num) (rows : List (PriceHistory d))
      → update_history d store_volume id
          (window_start d store_volume days ex_date)
          (ex_date * seconds_per_day)
          factor
          rows
        ≡ (map (rescale id days ex_date factor) rows, bars_before_ex id days ex_date rows)
  unfolding update_history
  update_history-rescale id days ex_date factor [] = refl
  update_history-rescale id days ex_date factor (row ∷ rows) = ground (
    arith,
    update_history-rescale id days ex_date factor rows,
    update_row id days ex_date factor row,
    window_lem days ex_date row.timestamp,
  )

  -- Applying a recorded split that is not marked yet multiplies the four prices of exactly the bars of
  -- its instrument on the days from the start of the window up to, not at, the ex-date by the factor,
  -- and their volume by its inverse; it returns their number, and, where the cache does not fail,
  -- leaves exactly the cached indicators of other instruments.
  pub apply_split-rows :
      (days : ℕ) (user : Option ℕ) (det : SplitDetection d) (s : State d) (row : CorporateAction d)
      → find_action d det.corporate_action_id s.actions ≡ some row
      → is_applied row.notes ≡ false
      → let r = apply_split d store_volume days none user det s in
        (r.0 ≡ updated (bars_before_ex det.instrument_id days det.ex_date s.history))
        × (r.1.history ≡ map (rescale det.instrument_id days det.ex_date det.factor) s.history)
        × (r.1.cache ≡ keys_of_others det.instrument_id s.cache)
  unfolding apply_split adjust
  apply_split-rows days user det s row found fresh = ground (
    arith,
    update_history-rescale det.instrument_id days det.ex_date det.factor s.history,
    invalidate-none det.instrument_id s.cache,
  )
