-- ===== src/Corporate/Apply.antt =====
-- `apply_split` and `_invalidate_indicator_cache`. How the database stores a scaled volume in an
-- integer column is a parameter. A failing cache stops the deletion after some keys.
pub mod Once
pub mod Rows
use Prim.Native.String.{◌++◌ as append}
use nivara.Prelude.{
  ℕ, zero, suc, ◌+◌, ◌-◌, ◌*◌, String, Bool, true, false, not, ◌&&◌, Option, none, some, List, [],
  ◌∷◌, ◌++◌, leb, ltb, ◌==◌, if◌then◌else◌,
}
use nivara.Texts.{contains_text}
use nivara.Decimals.{Decimals}
use nivara.Safety.Audit.{record_entry}
use nivara.Corporate.Actions.{
  CorporateAction, PriceHistory, SplitDetection, AppliedData, State, CacheKey, tech, find_action,
  applied_marker, seconds_per_day,
}

-- The number of rows updated, or `ValueError`.
pub data Applied : Type 0 where
  updated : ℕ → Applied
  not_found : Applied

-- `row.notes and APPLIED_MARKER in row.notes`
abbrev pub is_applied : Option String → Bool
is_applied none = false
is_applied (some notes) = contains_text applied_marker notes

-- `(row.notes + " " if row.notes else "") + APPLIED_MARKER`
abbrev pub mark : Option String → String
mark none = applied_marker
mark (some String.[]) = applied_marker
mark (some (String.◌∷◌ c s)) = append (append (String.◌∷◌ c s) " ") applied_marker

-- `scan_iter` and `delete`: the keys that are left and the number of deletions. `left` is how many
-- deletions the cache lets through before it fails, `none` where it does not fail.
abbrev pub one_less : Option ℕ → Option ℕ
one_less none = none
one_less (some zero) = some zero
one_less (some (suc n)) = some n

abbrev pub is_stopped : Option ℕ → Bool
is_stopped (some zero) = true
is_stopped _ = false

unfoldable pub invalidate : Option ℕ → ℕ → List CacheKey → List CacheKey × ℕ
invalidate left id [] = ([], 0)
invalidate left id (tech i rest ∷ keys) =
    if i == id && not (is_stopped left)
    then (let (kept, deleted) = invalidate (one_less left) id keys in (kept, suc deleted))
    else (let (kept, deleted) = invalidate left id keys in (tech i rest ∷ kept, deleted))

module _ (d : Decimals) (store_volume : d.Num → ℕ → ℕ) where
  open d use {Num}

  abbrev pub in_window : ℕ → ℕ → ℕ → PriceHistory d → Bool
  in_window instrument_id window_start ex_cutoff row =
      (row.instrument_id == instrument_id)
      && (leb window_start row.timestamp && ltb row.timestamp ex_cutoff)

  -- The volume times `1 / factor`, or times one for the factor zero.
  abbrev pub vol_factor : Num → Num
  vol_factor factor = if d.eq factor d.zero then d.one else d.div d.one factor

  abbrev pub scale : Num → PriceHistory d → PriceHistory d
  scale factor row = record row {
    open_price = d.mul row.open_price factor;
    high = d.mul row.high factor;
    low = d.mul row.low factor;
    close = d.mul row.close factor;
    volume = store_volume (vol_factor factor) row.volume;
  }

  -- The bulk UPDATE: the rows after it, and its row count.
  unfoldable pub update_history :
      ℕ → ℕ → ℕ → Num → List (PriceHistory d) → List (PriceHistory d) × ℕ
  update_history instrument_id window_start ex_cutoff factor [] = ([], 0)
  update_history instrument_id window_start ex_cutoff factor (row ∷ rows) =
      let (rest, count) = update_history instrument_id window_start ex_cutoff factor rows in
      if in_window instrument_id window_start ex_cutoff row
      then (scale factor row ∷ rest, suc count)
      else (row ∷ rest, count)

  -- `row.notes = new_notes` for the row of the id.
  abbrev pub mark_action : ℕ → List (CorporateAction d) → List (CorporateAction d)
  mark_action id [] = []
  mark_action id (row ∷ rows) =
      if row.id == id
      then record row { notes = some (mark row.notes) } ∷ rows
      else row ∷ mark_action id rows

  abbrev pub window_start : ℕ → ℕ → ℕ
  window_start adjust_history_days ex_date = (ex_date - adjust_history_days) * seconds_per_day

  -- The part behind the guards.
  unfoldable pub adjust : ℕ → Option ℕ → Option ℕ → SplitDetection d → State d → Applied × State d
  unfolding invalidate update_history
  adjust adjust_history_days cache_fails user_id detection s =
      let (history, rows_updated) =
        update_history detection.instrument_id (window_start adjust_history_days detection.ex_date)
          (detection.ex_date * seconds_per_day) detection.factor s.history in
      let (cache, invalidated) = invalidate cache_fails detection.instrument_id s.cache in
      (
        updated rows_updated,
        record {
          actions = mark_action detection.corporate_action_id s.actions;
          history = history;
          cache = cache;
          audit =
              record_entry
                (record {
                  user_id = user_id;
                  event_type = "corporate_action.applied";
                  event_data = some (record {
                    corporate_action_id = detection.corporate_action_id;
                    instrument_id = detection.instrument_id;
                    ex_date = detection.ex_date;
                    factor = detection.factor;
                    rows_updated = rows_updated;
                    cache_keys_invalidated = invalidated;
                  });
                  ip_address = none;
                  user_agent = none;
                })
                s.audit;
        },
      )

  unfoldable pub apply_split :
      ℕ → Option ℕ → Option ℕ → SplitDetection d → State d → Applied × State d
  unfolding adjust
  apply_split adjust_history_days cache_fails user_id detection s =
      elim (find_action d detection.corporate_action_id s.actions) [
        | none ↦ (not_found, s)
        | some row ↦
            if is_applied row.notes
            then (updated 0, s)
            else adjust adjust_history_days cache_fails user_id detection s
      ]
