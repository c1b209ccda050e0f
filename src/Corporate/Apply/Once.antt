-- ===== src/Corporate/Apply/Once.antt =====
-- A split is applied once (backend/app/services/corporate_actions.py).
use Prim.Native.String.{◌++◌ as append}
use nivara.Prelude.{
  ℕ, String, true, Option, none, some, List, [], ◌∷◌, ◌≡◌, refl, arith, Option-cases, inl, inr,
}
use nivara.Texts.{contains_text-append}
use nivara.Decimals.{Decimals}
use nivara.Corporate.Actions.{CorporateAction, SplitDetection, State, find_action, applied_marker}
use nivara.Corporate.Apply.{updated, is_applied, mark, mark_action, adjust, apply_split}

mark-is_applied : (notes : Option String) → is_applied (some (mark notes)) ≡ true
mark-is_applied none = refl
mark-is_applied (some String.[]) = refl
mark-is_applied (some (String.◌∷◌ c s)) =
    contains_text-append (append (String.◌∷◌ c s) " ") applied_marker

module _ (d : Decimals) (store_volume : d.Num → ℕ → ℕ) where
  find_action-mark_action :
      (id : ℕ) (rows : List (CorporateAction d)) (row : CorporateAction d)
      → find_action d id rows ≡ some row
      → find_action d id (mark_action d store_volume id rows)
        ≡ some (record row { notes = some (mark row.notes) })
  find_action-mark_action id [] row h = absurd (ground arith)
  find_action-mark_action id (r ∷ rows) row h = ground (arith, find_action-mark_action id rows row)

  -- After `apply_split` has returned a number of rows, another call for the same corporate action,
  -- with any user and any settings, returns zero and changes nothing: no price, cache entry or audit
  -- row.
  pub apply_split-again :
      (days days' : ℕ) (fails fails' user user' : Option ℕ) (det det' : SplitDetection d)
      (s : State d) (n : ℕ)
      → det'.corporate_action_id ≡ det.corporate_action_id
      → (apply_split d store_volume days fails user det s).0 ≡ updated n
      → apply_split d store_volume days' fails' user' det'
          (apply_split d store_volume days fails user det s).1
        ≡ (updated 0, (apply_split d store_volume days fails user det s).1)
  unfolding apply_split adjust
  apply_split-again days days' fails fails' user user' det det' s n same h =
      elim (Option-cases (find_action d det.corporate_action_id s.actions)) [
        | inl e ↦ absurd (ground arith)
        | inr (row, e) ↦ ground (
          arith,
          find_action-mark_action det.corporate_action_id s.actions row,
          mark-is_applied row.notes,
        )
      ]
