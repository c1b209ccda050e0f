-- ===== src/Safety/RiskGuardian/Run/Raises.antt =====
-- When a run of the guardian raises (backend/app/safety/risk_guardian.py).
use nivara.Prelude.{
  ℕ, String, Bool, true, false, ◌||◌, none, List, [], ◌∷◌, ◌≡◌, ◌⊎◌, inl, inr, refl, str_eq, eq_iff,
  is_some, arith,
}
use nivara.Floats.{Floats}
use nivara.Notifications.Dispatcher.{Channel}
use nivara.Safety.RiskGuardian.{Payload}
use nivara.Safety.RiskGuardian.Macro.{
  FredReply, http_error, not_json, malformed, observations, fetch_changes, has_key, default_series,
  detect_macro,
}
use nivara.Safety.RiskGuardian.Run.{Inputs, Row, detect_all, run_all, run_once}

abbrev pub contains : String → List String → Bool
contains s [] = false
contains s (x ∷ xs) = str_eq x s || contains s xs

abbrev pub is_json : {F : Type 0} → FredReply F → Bool
is_json http_error = true
is_json not_json = false
is_json malformed = true
is_json (observations list) = true

-- Whether the code can read the answer, or catches what it raises.
abbrev pub is_readable : {F : Type 0} → FredReply F → Bool
is_readable http_error = true
is_readable not_json = false
is_readable malformed = false
is_readable (observations list) = true

module _ (f : Floats) {W : Type 0} (get : String → W → FredReply f.Num × W) where
  open f use {Num}

  fetch_changes-not_json :
      (threshold : Num) (s : String) (series : List String) (w : W)
      → ((v : W) → is_json (get s v).0 ≡ false)
      → contains s series ≡ true
      → (fetch_changes f get threshold series w).0 ≡ none
  unfolding fetch_changes
  fetch_changes-not_json threshold s [] w h c = absurd (ground arith)
  fetch_changes-not_json threshold s (x ∷ series) w h c =
      ground (arith, h w, eq_iff x s, fetch_changes-not_json threshold s series (get x w).1)

  fetch_changes-is_readable :
      (threshold : Num) (series : List String) (w : W)
      → ((s : String) (v : W) → is_readable (get s v).0 ≡ true)
      → is_some (fetch_changes f get threshold series w).0 ≡ true
  unfolding fetch_changes
  fetch_changes-is_readable threshold [] w h = refl
  fetch_changes-is_readable threshold (x ∷ series) w h =
      ground (arith, h x w, fetch_changes-is_readable threshold series (get x w).1)

  -- Where FRED answers the requests for one of the default series with a body that is not JSON, and
  -- a key is set, the run raises: it returns no row and commits none, whatever the other detectors
  -- have found.
  pub run_once-not_json :
      (i : Inputs f) (new_id : ℕ → ℕ) (channels : List (Channel (Payload Num) W)) (clock : ℕ → ℕ)
      (table : List (Row f)) (w : W) (s : String)
      → has_key i.fred_api_key ≡ true
      → contains s default_series ≡ true
      → ((v : W) → is_json (get s v).0 ≡ false)
      → ((run_once f i get new_id channels clock table w).0 ≡ none)
        × ((run_once f i get new_id channels clock table w).1 ≡ table)
  unfolding run_once run_all detect_all detect_macro
  run_once-not_json i new_id channels clock table w s k c h =
      ground (arith, fetch_changes-not_json i.macro_change_threshold s default_series w h c)

  -- Where every answer of FRED is an HTTP error or JSON of the shape that the code reads, or no key is
  -- set, the run returns rows: no failure of a channel or of a request makes it raise.
  pub run_once-returns :
      (i : Inputs f) (new_id : ℕ → ℕ) (channels : List (Channel (Payload Num) W)) (clock : ℕ → ℕ)
      (table : List (Row f)) (w : W)
      → ((s : String) (v : W) → is_readable (get s v).0 ≡ true) ⊎ (has_key i.fred_api_key ≡ false)
      → is_some (run_once f i get new_id channels clock table w).0 ≡ true
  unfolding run_once run_all detect_all detect_macro
  run_once-returns i new_id channels clock table w (inl h) =
      ground (arith, fetch_changes-is_readable i.macro_change_threshold default_series w h)
  run_once-returns i new_id channels clock table w (inr h) = ground arith
