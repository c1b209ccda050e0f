-- ===== src/Safety/RiskGuardian/Macro.antt =====
-- `RiskGuardian.detect_macro_alerts`. The HTTP client answers a request for a series on a world; the
-- two newest observations come first.
pub mod Fanout
use Prim.Native.String.{◌++◌ as append}
use nivara.Prelude.{
  ℕ, String, Bool, true, false, not, Option, none, some, List, [], ◌∷◌, ◌++◌, if◌then◌else◌,
}
use nivara.Floats.{Floats}
use nivara.Safety.RiskGuardian.{Payload, macro, AlertEvent}

pub record User : Type 0 where
  pub id : ℕ
  pub is_active : Bool

-- `float(observation["value"])`, `none` where it raises one of the errors that the loop catches, and
-- `observation.get("date")`.
pub record Observation (F : Type 0) : Type 0 where
  pub value : Option F
  pub date : Option String

-- The answer for a series: `httpx.HTTPError`, also for a status that `raise_for_status` refuses; a
-- body that is no JSON, for which `resp.json()` raises; JSON at which the code behind it raises, since it
-- is no object, its observations have no length, or a value is an integer too large for a float; or the
-- observations. A text or an object for the observations counts as a list of as many rows without value.
pub data FredReply (F : Type 0) : Type 0 where
  http_error not_json malformed : FredReply F
  observations : List (Observation F) → FredReply F

pub record Change (F : Type 0) : Type 0 where
  pub series_id : String
  pub latest : F
  pub previous : F
  pub delta : F
  pub latest_date : Option String

abbrev pub latest_date_text : Option String → String
latest_date_text none = "None"
latest_date_text (some date) = date

-- `if not api_key`
abbrev pub has_key : Option String → Bool
has_key none = false
has_key (some String.[]) = false
has_key (some (String.◌∷◌ c s)) = true

abbrev pub default_series : List String
default_series = "DFF" ∷ "UNRATE" ∷ []

module _ (f : Floats) where
  open f use {Num}

  abbrev pub change_between :
      Num → String → Option Num → Option Num → Option String → List (Change Num)
  change_between threshold series_id none previous date = []
  change_between threshold series_id (some latest) none date = []
  change_between threshold series_id (some latest) (some previous) date =
      let delta = f.sub latest previous in
      if f.ltb threshold (f.abs delta)
      then record {
        series_id = series_id;
        latest = latest;
        previous = previous;
        delta = delta;
        latest_date = date;
      }
        ∷ []
      else []

  -- The change of one series, or none.
  abbrev pub change_of : Num → String → List (Observation Num) → List (Change Num)
  change_of threshold series_id [] = []
  change_of threshold series_id (latest ∷ []) = []
  change_of threshold series_id (latest ∷ previous ∷ older) =
      change_between threshold series_id latest.value previous.value latest.date

  module _ {W : Type 0} (get : String → W → FredReply Num × W) where
    -- The loop over the series; `none` is an exception, of `resp.json()` or of
    -- what reads its answer, which leaves the loop.
    unfoldable pub fetch_changes : Num → List String → W → Option (List (Change Num)) × W
    fetch_changes threshold [] w = (some [], w)
    fetch_changes threshold (series_id ∷ series) w =
        let (reply, w') = get series_id w in
        elim reply [
          | http_error ↦ fetch_changes threshold series w'
          | not_json ↦ (none, w')
          | malformed ↦ (none, w')
          | observations list ↦
              let (rest, w'') = fetch_changes threshold series w' in
              (
                elim rest [
                  | none ↦ none
                  | some changes ↦ some (change_of threshold series_id list ++ changes)
                ],
                w'',
              )
        ]

  abbrev pub macro_alert : ℕ → Change Num → AlertEvent Num
  macro_alert user_id change = record {
    user_id = user_id;
    notification_type = "system";
    title =
        append "Macro alert: "
          (append change.series_id (append " moved " (f.signed_2 change.delta)));
    body = append change.series_id (
        append " changed from " (
          append (f.text change.previous) (
            append " to " (
              append (f.text change.latest)
                (append " (as of " (append (latest_date_text change.latest_date) ")."))))));
    payload = macro change.series_id change.latest change.previous change.delta change.latest_date;
  }

  abbrev pub alerts_for : ℕ → List (Change Num) → List (AlertEvent Num)
  alerts_for user_id [] = []
  alerts_for user_id (change ∷ changes) = macro_alert user_id change ∷ alerts_for user_id changes

  -- One alert for each pair of an active user and a change, user by user.
  unfoldable pub macro_alerts : List User → List (Change Num) → List (AlertEvent Num)
  macro_alerts [] changes = []
  macro_alerts (user ∷ users) changes =
      if user.is_active
      then alerts_for user.id changes ++ macro_alerts users changes
      else macro_alerts users changes

  -- With the default series and threshold; `none` is an exception.
  unfoldable pub detect_macro :
      {W : Type 0}
      → (String → W → FredReply Num × W)
      → Num
      → Option String
      → List User
      → W
      → Option (List (AlertEvent Num)) × W
  unfolding fetch_changes macro_alerts
  detect_macro get threshold api_key users w =
      if has_key api_key
      then (let (changes, w') = fetch_changes get threshold default_series w in
          (elim changes [ none ↦ none | some found ↦ some (macro_alerts users found) ], w'))
      else (some [], w)
