-- ===== src/Intelligence/Synthesizer/Age.antt =====
-- Which requests get a recommendation: the age of the data that decides it
-- (backend/app/intelligence/synthesizer.py).
use nivara.Prelude.{
  ℕ, ◌≤◌, Bool, true, false, not, ◌&&◌, ◌||◌, Option, none, some, List, [], ◌∷◌, ◌≡◌, refl, ap, ◌∙◌,
  arith, leb, ◌==◌, ltb, if◌then◌else◌, Option-cases, inl, inr,
}
use nivara.Floats.{Floats}
use nivara.Intelligence.Staleness.{is_suppressed, classify_staleness}
use nivara.Intelligence.Explainers.{Engine, technical, fundamental, sentiment, risk}
use nivara.Intelligence.Engines.{Normalized, entry, normalize_engines}
use nivara.Intelligence.Synthesizer.{
  Status, ok, stale, RecommendationResponse, Request, recommend, from_engines, time_or, oldest_time,
  synthesize,
}

double_negation : (b : Bool) → not (not b) ≡ b
double_negation true = refl
double_negation false = refl

module _ (f : Floats) where
  open f use {Num}

  abbrev pub is_ok : Status → Bool
  is_ok ok = true
  is_ok stale = false

  -- An engine's score and the time of its computation, each where there is one.
  abbrev pub Pairs : Type 0
  Pairs = List (Option Num × Option ℕ)

  abbrev pub pairs_of : Request f → Pairs
  pairs_of r =
      (r.engines.technical_score, r.computed_at_per_engine technical)
      ∷ (r.engines.fundamental_score, r.computed_at_per_engine fundamental)
      ∷ (r.engines.sentiment_score, r.computed_at_per_engine sentiment)
      ∷ (r.engines.risk_score, r.computed_at_per_engine risk)
      ∷ []

  abbrev pub any_score : Pairs → Bool
  any_score [] = false
  any_score ((none, at) ∷ pairs) = any_score pairs
  any_score ((some score, at) ∷ pairs) = true

  -- Whether some engine with a score has a time, and whether one has this time.
  abbrev pub any_time : Pairs → Bool
  any_time [] = false
  any_time ((some score, some t) ∷ pairs) = true
  any_time ((some score, none) ∷ pairs) = any_time pairs
  any_time ((none, at) ∷ pairs) = any_time pairs

  abbrev pub any_at : ℕ → Pairs → Bool
  any_at time [] = false
  any_at time ((some score, some t) ∷ pairs) = (t == time) || any_at time pairs
  any_at time ((some score, none) ∷ pairs) = any_at time pairs
  any_at time ((none, at) ∷ pairs) = any_at time pairs

  -- Whether no engine with a score was computed before this time.
  abbrev pub none_before : ℕ → Pairs → Bool
  none_before time [] = true
  none_before time ((some score, some t) ∷ pairs) = leb time t && none_before time pairs
  none_before time ((some score, none) ∷ pairs) = none_before time pairs
  none_before time ((none, at) ∷ pairs) = none_before time pairs

  -- Whether this is the oldest time of the engines with a score, or the present where none has a time.
  abbrev pub is_oldest : Request f → ℕ → Bool
  is_oldest r time =
      if any_time (pairs_of r)
      then any_at time (pairs_of r) && none_before time (pairs_of r)
      else time == r.now

  -- Whether data of this time is younger than one of the limits, in hours.
  abbrev pub is_usable : Request f → ℕ → Bool
  is_usable r time =
      let hours = f.div (f.seconds time r.now) (f.ratio 360000 100) in
      f.ltb hours f.zero
      || (f.ltb hours r.thresholds.fresh_hours
          || (f.ltb hours r.thresholds.aging_hours || f.ltb hours r.thresholds.stale_hours))

  is_usable_lem :
      (r : Request f) (time : ℕ)
      → is_suppressed (classify_staleness f r.thresholds time r.now) ≡ not (is_usable r time)
  unfolding classify_staleness
  is_usable_lem r time = ground arith

  abbrev merged : Option Num × Option ℕ → Option ℕ → Option ℕ
  merged (none, at) oldest = oldest
  merged (some score, none) oldest = oldest
  merged (some score, some t) none = some t
  merged (some score, some t) (some u) = some (if ltb u t then u else t)

  abbrev least : Pairs → Option ℕ
  least [] = none
  least (pair ∷ pairs) = merged pair (least pairs)

  oldest_time-entry :
      (at : Engine → Option ℕ) (e : Engine) (normalize : Num → Num) (score : Option Num)
      (rest : Normalized f)
      → oldest_time f at (entry f e normalize score rest)
        ≡ merged (score, at e) (oldest_time f at rest)
  oldest_time-entry at e normalize none rest = refl
  oldest_time-entry at e normalize (some score) rest = ground arith

  oldest_time-least :
      (r : Request f)
      → oldest_time f r.computed_at_per_engine (normalize_engines f r.engines) ≡ least (pairs_of r)
  unfolding normalize_engines
  oldest_time-least r =
      rw
        (
          oldest_time-entry r.computed_at_per_engine technical _ r.engines.technical_score _,
          oldest_time-entry r.computed_at_per_engine fundamental _ r.engines.fundamental_score _,
          oldest_time-entry r.computed_at_per_engine sentiment _ r.engines.sentiment_score _,
          oldest_time-entry r.computed_at_per_engine risk _ r.engines.risk_score _,
        )
        refl

  least-none : (pairs : Pairs) → least pairs ≡ none → any_time pairs ≡ false
  least-none [] h = refl
  least-none ((none, at) ∷ pairs) h = least-none pairs h
  least-none ((some s, none) ∷ pairs) h = least-none pairs h
  least-none ((some s, some t) ∷ pairs) h = absurd (ground arith)

  none_before_vacuous :
      (pairs : Pairs) (t : ℕ) → any_time pairs ≡ false → none_before t pairs ≡ true
  none_before_vacuous [] t h = refl
  none_before_vacuous ((none, at) ∷ pairs) t h = none_before_vacuous pairs t h
  none_before_vacuous ((some s, none) ∷ pairs) t h = none_before_vacuous pairs t h
  none_before_vacuous ((some s, some u) ∷ pairs) t h = absurd (ground arith)

  none_before_mono :
      (pairs : Pairs) (a b : ℕ) → a ≤ b → none_before b pairs ≡ true → none_before a pairs ≡ true
  none_before_mono [] a b le h = refl
  none_before_mono ((none, at) ∷ pairs) a b le h = none_before_mono pairs a b le h
  none_before_mono ((some s, none) ∷ pairs) a b le h = none_before_mono pairs a b le h
  none_before_mono ((some s, some u) ∷ pairs) a b le h =
      ground (arith, none_before_mono pairs a b le)

  least-some :
      (pairs : Pairs) (t : ℕ)
      → least pairs ≡ some t
      → (any_time pairs ≡ true) × (any_at t pairs ≡ true) × (none_before t pairs ≡ true)
  least-some [] t h = absurd (ground arith)
  least-some ((none, at) ∷ pairs) t h = least-some pairs t h
  least-some ((some s, none) ∷ pairs) t h = least-some pairs t h
  least-some ((some s, some u) ∷ pairs) t h = elim (Option-cases (least pairs)) [
    | inl e ↦ ground (arith, none_before_vacuous pairs t (least-none pairs e))
    | inr (v, e) ↦ ground (arith, least-some pairs v e, none_before_mono pairs t v)
  ]

  none_before_le :
      (pairs : Pairs) (a b : ℕ) → none_before a pairs ≡ true → any_at b pairs ≡ true → a ≤ b
  none_before_le [] a b h k = absurd (ground arith)
  none_before_le ((none, at) ∷ pairs) a b h k = none_before_le pairs a b h k
  none_before_le ((some s, none) ∷ pairs) a b h k = none_before_le pairs a b h k
  none_before_le ((some s, some t) ∷ pairs) a b h k = ground (arith, none_before_le pairs a b)

  oldest_lem :
      (r : Request f) (oldest : ℕ)
      → is_oldest r oldest ≡ true
      → time_or f r.now (least (pairs_of r)) ≡ oldest
  oldest_lem r oldest h = elim (Option-cases (least (pairs_of r))) [
    | inl e ↦ rw e (ground (arith, h, least-none (pairs_of r) e))
    | inr (t, e) ↦
        let (some_time, at, before) = least-some (pairs_of r) t e in
        rw e (
          ground (
            arith,
            h,
            some_time,
            none_before_le (pairs_of r) t oldest before,
            none_before_le (pairs_of r) oldest t,
            at,
          ))
  ]

  abbrev any_entry : Normalized f → Bool
  any_entry [] = false
  any_entry (e ∷ rest) = true

  any_entry_lem :
      (r : Request f) → any_entry (normalize_engines f r.engines) ≡ any_score (pairs_of r)
  unfolding normalize_engines
  any_entry_lem r = ground arith

  from_engines-status :
      (r : Request f) (ai_weight : Num) (shadow_mode : Bool) (ai_score : Option Num)
      (normalized : Normalized f) (out : RecommendationResponse f)
      → from_engines f r ai_weight shadow_mode ai_score normalized ≡ some out
      → is_ok out.status ≡ (
          any_entry normalized
          && not (
              is_suppressed (
                classify_staleness f r.thresholds
                  (time_or f r.now (oldest_time f r.computed_at_per_engine normalized))
                  r.now)))
  unfolding recommend
  from_engines-status r ai_weight shadow_mode ai_score [] out h = ground arith
  from_engines-status r ai_weight shadow_mode ai_score (e ∷ rest) out h = ground arith

  -- A response has status ok exactly where some engine has a score and the data's time is younger than
  -- one of the limits: the oldest time of the engines with a score, or the present where none of
  -- these has a time.
  pub synthesize-status :
      (r : Request f) (ai_weight : Num) (shadow_mode : Bool) (ai_score : Option Num)
      (out : RecommendationResponse f) (oldest : ℕ)
      → synthesize f r ai_weight shadow_mode ai_score ≡ some out
      → is_oldest r oldest ≡ true
      → is_ok out.status ≡ (any_score (pairs_of r) && is_usable r oldest)
  unfolding synthesize
  synthesize-status r ai_weight shadow_mode ai_score out oldest h old =
      let status =
        from_engines-status r ai_weight shadow_mode ai_score (normalize_engines f r.engines) out
          h in
      let scores = any_score (pairs_of r) in
      let used =
        time_or f r.now (oldest_time f r.computed_at_per_engine (normalize_engines f r.engines)) in
      let time : used ≡ oldest =
        ap (λ t. time_or f r.now t) (oldest_time-least r) ∙ oldest_lem r oldest old in
      status
      ∙ ap (λ b. b && not (is_suppressed (classify_staleness f r.thresholds used r.now)))
          (any_entry_lem r)
      ∙ ap (λ t. scores && not (is_suppressed (classify_staleness f r.thresholds t r.now))) time
      ∙ ap (λ b. scores && not b) (is_usable_lem r oldest)
      ∙ ap (λ b. scores && b) (double_negation (is_usable r oldest))
