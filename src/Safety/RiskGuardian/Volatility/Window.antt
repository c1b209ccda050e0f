-- ===== src/Safety/RiskGuardian/Volatility/Window.antt =====
-- Only the newest bars of an instrument count (backend/app/safety/risk_guardian.py).
use nivara.Prelude.{
  ℕ, zero, suc, ◌+◌, ◌≤◌, Option, none, some, List, [], ◌∷◌, ◌≡◌, refl, ltb, ◌==◌, length,
  if◌then◌else◌, arith, Bool-cases, inl, inr, ap,
}
use nivara.Floats.{Floats}
use nivara.Safety.RiskGuardian.{Position, Tables, Holding, holding_of}
use nivara.Safety.RiskGuardian.Volatility.{
  Bar, bars_of, insert_desc, sort_desc, take, latest, compare_range, check_volatility,
  detect_volatility,
}

module _ {D : Type 0} where
  abbrev pub newer : Bar D → List (Bar D) → ℕ
  newer bar [] = 0
  newer bar (b ∷ bars) = (if ltb bar.timestamp b.timestamp then 1 else 0) + newer bar bars

  abbrev IsBelow : ℕ → List (Bar D) → Type 0
  IsBelow t [] = Unit
  IsBelow t (b ∷ bars) = (b.timestamp ≤ t) × IsBelow t bars

  abbrev IsDesc : List (Bar D) → Type 0
  IsDesc [] = Unit
  IsDesc (b ∷ bars) = IsBelow b.timestamp bars × IsDesc bars

  IsBelow-mono : (t u : ℕ) (bars : List (Bar D)) → t ≤ u → IsBelow t bars → IsBelow u bars
  IsBelow-mono t u [] h p = tt
  IsBelow-mono t u (b ∷ bars) h p = (omega arith, IsBelow-mono t u bars h p.1)

  insert_desc-IsBelow :
      (t : ℕ) (bar : Bar D) (bars : List (Bar D))
      → bar.timestamp ≤ t
      → IsBelow t bars
      → IsBelow t (insert_desc bar bars)
  insert_desc-IsBelow t bar [] h p = (h, tt)
  insert_desc-IsBelow t bar (b ∷ bars) h p = ground (arith, insert_desc-IsBelow t bar bars)

  insert_desc-IsDesc :
      (bar : Bar D) (bars : List (Bar D)) → IsDesc bars → IsDesc (insert_desc bar bars)
  insert_desc-IsDesc bar [] p = (tt, tt)
  insert_desc-IsDesc bar (b ∷ bars) p = ground (
    arith,
    insert_desc-IsDesc bar bars,
    insert_desc-IsBelow b.timestamp bar bars,
    IsBelow-mono b.timestamp bar.timestamp bars,
  )

  sort_desc-IsDesc : (bars : List (Bar D)) → IsDesc (sort_desc bars)
  sort_desc-IsDesc [] = tt
  sort_desc-IsDesc (bar ∷ bars) = insert_desc-IsDesc bar (sort_desc bars) (sort_desc-IsDesc bars)

  newer-insert_desc :
      (bar b : Bar D) (bars : List (Bar D)) → newer bar (insert_desc b bars) ≡ newer bar (b ∷ bars)
  newer-insert_desc bar b [] = refl
  newer-insert_desc bar b (c ∷ bars) = ground (arith, newer-insert_desc bar b bars)

  newer-sort_desc :
      (bar : Bar D) (bars : List (Bar D)) → newer bar (sort_desc bars) ≡ newer bar bars
  newer-sort_desc bar [] = refl
  newer-sort_desc bar (b ∷ bars) =
      ground (arith, newer-insert_desc bar b (sort_desc bars), newer-sort_desc bar bars)

  newer-IsBelow :
      (bar : Bar D) (bars : List (Bar D)) → IsBelow bar.timestamp bars → newer bar bars ≡ 0
  newer-IsBelow bar [] p = refl
  newer-IsBelow bar (b ∷ bars) p = ground (arith, newer-IsBelow bar bars p.1)

  take-insert_desc :
      (n : ℕ) (bar : Bar D) (bars : List (Bar D))
      → IsDesc bars
      → n ≤ newer bar bars
      → take n (insert_desc bar bars) ≡ take n bars
  take-insert_desc zero bar bars p h = refl
  take-insert_desc (suc n) bar [] p h = absurd (omega arith)
  take-insert_desc (suc n) bar (b ∷ bars) p h = ground (
    arith,
    take-insert_desc n bar bars,
    newer-IsBelow bar bars,
    IsBelow-mono b.timestamp bar.timestamp bars,
  )

  latest-older :
      (n id : ℕ) (bar : Bar D) (history : List (Bar D))
      → n ≤ newer bar (bars_of bar.instrument_id history)
      → latest n id (bar ∷ history) ≡ latest n id history
  unfolding latest
  latest-older n id bar history h = elim (Bool-cases (bar.instrument_id == id)) [
    | inl e ↦
        let same : bar.instrument_id ≡ id = ground arith in
        let enough : n ≤ newer bar (bars_of id history) = rw same at h in
        rw e (
          take-insert_desc n bar (sort_desc (bars_of id history))
            (sort_desc-IsDesc (bars_of id history))
            (omega (arith, newer-sort_desc bar (bars_of id history))))
    | inr e ↦ rw e refl
  ]

module _ (f : Floats) where
  open f use {Num, Decimal}

  check_volatility-older :
      (lookback_days : ℕ) (multiplier : Num) (bar : Bar Decimal) (history : List (Bar Decimal))
      (h : Option Holding)
      → lookback_days + 1 ≤ newer bar (bars_of bar.instrument_id history)
      → check_volatility f lookback_days multiplier (bar ∷ history) h
        ≡ check_volatility f lookback_days multiplier history h
  unfolding check_volatility
  check_volatility-older lookback_days multiplier bar history none p = refl
  check_volatility-older lookback_days multiplier bar history (some h) p =
      ap
        (λ rows.
          if ltb (length rows) (lookback_days + 1) then [] else compare_range f multiplier h rows)
        (latest-older (lookback_days + 1) h.instrument.id bar history p)

  -- A bar of the price history does not change the alerts where its instrument has at least
  -- `lookback_days + 1` newer bars: only the newest `lookback_days + 1` bars of each instrument
  -- count.
  pub detect_volatility-older :
      (lookback_days : ℕ) (multiplier : Num) (t : Tables) (bar : Bar Decimal)
      (history : List (Bar Decimal)) (positions : List Position)
      → lookback_days + 1 ≤ newer bar (bars_of bar.instrument_id history)
      → detect_volatility f lookback_days multiplier t (bar ∷ history) positions
        ≡ detect_volatility f lookback_days multiplier t history positions
  unfolding detect_volatility
  detect_volatility-older lookback_days multiplier t bar history [] p = refl
  detect_volatility-older lookback_days multiplier t bar history (position ∷ positions) p = cc (
    check_volatility-older lookback_days multiplier bar history (holding_of t position) p,
    detect_volatility-older lookback_days multiplier t bar history positions p,
  )
