-- ===== src/Rates/Summary/Totals.antt =====
-- When a summary is stale, and whose positions it reads
-- (backend/app/services/portfolio_summary.py).
use nivara.Prelude.{
  ℕ, ◌-◌, String, Bool, true, false, ◌&&◌, none, some, List, [], ◌∷◌, ◌++◌, ◌≡◌, refl, ltb, arith,
  ap, if◌then◌else◌, Option-cases, inl, inr,
}
use nivara.Decimals.{Decimals}
use nivara.Portfolio.Symbols.{Texts, get_instrument}
use nivara.Rates.Summary.{
  Position, Joined, Tables, stale_threshold, owns, joined_with, user_positions, newest_from,
  stale_at, enriched_positions, summary,
}

module _ (d : Decimals) where
  open d use {Num}

  -- Every row is older than the threshold, and there is one.
  abbrev pub all_older : ℕ → List (Joined d) → Bool
  all_older now [] = true
  all_older now (row ∷ rows) = ltb stale_threshold (now - row.position.as_of) && all_older now rows

  abbrev pub is_stale_row : ℕ → List (Joined d) → Bool
  is_stale_row now [] = false
  is_stale_row now (row ∷ rows) = all_older now (row ∷ rows)

  stale_at-newest_from :
      (now newest : ℕ) (rows : List (Joined d))
      → stale_at d now (newest_from d (some newest) rows)
        ≡ (ltb stale_threshold (now - newest) && all_older now rows)
  stale_at-newest_from now newest [] = ground arith
  stale_at-newest_from now newest (row ∷ rows) = ground (
    arith,
    stale_at-newest_from now newest rows,
    stale_at-newest_from now row.position.as_of rows,
  )

  stale_at-rows :
      (now : ℕ) (rows : List (Joined d))
      → stale_at d now (newest_from d none rows) ≡ is_stale_row now rows
  stale_at-rows now [] = refl
  stale_at-rows now (row ∷ rows) = stale_at-newest_from now row.position.as_of rows

  -- A summary is marked stale exactly where the user has a position and each of their positions was
  -- synced more than two hours before; its confidence is then the lower one, and otherwise one.
  pub summary-is_stale :
      (low : Num) (t : Texts) (tables : Tables d) (user_id : ℕ) (base : String) (now : ℕ)
      → let out = summary d low t tables user_id base now in
        let stale =
          is_stale_row now
            (user_positions d user_id tables.connections tables.instruments tables.positions) in
        (out.is_stale ≡ stale) × (out.confidence ≡ (if stale then low else d.one))
  unfolding summary enriched_positions
  summary-is_stale low t tables user_id base now =
      let rows = user_positions d user_id tables.connections tables.instruments tables.positions in
      ground (arith, stale_at-rows now rows)

  user_positions-skip :
      (user_id : ℕ) (tables : Tables d) (before after : List (Position d)) (p : Position d)
      → owns d user_id p.broker_connection_id tables.connections ≡ false
      → user_positions d user_id tables.connections tables.instruments (before ++ p ∷ after)
        ≡ user_positions d user_id tables.connections tables.instruments (before ++ after)
  unfolding user_positions
  user_positions-skip user_id tables [] after p h =
      elim (Option-cases (get_instrument p.instrument_id tables.instruments)) [
        | inl e ↦ ground arith
        | inr (i, e) ↦ ground arith
      ]
  user_positions-skip user_id tables (b ∷ before) after p h =
      ap
        (λ rest.
          joined_with d b (owns d user_id b.broker_connection_id tables.connections)
            (get_instrument b.instrument_id tables.instruments)
          ++ rest)
        (user_positions-skip user_id tables before after p h)

  -- A position of a connection that is not the user's makes no difference to their positions, the
  -- summary's totals included.
  pub summary-other_position :
      (low : Num) (t : Texts) (tables : Tables d) (user_id : ℕ) (base : String) (now : ℕ)
      (before after : List (Position d)) (p : Position d)
      → owns d user_id p.broker_connection_id tables.connections ≡ false
      → (summary d low t (record tables { positions = before ++ p ∷ after }) user_id base now
          ≡ summary d low t (record tables { positions = before ++ after }) user_id base now)
        × (enriched_positions d t
              (record tables { positions = before ++ p ∷ after })
              user_id
              base
              now
            ≡ enriched_positions d t
                (record tables { positions = before ++ after })
                user_id
                base
                now)
  unfolding summary enriched_positions
  summary-other_position low t tables user_id base now before after p h =
      let same = user_positions-skip user_id tables before after p h in (cc same, cc same)
