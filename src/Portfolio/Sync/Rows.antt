-- ===== src/Portfolio/Sync/Rows.antt =====
-- The rows of a connection against a log of the broker's reports (backend/app/services/portfolio_sync.py).
use nivara.Prelude.{
  ℕ, ◌≡◌, refl, Bool, true, false, not, ◌&&◌, ◌||◌, List, [], ◌∷◌, ◌++◌, ◌==◌, ◌⊎◌, arith,
  Bool-cases, inl, inr, if◌then◌else◌,
}
use nivara.Decimals.{Decimals}
use nivara.Portfolio.Sync.{
  mem, Position, NormalizedPosition, is_zero, position_fits, has_position, update_position,
  close_missing,
}

module _ (d : Decimals) where
  open d use {Num, zero}

  -- An instrument with the quantity that was reported for it.
  abbrev pub Log : Type 0
  Log = List (ℕ × Num)

  abbrev pub mentions : ℕ → Log → Bool
  mentions i [] = false
  mentions i ((j, q) ∷ log) = i == j || mentions i log

  abbrev pub Quotes : ℕ → Num → Log → Type 0
  Quotes i q [] = ⊥
  Quotes i q ((j, x) ∷ log) = ((i ≡ j) × (q ≡ x)) ⊎ Quotes i q log

  -- A row of another connection, a row with a quantity that was reported for its instrument, or one
  -- whose instrument was not reported and that has no quantity.
  abbrev pub Settled : ℕ → Log → Position d → Type 0
  Settled conn log p =
      ((p.broker_connection_id == conn) ≡ false)
      ⊎ Quotes p.instrument_id p.quantity log
      ⊎ ((mentions p.instrument_id log ≡ false) × (is_zero d p.quantity ≡ true))

  abbrev pub AllSettled : ℕ → Log → List (Position d) → Type 0
  AllSettled conn log [] = Unit {0}
  AllSettled conn log (p ∷ rows) = Settled conn log p × AllSettled conn log rows

  abbrev pub has_row : ℕ → ℕ → List (Position d) → Bool
  has_row conn i [] = false
  has_row conn i (p ∷ rows) =
      (p.broker_connection_id == conn) && (p.instrument_id == i) || has_row conn i rows

  -- No two rows of the connection have the same instrument.
  abbrev pub distinct : ℕ → List (Position d) → Bool
  distinct conn [] = true
  distinct conn (p ∷ rows) =
      not ((p.broker_connection_id == conn) && has_row conn p.instrument_id rows)
      && distinct conn rows

  -- A row during the loop: settled, but for its quantity where its instrument was not reported yet.
  abbrev pub Open : ℕ → Log → Position d → Type 0
  Open conn log p =
      ((p.broker_connection_id == conn) ≡ false)
      ⊎ Quotes p.instrument_id p.quantity log
      ⊎ (mentions p.instrument_id log ≡ false)

  abbrev pub AllOpen : ℕ → Log → List (Position d) → Type 0
  AllOpen conn log [] = Unit {0}
  AllOpen conn log (p ∷ rows) = Open conn log p × AllOpen conn log rows

  abbrev pub AllQuoted : Log → List (Position d) → Type 0
  AllQuoted log [] = Unit {0}
  AllQuoted log (p ∷ rows) = Quotes p.instrument_id p.quantity log × AllQuoted log rows

  pub open_start : (conn : ℕ) (rows : List (Position d)) → AllOpen conn [] rows
  open_start conn [] = tt
  open_start conn (p ∷ rows) = (inr (inr refl), open_start conn rows)

  pub Open-more :
      (conn i : ℕ) (x : Num) (log : Log) (p : Position d)
      → position_fits d conn i p ≡ false
      → Open conn log p
      → Open conn ((i, x) ∷ log) p
  Open-more conn i x log p h (inl other) = inl other
  Open-more conn i x log p h (inr (inl quoted)) = inr (inl (inr quoted))
  Open-more conn i x log p h (inr (inr fresh)) =
      elim (Bool-cases (p.broker_connection_id == conn)) [
        | inl own ↦ inr (inr (ground (arith, h, own, fresh)))
        | inr other ↦ inl other
      ]

  pub AllOpen-more :
      (conn i : ℕ) (x : Num) (log : Log) (rows : List (Position d))
      → has_row conn i rows ≡ false
      → AllOpen conn log rows
      → AllOpen conn ((i, x) ∷ log) rows
  AllOpen-more conn i x log [] h all = tt
  AllOpen-more conn i x log (p ∷ rows) h (own, all) = (
    Open-more conn i x log p (ground (arith, h)) own,
    AllOpen-more conn i x log rows (ground (arith, h)) all,
  )

  pub update-AllOpen :
      (conn i now : ℕ) (bp : NormalizedPosition d) (log : Log) (rows : List (Position d))
      → distinct conn rows ≡ true
      → AllOpen conn log rows
      → AllOpen conn ((i, bp.quantity) ∷ log) (update_position d conn i bp now rows)
  unfolding update_position
  update-AllOpen conn i now bp log [] h all = tt
  update-AllOpen conn i now bp log (p ∷ rows) h (own, all) =
      elim (Bool-cases (position_fits d conn i p)) [
        | inl fits ↦
            let same : p.instrument_id ≡ i = ground (arith, fits) in
            rw fits (
              inr (inl (inl (same, refl))),
              AllOpen-more conn i bp.quantity log rows (ground (arith, h, fits)) all,
            )
        | inr other ↦ rw other (
          Open-more conn i bp.quantity log p other own,
          update-AllOpen conn i now bp log rows (ground (arith, h)) all,
        )
      ]

  pub has_row-update :
      (conn i now j : ℕ) (bp : NormalizedPosition d) (rows : List (Position d))
      → has_row conn j (update_position d conn i bp now rows) ≡ has_row conn j rows
  unfolding update_position
  has_row-update conn i now j bp [] = refl
  has_row-update conn i now j bp (p ∷ rows) = ground (arith, has_row-update conn i now j bp rows)

  pub distinct-update :
      (conn i now : ℕ) (bp : NormalizedPosition d) (rows : List (Position d))
      → distinct conn (update_position d conn i bp now rows) ≡ distinct conn rows
  unfolding update_position
  distinct-update conn i now bp [] = refl
  distinct-update conn i now bp (p ∷ rows) =
      ground (
        arith,
        has_row-update conn i now p.instrument_id bp rows,
        distinct-update conn i now bp rows,
      )

  pub has_row-position :
      (conn i : ℕ) (rows : List (Position d)) → has_row conn i rows ≡ has_position d conn i rows
  has_row-position conn i [] = refl
  has_row-position conn i (p ∷ rows) = ground (arith, has_row-position conn i rows)

  pub AllQuoted-more :
      (i : ℕ) (x : Num) (log : Log) (rows : List (Position d))
      → AllQuoted log rows
      → AllQuoted ((i, x) ∷ log) rows
  AllQuoted-more i x log [] all = tt
  AllQuoted-more i x log (p ∷ rows) (own, all) = (inr own, AllQuoted-more i x log rows all)

  pub quoted-append :
      (log : Log) (xs ys : List (Position d))
      → AllQuoted log xs
      → AllQuoted log ys
      → AllQuoted log (xs ++ ys)
  quoted-append log [] ys all rest = rest
  quoted-append log (p ∷ xs) ys (own, all) rest = (own, quoted-append log xs ys all rest)

  pub settled-append :
      (conn : ℕ) (log : Log) (xs ys : List (Position d))
      → AllSettled conn log xs
      → AllQuoted log ys
      → AllSettled conn log (xs ++ ys)
  settled-append conn log [] [] all rest = tt
  settled-append conn log [] (p ∷ ys) all (own, rest) =
      (inr (inl own), settled-append conn log [] ys tt rest)
  settled-append conn log (p ∷ xs) ys (own, all) rest =
      (own, settled-append conn log xs ys all rest)

  abbrev pub closed_row : ℕ → List ℕ → ℕ → Position d → Position d
  closed_row conn seen now p =
      if not (p.broker_connection_id == conn) || mem p.instrument_id seen
      then p
      else if is_zero d p.quantity
      then record p { as_of = now }
      else record p { quantity = zero; as_of = now }

  pub close_step :
      (conn now : ℕ) (seen : List ℕ) (p : Position d) (rows : List (Position d))
      → (close_missing d conn seen now (p ∷ rows)).0
        ≡ closed_row conn seen now p ∷ (close_missing d conn seen now rows).0
  unfolding close_missing
  close_step conn now seen p rows = ground arith
