-- ===== src/Portfolio/Sync/Reconcile.antt =====
-- The rows of a connection and of the others across a sync of positions.
use nivara.Prelude.{
  ℕ, suc, ◌+◌, String, ◌≡◌, refl, sym, ap, ◌∙◌, Bool, true, not, ◌&&◌, ◌||◌, List, [], ◌∷◌, ◌++◌,
  ◌==◌, arith, length, Bool-cases, inl, inr, if◌then◌else◌,
}
use nivara.Decimals.{Decimals}
use nivara.Portfolio.Symbols.{
  Instrument, SymbolMapping, Texts, Normalized, found, not_mapped, ambiguous, normalize_symbol,
}
use nivara.Portfolio.Sync.{
  Synced, done, multiple_results_found, integrity_error, ◌>>=◌, mem, Position, NormalizedPosition,
  is_zero, has_position, update_position, Progress, upsert_position, close_missing, PositionsSynced,
  finish_positions, apply_position, sync_position, position_loop, sync_positions,
}

pub done_inj : {A : Type 0} {a b : A} → done a ≡ done b → a ≡ b
done_inj h = cc h

pub bind_done :
    {A B : Type 0} (m : Synced A) (f : A → Synced B) (b : B)
    → (m >>= f) ≡ done b
    → (a : A) × (m ≡ done a) × (f a ≡ done b)
bind_done (done a) f b h = (a, refl, h)
bind_done multiple_results_found f b h = cc h
bind_done integrity_error f b h = cc h

append_nil : {A : Type 0} (xs : List A) → xs ++ [] ≡ xs
append_nil [] = refl
append_nil (x ∷ xs) = ap (λ ys. x ∷ ys) (append_nil xs)

module _ (d : Decimals) where
  open d use {zero, leb_refl}

  -- The rows of other connections.
  abbrev pub others : ℕ → List (Position d) → List (Position d)
  others conn [] = []
  others conn (p ∷ rows) =
      if p.broker_connection_id == conn then others conn rows else p ∷ others conn rows

  -- Every row of the connection has an instrument that was seen, or no quantity.
  abbrev pub reconciled : ℕ → List ℕ → List (Position d) → Bool
  reconciled conn seen [] = true
  reconciled conn seen (p ∷ rows) =
      (not (p.broker_connection_id == conn) || (mem p.instrument_id seen || is_zero d p.quantity))
      && reconciled conn seen rows

  others-append :
      (conn : ℕ) (xs ys : List (Position d))
      → others conn (xs ++ ys) ≡ others conn xs ++ others conn ys
  others-append conn [] ys = refl
  others-append conn (p ∷ xs) ys = ground (arith, others-append conn xs ys)

  reconciled-append :
      (conn : ℕ) (seen : List ℕ) (xs ys : List (Position d))
      → reconciled conn seen (xs ++ ys) ≡ (reconciled conn seen xs && reconciled conn seen ys)
  reconciled-append conn seen [] ys = refl
  reconciled-append conn seen (p ∷ xs) ys = ground (arith, reconciled-append conn seen xs ys)

  reconciled-more :
      (conn i : ℕ) (seen : List ℕ) (rows : List (Position d))
      → reconciled conn seen rows ≡ true
      → reconciled conn (i ∷ seen) rows ≡ true
  reconciled-more conn i seen [] h = refl
  reconciled-more conn i seen (p ∷ rows) h = ground (arith, h, reconciled-more conn i seen rows)

  pub zero-is_zero : is_zero d zero ≡ true
  zero-is_zero = ground (arith, leb_refl zero)

  close-reconciled :
      (conn now : ℕ) (seen : List ℕ) (rows : List (Position d))
      → reconciled conn seen (close_missing d conn seen now rows).0 ≡ true
  unfolding close_missing
  close-reconciled conn now seen [] = refl
  close-reconciled conn now seen (p ∷ rows) =
      ground (arith, close-reconciled conn now seen rows, zero-is_zero)

  close-others :
      (conn now : ℕ) (seen : List ℕ) (rows : List (Position d))
      → others conn (close_missing d conn seen now rows).0 ≡ others conn rows
  unfolding close_missing
  close-others conn now seen [] = refl
  close-others conn now seen (p ∷ rows) = ground (arith, close-others conn now seen rows)

  update-others :
      (conn i now : ℕ) (bp : NormalizedPosition d) (rows : List (Position d))
      → others conn (update_position d conn i bp now rows) ≡ others conn rows
  unfolding update_position
  update-others conn i now bp [] = refl
  update-others conn i now bp (p ∷ rows) = ground (arith, update-others conn i now bp rows)

  -- The loop so far: `n` reports were counted, the rows of other connections are those from before,
  -- and every new row is one of the connection whose instrument was seen.
  record IsOk (conn n : ℕ) (before : List (Position d)) (t : Progress d) : Type 0 where
    rows_others : others conn t.rows ≡ others conn before
    added_others : others conn t.added ≡ []
    added_seen : reconciled conn t.seen t.added ≡ true
    counted : t.upserted + t.skipped ≡ n
    seen_upserted : length t.seen ≡ t.upserted

  abbrev new_row : ℕ → ℕ → ℕ → NormalizedPosition d → Position d
  new_row conn i now bp = record {
    broker_connection_id = conn;
    instrument_id = i;
    quantity = bp.quantity;
    avg_cost = bp.avg_entry_price;
    currency = bp.currency;
    as_of = now;
  }

  upsert-IsOk :
      (conn i now n : ℕ) (bp : NormalizedPosition d) (before : List (Position d)) (t : Progress d)
      → IsOk conn n before t
      → IsOk conn (suc n) before (upsert_position d conn i bp now t)
  unfolding upsert_position
  upsert-IsOk conn i now n bp before t h =
      let more = reconciled-more conn i t.seen t.added h.added_seen in
      elim (Bool-cases (has_position d conn i t.rows)) [
        | inl old ↦ rw old (record {
          rows_others = update-others conn i now bp t.rows ∙ h.rows_others;
          added_others = h.added_others;
          added_seen = more;
          counted = omega (arith, h.counted);
          seen_upserted = omega (arith, h.seen_upserted);
        })
        | inr new ↦ rw new (record {
          rows_others = h.rows_others;
          added_others =
              ground
                (arith, others-append conn t.added (new_row conn i now bp ∷ []), h.added_others);
          added_seen = ground (
            arith,
            reconciled-append conn (i ∷ t.seen) t.added (new_row conn i now bp ∷ []),
            more,
          );
          counted = omega (arith, h.counted);
          seen_upserted = omega (arith, h.seen_upserted);
        })
      ]

  with_mappings :
      (conn n : ℕ) (before : List (Position d)) (t : Progress d) (mappings : List SymbolMapping)
      → IsOk conn n before t
      → IsOk conn n before (record t { mappings = mappings })
  with_mappings conn n before t mappings h = record {
    rows_others = h.rows_others;
    added_others = h.added_others;
    added_seen = h.added_seen;
    counted = h.counted;
    seen_upserted = h.seen_upserted;
  }

  module _ (texts : Texts) (instruments : List Instrument) (conn : ℕ) (broker : String) where
    -- Each report is counted once, as upserted or skipped.
    apply-IsOk :
        (now n : ℕ) (bp : NormalizedPosition d) (r : Normalized) (before : List (Position d))
        (t t' : Progress d)
        → IsOk conn n before t
        → apply_position d texts instruments conn broker now bp r t ≡ done t'
        → IsOk conn (suc n) before t'
    apply-IsOk now n bp (found i) before t t' h e =
        rw (← done_inj e) (upsert-IsOk conn i.id now n bp before t h)
    apply-IsOk now n bp not_mapped before t t' h e = rw (← done_inj e) (record {
      rows_others = h.rows_others;
      added_others = h.added_others;
      added_seen = h.added_seen;
      counted = omega (arith, h.counted);
      seen_upserted = h.seen_upserted;
    })
    apply-IsOk now n bp ambiguous before t t' h e = cc e

    loop-IsOk :
        (bps : List (NormalizedPosition d)) (now n : ℕ) (before : List (Position d))
        (t t' : Progress d)
        → IsOk conn n before t
        → position_loop d texts instruments conn broker now bps t ≡ done t'
        → IsOk conn (n + length bps) before t'
    unfolding position_loop sync_position
    loop-IsOk [] now n before t t' h e = let p : n + 0 ≡ n = omega arith in rw (p, ← done_inj e) h
    loop-IsOk (bp ∷ bps) now n before t t' h e =
        let p : n + suc (length bps) ≡ suc n + length bps = omega arith in
        let (r, mappings) =
          normalize_symbol texts instruments broker bp.broker_symbol bp.exchange t.mappings in
        let here = record t { mappings = mappings } in
        let (first, step, rest) =
          bind_done (apply_position d texts instruments conn broker now bp r here)
            (position_loop d texts instruments conn broker now bps) t' e in
        let mapped = with_mappings conn n before t mappings h in
        rw p (
          loop-IsOk bps now (suc n) before first t'
            (apply-IsOk now n bp r before here first mapped step) rest)

    pub finish_lem :
        (now : ℕ) (t : Progress d) (r : PositionsSynced d)
        → finish_positions d conn now t ≡ done r
        → (r.positions ≡ (close_missing d conn t.seen now t.rows).0 ++ t.added)
          × (r.upserted ≡ t.upserted)
          × (r.skipped ≡ t.skipped)
    unfolding finish_positions
    finish_lem now t r e = (ground (arith, e), ground (arith, e), ground (arith, e))

    -- A sync of positions that returns counts every reported position once, as upserted or skipped,
    -- keeps the rows of other connections, and leaves every row of its own either with no quantity or
    -- with one of the instruments that it has seen, of which there are as many as upserts.
    pub sync_positions-reconciled :
        (bps : List (NormalizedPosition d)) (now : ℕ) (positions : List (Position d))
        (mappings : List SymbolMapping) (r : PositionsSynced d)
        → sync_positions d texts instruments conn broker bps now positions mappings ≡ done r
        → (r.upserted + r.skipped ≡ length bps)
          × (others conn r.positions ≡ others conn positions)
          × ((seen : List ℕ) × (length seen ≡ r.upserted)
              × (reconciled conn seen r.positions ≡ true))
    unfolding sync_positions
    sync_positions-reconciled bps now positions mappings r e =
        let start : Progress d = record {
          rows = positions;
          added = [];
          mappings = mappings;
          seen = [];
          upserted = 0;
          skipped = 0;
          warnings = [];
        } in
        let (t, looped, finished) =
          bind_done (position_loop d texts instruments conn broker now bps start)
            (finish_positions d conn now) r e in
        let fresh : IsOk conn 0 positions start = record {
          rows_others = refl;
          added_others = refl;
          added_seen = refl;
          counted = refl;
          seen_upserted = refl;
        } in
        let h = loop-IsOk bps now 0 positions start t fresh looped in
        let (rows, upserted, skipped) = finish_lem now t r finished in
        let kept = (close_missing d conn t.seen now t.rows).0 in
        (
          omega (arith, h.counted, upserted, skipped),
          rw
              (
                rows,
                others-append conn kept t.added,
                close-others conn now t.seen t.rows,
                h.added_others,
              )
              (append_nil (others conn t.rows) ∙ h.rows_others),
          (
            t.seen,
            h.seen_upserted ∙ sym upserted,
            rw (
              rows,
              reconciled-append conn t.seen kept t.added,
              close-reconciled conn now t.seen t.rows,
              h.added_seen,
            ),
          ),
        )
