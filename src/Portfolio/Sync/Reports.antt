-- ===== src/Portfolio/Sync/Reports.antt =====
-- What the rows of a connection hold after a sync of positions, against the broker's reports
-- (backend/app/services/portfolio_sync.py).
use nivara.Prelude.{
  ℕ, ◌+◌, String, ◌≡◌, refl, sym, ◌∙◌, true, false, not, ◌||◌, List, [], ◌∷◌, ◌==◌, arith, length,
  Bool-cases, inl, inr,
}
use mathlib.Core.Path.{subst}
use nivara.Decimals.{Decimals}
use nivara.Portfolio.Symbols.{
  Instrument, SymbolMapping, Texts, Normalized, found, not_mapped, ambiguous, normalize_symbol,
}
use nivara.Portfolio.Sync.{
  done, mem, Position, NormalizedPosition, is_zero, has_position, Progress, upsert_position,
  close_missing, PositionsSynced, apply_position, sync_position, position_loop, finish_positions,
  sync_positions,
}
use nivara.Portfolio.Sync.Reconcile.{
  done_inj, bind_done, others, zero-is_zero, finish_lem, sync_positions-reconciled,
}
use nivara.Portfolio.Sync.Rows.{
  Log, mentions, Quotes, Settled, AllSettled, distinct, Open, AllOpen, AllQuoted, open_start,
  AllOpen-more, update-AllOpen, distinct-update, has_row-position, AllQuoted-more, quoted-append,
  settled-append, closed_row, close_step,
}

module _ (d : Decimals) where
  open d use {Num, zero}

  Quotes-mentions : (i : ℕ) (q : Num) (log : Log d) → Quotes d i q log → mentions d i log ≡ true
  Quotes-mentions i q [] h = elim h [ ]
  Quotes-mentions i q ((j, x) ∷ log) (inl (same, amount)) = ground (arith, same)
  Quotes-mentions i q ((j, x) ∷ log) (inr rest) = ground (arith, Quotes-mentions i q log rest)

  settle_row :
      (conn now : ℕ) (log : Log d) (seen : List ℕ) (p : Position d)
      → mem p.instrument_id seen ≡ mentions d p.instrument_id log
      → Open d conn log p
      → Settled d conn log (closed_row d conn seen now p)
  settle_row conn now log seen p same (inl other) = rw other (inl other)
  settle_row conn now log seen p same (inr (inl quoted)) =
      let kept : (not (p.broker_connection_id == conn) || mem p.instrument_id seen) ≡ true =
        ground (arith, same, Quotes-mentions p.instrument_id p.quantity log quoted) in
      rw kept (inr (inl quoted))
  settle_row conn now log seen p same (inr (inr fresh)) =
      elim (Bool-cases (p.broker_connection_id == conn)) [
        | inr other ↦ rw other (inl other)
        | inl own ↦
            let gone : (not (p.broker_connection_id == conn) || mem p.instrument_id seen) ≡ false =
              ground (arith, same, fresh, own) in
            elim (Bool-cases (is_zero d p.quantity)) [
              | inl z ↦ rw (gone, z) (inr (inr (fresh, z)))
              | inr z ↦ rw (gone, z) (inr (inr (fresh, zero-is_zero d)))
            ]
      ]

  close-AllSettled :
      (conn now : ℕ) (log : Log d) (seen : List ℕ) (rows : List (Position d))
      → ((i : ℕ) → mem i seen ≡ mentions d i log)
      → AllOpen d conn log rows
      → AllSettled d conn log (close_missing d conn seen now rows).0
  unfolding close_missing
  close-AllSettled conn now log seen [] same all = tt
  close-AllSettled conn now log seen (p ∷ rows) same (own, all) =
      rw (close_step d conn now seen p rows) (
        settle_row conn now log seen p (same p.instrument_id) own,
        close-AllSettled conn now log seen rows same all,
      )

  -- The loop after these reports.
  record Follows (conn : ℕ) (log : Log d) (t : Progress d) : Type 0 where
    open_rows : AllOpen d conn log t.rows
    unique : distinct d conn t.rows ≡ true
    quoted : AllQuoted d log t.added
    same_seen : (i : ℕ) → mem i t.seen ≡ mentions d i log
    counted : length log ≡ t.upserted

  upsert-Follows :
      (conn i now : ℕ) (bp : NormalizedPosition d) (log : Log d) (t : Progress d)
      → Follows conn log t
      → Follows conn ((i, bp.quantity) ∷ log) (upsert_position d conn i bp now t)
  unfolding upsert_position
  upsert-Follows conn i now bp log t h = elim (Bool-cases (has_position d conn i t.rows)) [
    | inl old ↦ rw old (record {
      open_rows = update-AllOpen d conn i now bp log t.rows h.unique h.open_rows;
      unique = distinct-update d conn i now bp t.rows ∙ h.unique;
      quoted = AllQuoted-more d i bp.quantity log t.added h.quoted;
      same_seen = λ j. ground (arith, h.same_seen j);
      counted = omega (arith, h.counted);
    })
    | inr new ↦ rw new (record {
      open_rows =
          AllOpen-more d conn i bp.quantity log t.rows (has_row-position d conn i t.rows ∙ new)
            h.open_rows;
      unique = h.unique;
      quoted =
          quoted-append d ((i, bp.quantity) ∷ log) t.added _
            (AllQuoted-more d i bp.quantity log t.added h.quoted) (inl (refl, refl), tt);
      same_seen = λ j. ground (arith, h.same_seen j);
      counted = omega (arith, h.counted);
    })
  ]

  keep-Follows :
      (conn : ℕ) (log : Log d) (t t' : Progress d)
      → t'.rows ≡ t.rows
      → t'.added ≡ t.added
      → t'.seen ≡ t.seen
      → t'.upserted ≡ t.upserted
      → Follows conn log t
      → Follows conn log t'
  keep-Follows conn log t t' rows added seen upserted h = record {
    open_rows = rw rows h.open_rows;
    unique = rw rows h.unique;
    quoted = rw added h.quoted;
    same_seen = λ i. rw seen (h.same_seen i);
    counted = rw upserted h.counted;
  }

  module _ (texts : Texts) (instruments : List Instrument) (conn : ℕ) (broker : String) where
    abbrev logged : NormalizedPosition d → Normalized → Log d → Log d
    logged bp (found i) log = (i.id, bp.quantity) ∷ log
    logged bp not_mapped log = log
    logged bp ambiguous log = log

    -- The instruments that the reports are normalised to, each with its quantity, the last report first.
    abbrev pub reported : List (NormalizedPosition d) → List SymbolMapping → Log d → Log d
    reported [] mappings log = log
    reported (bp ∷ bps) mappings log =
        let (r, after) =
          normalize_symbol texts instruments broker bp.broker_symbol bp.exchange mappings in
        reported bps after (logged bp r log)

    apply-Follows :
        (now : ℕ) (bp : NormalizedPosition d) (r : Normalized) (log : Log d) (t t' : Progress d)
        → Follows conn log t
        → apply_position d texts instruments conn broker now bp r t ≡ done t'
        → Follows conn (logged bp r log) t' × (t'.mappings ≡ t.mappings)
    unfolding upsert_position
    apply-Follows now bp (found i) log t t' h e =
        rw (← done_inj e) (upsert-Follows conn i.id now bp log t h, ground arith)
    apply-Follows now bp not_mapped log t t' h e =
        rw (← done_inj e) (keep-Follows conn log t _ refl refl refl refl h, refl)
    apply-Follows now bp ambiguous log t t' h e = cc e

    loop-Follows :
        (bps : List (NormalizedPosition d)) (now : ℕ) (log : Log d) (t t' : Progress d)
        → Follows conn log t
        → position_loop d texts instruments conn broker now bps t ≡ done t'
        → Follows conn (reported bps t.mappings log) t'
    unfolding position_loop sync_position
    loop-Follows [] now log t t' h e = rw (← done_inj e) h
    loop-Follows (bp ∷ bps) now log t t' h e =
        let (r, mappings) =
          normalize_symbol texts instruments broker bp.broker_symbol bp.exchange t.mappings in
        let here = record t { mappings = mappings } in
        let (first, step, rest) =
          bind_done (apply_position d texts instruments conn broker now bp r here)
            (position_loop d texts instruments conn broker now bps) t' e in
        let (follows, same) =
          apply-Follows now bp r log here first (keep-Follows conn log t here refl refl refl refl h)
            step in
        let all = loop-Follows bps now (logged bp r log) first t' follows rest in
        subst (λ m. Follows conn (reported bps m (logged bp r log)) t') same all

    -- A sync of positions that returns, from rows of the connection with distinct d instruments, counts
    -- every report once, as upserted where it is normalised to an instrument and else as skipped, and
    -- keeps the rows of other connections. Each row of its own has afterwards a quantity that the broker
    -- reported for its instrument, or its instrument was not reported and it has no quantity.
    pub sync_positions-reported :
        (bps : List (NormalizedPosition d)) (now : ℕ) (positions : List (Position d))
        (mappings : List SymbolMapping) (r : PositionsSynced d)
        → distinct d conn positions ≡ true
        → sync_positions d texts instruments conn broker bps now positions mappings ≡ done r
        → (r.upserted ≡ length (reported bps mappings []))
          × (r.upserted + r.skipped ≡ length bps)
          × (others d conn r.positions ≡ others d conn positions)
          × AllSettled d conn (reported bps mappings []) r.positions
    unfolding sync_positions
    sync_positions-reported bps now positions mappings r unique e =
        let (counts, kept, seen) =
          sync_positions-reconciled d texts instruments conn broker bps now positions mappings r
            e in
        let start : Progress d = record {
          rows = positions;
          added = [];
          mappings = mappings;
          seen = [];
          upserted = 0;
          skipped = 0;
          warnings = [];
        } in
        let (t, looped, finished) =
          bind_done (position_loop d texts instruments conn broker now bps start)
            (finish_positions d conn now) r e in
        let fresh : Follows conn [] start = record {
          open_rows = open_start d conn positions;
          unique = unique;
          quoted = tt;
          same_seen = λ i. refl;
          counted = refl;
        } in
        let h = loop-Follows bps now [] start t fresh looped in
        let (rows, upserted, skipped) =
          finish_lem d texts instruments conn broker now t r finished in
        let log = reported bps mappings [] in
        (
          upserted ∙ sym h.counted,
          counts,
          kept,
          rw rows (
              settled-append d conn log (close_missing d conn t.seen now t.rows).0 t.added
                (close-AllSettled conn now log t.seen t.rows h.same_seen h.open_rows) h.quoted),
        )
