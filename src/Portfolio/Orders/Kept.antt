-- ===== src/Portfolio/Orders/Kept.antt =====
-- The orders of the table across a sync.
use nivara.Prelude.{
  ℕ, suc, ◌+◌, String, ◌≡◌, refl, ap, ◌∙◌, true, ◌&&◌, none, List, [], ◌∷◌, ◌++◌, arith, length,
  length-append, Bool-cases, inl, inr, str_eq,
}
use nivara.Decimals.{Decimals}
use nivara.Portfolio.Symbols.{
  Instrument, SymbolMapping, Texts, Normalized, found, not_mapped, ambiguous, normalize_symbol,
  normalize_clean, infer, candidate, mapping_fits, matching,
}
use nivara.Portfolio.Sync.{unmapped_order_symbol, done, multiple_results_found}
use nivara.Portfolio.Sync.Reconcile.{done_inj, bind_done}
use nivara.Portfolio.Orders.{
  IdempotencyKey, Order, NormalizedOrder, has_order, update_order, OrderProgress, upsert_order,
  OrdersSynced, finish_orders, apply_order, sync_order, order_loop, sync_orders,
}

module _ (d : Decimals) where
  abbrev pub keys : List (Order d) → List IdempotencyKey
  keys [] = []
  keys (o ∷ rows) = o.idempotency_key ∷ keys rows

  keys-append : (xs ys : List (Order d)) → keys (xs ++ ys) ≡ keys xs ++ keys ys
  keys-append [] ys = refl
  keys-append (o ∷ xs) ys = ap (λ ks. o.idempotency_key ∷ ks) (keys-append xs ys)

  keys-update :
      (conn : ℕ) (bo : NormalizedOrder d) (rows : List (Order d))
      → keys (update_order d conn bo rows) ≡ keys rows
  unfolding update_order
  keys-update conn bo [] = refl
  keys-update conn bo (o ∷ rows) = ground (arith, keys-update conn bo rows)

  -- The loop so far has counted `n` orders, and the table's keys are those from before.
  record IsKept (n : ℕ) (before : List (Order d)) (t : OrderProgress d) : Type 0 where
    same_keys : keys t.rows ≡ keys before
    counted : t.upserted + length t.warnings ≡ n

  upsert-IsKept :
      (conn i n : ℕ) (bo : NormalizedOrder d) (before : List (Order d)) (t : OrderProgress d)
      → IsKept n before t
      → IsKept (suc n) before (upsert_order d conn i bo t)
  unfolding upsert_order
  upsert-IsKept conn i n bo before t h =
      elim (Bool-cases (has_order d conn bo.broker_order_id t.rows)) [
        | inl old ↦ rw old (record {
          same_keys = keys-update conn bo t.rows ∙ h.same_keys;
          counted = omega (arith, h.counted);
        })
        | inr new ↦ rw new (record { same_keys = h.same_keys; counted = omega (arith, h.counted) })
      ]

  module _ (texts : Texts) (instruments : List Instrument) (conn : ℕ) (broker : String) where
    apply-IsKept :
        (n : ℕ) (bo : NormalizedOrder d) (r : Normalized) (before : List (Order d))
        (mappings : List SymbolMapping) (t t' : OrderProgress d)
        → IsKept n before t
        → apply_order d texts instruments conn broker bo r (record t { mappings = mappings })
          ≡ done t'
        → IsKept (suc n) before t'
    apply-IsKept n bo (found i) before mappings t t' h e =
        let here : IsKept n before (record t { mappings = mappings }) = record {
          same_keys = h.same_keys;
          counted = h.counted;
        } in
        rw (← done_inj e) (upsert-IsKept conn i.id n bo before _ here)
    apply-IsKept n bo not_mapped before mappings t t' h e = rw (← done_inj e) (record {
      same_keys = h.same_keys;
      counted = omega (
        arith,
        h.counted,
        length-append t.warnings (unmapped_order_symbol bo.broker_symbol ∷ []),
      );
    })
    apply-IsKept n bo ambiguous before mappings t t' h e = cc e

    loop-IsKept :
        (bos : List (NormalizedOrder d)) (n : ℕ) (before : List (Order d)) (t t' : OrderProgress d)
        → IsKept n before t
        → order_loop d texts instruments conn broker bos t ≡ done t'
        → IsKept (n + length bos) before t'
    unfolding order_loop sync_order
    loop-IsKept [] n before t t' h e = let p : n + 0 ≡ n = omega arith in rw (p, ← done_inj e) h
    loop-IsKept (bo ∷ bos) n before t t' h e =
        let p : n + suc (length bos) ≡ suc n + length bos = omega arith in
        let (r, mappings) =
          normalize_symbol texts instruments broker bo.broker_symbol none t.mappings in
        let (first, step, rest) =
          bind_done
            (apply_order d texts instruments conn broker bo r (record t { mappings = mappings }))
            (order_loop d texts instruments conn broker bos) t' e in
        rw p (
          loop-IsKept bos (suc n) before first t'
            (apply-IsKept n bo r before mappings t first h step) rest)

    finish_lem :
        (t : OrderProgress d) (r : OrdersSynced d)
        → finish_orders d t ≡ done r
        → (r.orders ≡ t.rows ++ t.added) × (r.upserted ≡ t.upserted) × (r.warnings ≡ t.warnings)
    unfolding finish_orders
    finish_lem t r e = (ground (arith, e), ground (arith, e), ground (arith, e))

    -- A sync of orders that returns deletes no order and changes no idempotency key: the keys of the
    -- table are those from before, in their order, with the new ones behind them. Each reported order
    -- is counted as upserted or has a warning.
    pub sync_orders-keys :
        (bos : List (NormalizedOrder d)) (orders : List (Order d)) (mappings : List SymbolMapping)
        (r : OrdersSynced d)
        → sync_orders d texts instruments conn broker bos orders mappings ≡ done r
        → (r.upserted + length r.warnings ≡ length bos)
          × ((added : List (Order d)) × (keys r.orders ≡ keys orders ++ keys added))
    unfolding sync_orders
    sync_orders-keys bos orders mappings r e =
        let start : OrderProgress d = record {
          rows = orders;
          added = [];
          mappings = mappings;
          upserted = 0;
          warnings = [];
        } in
        let (t, looped, finished) =
          bind_done (order_loop d texts instruments conn broker bos start) (finish_orders d) r e in
        let fresh : IsKept 0 orders start = record { same_keys = refl; counted = refl } in
        let h = loop-IsKept bos 0 orders start t fresh looped in
        let (rows, upserted, warned) = finish_lem t r finished in
        (
          omega (arith, h.counted, upserted, ap length warned),
          (t.added, rw (rows, keys-append t.rows t.added, h.same_keys)),
        )

    two_listings :
        (symbol : String) (mappings : List SymbolMapping) (i j : Instrument)
        (rest : List Instrument)
        → matching (mapping_fits broker symbol none) mappings ≡ []
        → matching (λ k. str_eq k.symbol (texts.upper symbol) && true) instruments ≡ i ∷ j ∷ rest
        → normalize_clean texts instruments broker symbol none mappings ≡ (ambiguous, mappings)
    unfolding normalize_clean infer candidate
    two_listings symbol mappings i j rest unmapped two = ground (arith, unmapped, two)

    -- A first order whose symbol has no mapping without an exchange and is the symbol of two
    -- instruments or more makes the whole sync of orders fail.
    pub sync_orders-two_listings :
        (bo : NormalizedOrder d) (bos : List (NormalizedOrder d)) (orders : List (Order d))
        (mappings : List SymbolMapping) (i j : Instrument) (rest : List Instrument)
        → matching (mapping_fits broker (texts.strip bo.broker_symbol) none) mappings ≡ []
        → matching
            (λ k. str_eq k.symbol (texts.upper (texts.strip bo.broker_symbol)) && true)
            instruments
          ≡ i ∷ j ∷ rest
        → sync_orders d texts instruments conn broker (bo ∷ bos) orders mappings
          ≡ multiple_results_found
    unfolding sync_orders order_loop sync_order normalize_symbol
    sync_orders-two_listings bo bos orders mappings i j rest unmapped two =
        ground (arith, two_listings (texts.strip bo.broker_symbol) mappings i j rest unmapped two)
