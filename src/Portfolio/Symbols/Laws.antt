-- ===== src/Portfolio/Symbols/Laws.antt =====
-- Lookups of a symbol, one after another.
use nivara.Prelude.{
  String, ◌≡◌, refl, sym, ◌∙◌, ◌⊎◌, inl, inr, Bool, true, Option, none, some, is_some, List, [],
  ◌∷◌, ◌++◌, arith, eq_refl,
}
use nivara.Portfolio.Symbols.{
  Instrument, SymbolMapping, Texts, same_option, one_row, found, one_or_none, mapping_fits,
  matching, get_instrument, create_mapping, candidate, infer, normalize_clean, normalize_symbol,
}

-- Every mapping's instrument exists, as the foreign key demands.
abbrev pub NoneOrphaned : List Instrument → List SymbolMapping → Type 0
NoneOrphaned instruments [] = Unit
NoneOrphaned instruments (m ∷ rows) =
    (is_some (get_instrument m.instrument_id instruments) ≡ true) × NoneOrphaned instruments rows

-- Every instrument is the one of its id, as the primary key demands.
abbrev pub OwnIds : List Instrument → List Instrument → Type 0
OwnIds all [] = Unit
OwnIds all (i ∷ rest) = (get_instrument i.id all ≡ some i) × OwnIds all rest

same_option_refl : (o : Option String) → same_option o o ≡ true
same_option_refl none = refl
same_option_refl (some t) = eq_refl t

matching-append :
    {A : Type 0} (fits : A → Bool) (xs ys : List A)
    → matching fits (xs ++ ys) ≡ matching fits xs ++ matching fits ys
matching-append fits [] ys = refl
matching-append fits (x ∷ xs) ys = ground (arith, matching-append fits xs ys)

-- The one candidate is among the instruments.
one_own :
    (fits : Instrument → Bool) (all some_of : List Instrument) (i : Instrument)
    → OwnIds all some_of
    → matching fits some_of ≡ i ∷ []
    → get_instrument i.id all ≡ some i
one_own fits all [] i own h = cc h
one_own fits all (j ∷ rest) i own h = ground (arith, own.0, h, one_own fits all rest i own.1)

one_row_list :
    {A : Type 0} (as_list : List A) (a : A) → one_or_none as_list ≡ one_row a → as_list ≡ a ∷ []
one_row_list [] a h = cc h
one_row_list (b ∷ []) a h = ground (arith, h)
one_row_list (b ∷ c ∷ rest) a h = cc h

List-cases : {A : Type 0} (xs : List A) → (xs ≡ []) ⊎ ((a : A) × (rest : List A) × (xs ≡ a ∷ rest))
List-cases [] = inl refl
List-cases (a ∷ rest) = inr (a, rest, refl)

module _ (texts : Texts) (instruments : List Instrument) where
  abbrev row : String → String → Option String → Instrument → SymbolMapping
  row broker symbol exchange i = record {
    instrument_id = i.id;
    broker = broker;
    broker_symbol = symbol;
    broker_exchange = exchange;
  }

  created :
      (broker symbol : String) (exchange : Option String) (i : Instrument)
      (rows : List SymbolMapping)
      → matching (mapping_fits broker symbol exchange) rows ≡ []
      → create_mapping (row broker symbol exchange i) rows
        ≡ rows ++ row broker symbol exchange i ∷ []
  unfolding create_mapping
  created broker symbol none i rows fresh = refl
  created broker symbol (some e) i rows fresh = ground (arith, fresh)

  row_fits :
      (broker symbol : String) (exchange : Option String) (i : Instrument)
      → mapping_fits broker symbol exchange (row broker symbol exchange i) ≡ true
  row_fits broker symbol exchange i =
      ground (arith, eq_refl broker, eq_refl symbol, same_option_refl exchange)

  candidate_own :
      (symbol : String) (exchange : Option String) (i : Instrument)
      → OwnIds instruments instruments
      → candidate texts instruments symbol exchange ≡ one_row i
      → get_instrument i.id instruments ≡ some i
  unfolding candidate
  candidate_own symbol exchange i own h =
      one_own _ instruments instruments i own (one_row_list _ i h)

  inferred :
      (broker symbol : String) (exchange : Option String) (i : Instrument)
      (rows rows' : List SymbolMapping)
      → infer texts instruments broker symbol exchange rows ≡ (found i, rows')
      → (candidate texts instruments symbol exchange ≡ one_row i)
        × (rows' ≡ create_mapping (row broker symbol exchange i) rows)
  unfolding infer
  inferred broker symbol exchange i rows rows' h = (ground (arith, h), ground (arith, h))

  appended :
      (broker symbol : String) (exchange : Option String) (i : Instrument)
      (rows : List SymbolMapping)
      → OwnIds instruments instruments
      → matching (mapping_fits broker symbol exchange) rows ≡ []
      → candidate texts instruments symbol exchange ≡ one_row i
      → let rows' = rows ++ row broker symbol exchange i ∷ [] in
        normalize_clean texts instruments broker symbol exchange rows' ≡ (found i, rows')
  unfolding normalize_clean
  appended broker symbol exchange i rows own fresh cand =
      let m = row broker symbol exchange i in
      let fits = mapping_fits broker symbol exchange in
      let split = matching-append fits rows (m ∷ []) in
      let fit = row_fits broker symbol exchange i in
      let here = candidate_own symbol exchange i own cand in ground (arith, split, fresh, fit, here)

  -- What the fallback returns is the instrument of its mapping.
  infer_again :
      (broker symbol : String) (exchange : Option String) (i : Instrument)
      (rows rows' : List SymbolMapping)
      → OwnIds instruments instruments
      → matching (mapping_fits broker symbol exchange) rows ≡ []
      → infer texts instruments broker symbol exchange rows ≡ (found i, rows')
      → normalize_clean texts instruments broker symbol exchange rows' ≡ (found i, rows')
  infer_again broker symbol exchange i rows rows' own fresh h =
      let (cand, wrote) = inferred broker symbol exchange i rows rows' h in
      rw (wrote ∙ created broker symbol exchange i rows fresh)
        (appended broker symbol exchange i rows own fresh cand)

  one_mapped :
      (fits : SymbolMapping → Bool) (rows : List SymbolMapping) (m : SymbolMapping)
      → NoneOrphaned instruments rows
      → matching fits rows ≡ m ∷ []
      → is_some (get_instrument m.instrument_id instruments) ≡ true
  one_mapped fits [] m own h = cc h
  one_mapped fits (n ∷ rows) m own h = ground (arith, own.0, h, one_mapped fits rows m own.1)

  clean_fresh :
      (broker symbol : String) (exchange : Option String) (rows : List SymbolMapping)
      → matching (mapping_fits broker symbol exchange) rows ≡ []
      → normalize_clean texts instruments broker symbol exchange rows
        ≡ infer texts instruments broker symbol exchange rows
  unfolding normalize_clean
  clean_fresh broker symbol exchange rows fresh = ground (arith, fresh)

  clean_kept :
      (broker symbol : String) (exchange : Option String) (i : Instrument)
      (rows rows' : List SymbolMapping) (m : SymbolMapping) (rest : List SymbolMapping)
      → NoneOrphaned instruments rows
      → matching (mapping_fits broker symbol exchange) rows ≡ m ∷ rest
      → normalize_clean texts instruments broker symbol exchange rows ≡ (found i, rows')
      → rows' ≡ rows
  unfolding normalize_clean
  clean_kept broker symbol exchange i rows rows' m [] mapped some_row h =
      let there = one_mapped (mapping_fits broker symbol exchange) rows m mapped some_row in
      ground (arith, there, some_row, h)
  clean_kept broker symbol exchange i rows rows' m (n ∷ rest) mapped some_row h =
      ground (arith, some_row, h)

  clean_again :
      (broker symbol : String) (exchange : Option String) (i : Instrument)
      (rows rows' : List SymbolMapping)
      → OwnIds instruments instruments
      → NoneOrphaned instruments rows
      → normalize_clean texts instruments broker symbol exchange rows ≡ (found i, rows')
      → normalize_clean texts instruments broker symbol exchange rows' ≡ (found i, rows')
  clean_again broker symbol exchange i rows rows' own mapped h =
      elim (List-cases (matching (mapping_fits broker symbol exchange) rows)) [
        | inl fresh ↦
            infer_again broker symbol exchange i rows rows' own fresh
              (sym (clean_fresh broker symbol exchange rows fresh) ∙ h)
        | inr (m, rest, some_row) ↦
            cc (clean_kept broker symbol exchange i rows rows' m rest mapped some_row h, h)
      ]

  -- Where instruments have unique ids and every mapping's instrument exists, a symbol that was
  -- normalised once is normalised again to the same instrument, and the second lookup writes
  -- nothing.
  pub normalize_symbol_again :
      (broker broker_symbol : String) (broker_exchange : Option String) (i : Instrument)
      (rows rows' : List SymbolMapping)
      → OwnIds instruments instruments
      → NoneOrphaned instruments rows
      → normalize_symbol texts instruments broker broker_symbol broker_exchange rows
        ≡ (found i, rows')
      → normalize_symbol texts instruments broker broker_symbol broker_exchange rows'
        ≡ (found i, rows')
  unfolding normalize_symbol
  normalize_symbol_again broker broker_symbol broker_exchange i rows rows' own mapped h =
      clean_again broker _ _ i rows rows' own mapped h
