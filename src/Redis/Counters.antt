-- ===== src/Redis/Counters.antt =====
-- Counters: GET, INCR and EXPIRE NX of an integer key.
use nivara.Prelude.{
  ℕ, suc, ◌+◌, ◌≡◌, refl, Bool, true, false, Option, none, some, ltb, if◌then◌else◌,
}

-- The value of a counter and the time at which it is gone.
abbrev pub Entry : Type 0
Entry = Option (ℕ × Option ℕ)

abbrev pub alive : ℕ → Entry → Entry
alive t none = none
alive t (some (n, none)) = some (n, none)
alive t (some (n, some e)) = if ltb t e then some (n, some e) else none

abbrev pub bump : Entry → Entry
bump none = some (1, none)
bump (some (n, e)) = some (suc n, e)

-- EXPIRE NX sets a time to live where there is none.
abbrev pub mark : ℕ → Entry → Entry
mark e none = none
mark e (some (n, none)) = some (n, some e)
mark e (some (n, some d)) = some (n, some d)

-- `int(raw) if raw is not None else 0`
abbrev pub amount : Entry → ℕ
amount none = 0
amount (some (n, _)) = n

pub record Counters (K : Type 0) : Type 1 where
  pub Store : Type 0
  pub same : K → K → Bool
  -- what a key holds at a time, with its deadline
  pub entry : K → ℕ → Store → Entry
  -- the new value, and the store
  pub incr : K → ℕ → Store → ℕ × Store
  pub expire_nx : K → ℕ → ℕ → Store → Store
  pub same_iff : (k j : K) → (same k j ≡ true → k ≡ j) × (k ≡ j → same k j ≡ true)
  pub value-incr : (k : K) (now : ℕ) (s : Store) → (incr k now s).0 ≡ amount (bump (entry k now s))
  pub entry-incr :
      (k j : K) (now t : ℕ) (s : Store)
      → entry j t (incr k now s).1
        ≡ (if same k j then alive t (bump (entry k now s)) else entry j t s)
  pub entry-expire_nx :
      (k j : K) (ttl now t : ℕ) (s : Store)
      → entry j t (expire_nx k ttl now s)
        ≡ (if same k j then alive t (mark (now + ttl) (entry k now s)) else entry j t s)

abbrev pub write : {K : Type 0} → (K → K → Bool) → K → Entry → (K → Entry) → K → Entry
write same k e s j = if same k j then e else s j

pub alive-write :
    {K : Type 0} (same : K → K → Bool) (k j : K) (e : Entry) (s : K → Entry) (t : ℕ)
    → alive t (write same k e s j) ≡ (if same k j then alive t e else alive t (s j))
alive-write same k j e s t =
    elim (same k j)
      as (λ b. alive t (if b then e else s j) ≡ (if b then alive t e else alive t (s j))) [
        | true ↦ refl
        | false ↦ refl
      ]

-- A store in memory meets the laws.
abbrev pub memory :
    {K : Type 0} (same : K → K → Bool)
    → ((k j : K) → (same k j ≡ true → k ≡ j) × (k ≡ j → same k j ≡ true))
    → Counters K
memory {K} same iff = record {
  Store = K → Entry;
  same = same;
  entry = λ k t s. alive t (s k);
  incr = λ k now s. let e = bump (alive now (s k)) in (amount e, write same k e s);
  expire_nx = λ k ttl now s. write same k (mark (now + ttl) (alive now (s k))) s;
  same_iff = iff;
  value-incr = λ k now s. refl;
  entry-incr = λ k j now t s. alive-write same k j (bump (alive now (s k))) s t;
  entry-expire_nx =
      λ k j ttl now t s. alive-write same k j (mark (now + ttl) (alive now (s k))) s t;
}
