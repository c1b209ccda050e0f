-- ===== src/Redis/Ranks.antt =====
-- One sorted set seen as a list in the order of its scores: ZREMRANGEBYSCORE, ZCARD, ZRANGE 0 0,
-- ZADD of a new member and EXPIRE. Scores and times are in milliseconds.
use nivara.Prelude.{
  ℕ, ◌+◌, ◌*◌, ◌≤◌, ◌≡◌, refl, arith, Bool, ◌&&◌, ◌||◌, Option, none, some, List, [], ◌∷◌, ltb, leb,
  ◌==◌, length, if◌then◌else◌,
}

-- The entries that a trim at `now` leaves: those with `now - window < score`.
abbrev pub recent : {M : Type 0} → ℕ → ℕ → List (M × ℕ) → List (M × ℕ)
recent window now [] = []
recent window now (e ∷ es) =
    let rest = recent window now es in if ltb now (e.1 + window) then e ∷ rest else rest

-- ZADD puts a new member behind the smaller scores; members of one score stand in their own order.
abbrev pub insert : {M : Type 0} → (M → M → Bool) → M × ℕ → List (M × ℕ) → List (M × ℕ)
insert before e [] = e ∷ []
insert before e (f ∷ es) =
    if ltb e.1 f.1 || (e.1 == f.1 && before e.0 f.0) then e ∷ f ∷ es else f ∷ insert before e es

abbrev pub head? : {M : Type 0} → List (M × ℕ) → Option (M × ℕ)
head? [] = none
head? (e ∷ es) = some e

pub record Ranks (M : Type 0) : Type 1 where
  pub Store : Type 0
  pub before : M → M → Bool
  -- ZRANGE 0 -1 WITHSCORES at a time
  pub entries : ℕ → Store → List (M × ℕ)
  -- ZREMRANGEBYSCORE key 0 (now - window)
  pub trim : ℕ → ℕ → Store → Store
  pub zcard : ℕ → Store → ℕ
  pub zrange_first : ℕ → Store → Option (M × ℕ)
  -- ZADD of a member that is not in the set, with the time as its score
  pub zadd : M → ℕ → Store → Store
  -- EXPIRE with a time to live in seconds
  pub expire : ℕ → ℕ → Store → Store
  pub entries-trim :
      (window now t : ℕ) (s : Store)
      → now ≤ t
      → entries t (trim window now s) ≡ recent window now (entries t s)
  pub zcard_lem : (now : ℕ) (s : Store) → zcard now s ≡ length (entries now s)
  pub zrange_first_lem : (now : ℕ) (s : Store) → zrange_first now s ≡ head? (entries now s)
  -- The member is a new one, as the uuid4 is that the limiter adds; of a member that is in the set, Redis
  -- changes the score.
  pub entries-zadd :
      (m : M) (now : ℕ) (s : Store)
      → entries now (zadd m now s) ≡ insert before (m, now) (entries now s)
  pub entries-expire :
      (ttl now t : ℕ) (s : Store)
      → now ≤ t
      → entries t (expire ttl now s) ≡ (if leb (now + ttl * 1000) t then [] else entries now s)

-- The entries, and the time at which the key is gone.
pub record Key (M : Type 0) : Type 0 where
  pub items : List (M × ℕ)
  pub deadline : Option ℕ

abbrev pub see : {M : Type 0} → ℕ → Key M → List (M × ℕ)
see t k = elim k.deadline [ none ↦ k.items | some e ↦ if leb e t then [] else k.items ]

-- An expired key has no deadline any more.
abbrev pub kept : {M : Type 0} → ℕ → Key M → Option ℕ
kept t k = elim k.deadline [ none ↦ none | some e ↦ if leb e t then none else some e ]

abbrev pub trim_key : {M : Type 0} → ℕ → ℕ → Key M → Key M
trim_key window now k = record { items = recent window now (see now k); deadline = kept now k }

pub see-trim_key :
    {M : Type 0} (window now t : ℕ) (k : Key M)
    → now ≤ t
    → see t (trim_key window now k) ≡ recent window now (see t k)
see-trim_key window now t k h = ground arith

pub see-expire :
    {M : Type 0} (ttl now t : ℕ) (items : List (M × ℕ))
    → see t (record { items = items; deadline = some (now + ttl * 1000) })
      ≡ (if leb (now + ttl * 1000) t then [] else items)
see-expire ttl now t items = refl

-- A store in memory meets the laws.
abbrev pub memory : {M : Type 0} → (M → M → Bool) → Ranks M
memory {M} before = record {
  Store = Key M;
  before = before;
  entries = see;
  trim = trim_key;
  zcard = λ now k. length (see now k);
  zrange_first = λ now k. head? (see now k);
  zadd = λ m now k. record { items = insert before (m, now) (see now k); deadline = none };
  expire = λ ttl now k. record { items = see now k; deadline = some (now + ttl * 1000) };
  entries-trim = λ window now t s h. see-trim_key window now t s h;
  zcard_lem = λ now s. refl;
  zrange_first_lem = λ now s. refl;
  entries-zadd = λ m now s. refl;
  entries-expire = λ ttl now t s h. refl;
}
