-- ===== src/Redis/Values.antt =====
-- Plain keys: GET, SET with a time to live, SET NX, GETDEL and DEL.
use nivara.Prelude.{
  ℕ, ◌+◌, ◌≤◌, ◌≡◌, Bool, true, false, Option, none, some, arith, ltb, if◌then◌else◌, refl,
}

-- What a command that is sent at `now` with `EX ttl` shows at time `t`.
abbrev pub live : {V : Type 0} → Option ℕ → ℕ → ℕ → V → Option V
live none now t v = some v
live (some ttl) now t v = if ltb t (now + ttl) then some v else none

pub record Values (K V : Type 0) : Type 1 where
  pub Store : Type 0
  pub same : K → K → Bool
  -- GET at a time, in seconds
  pub get : K → ℕ → Store → Option V
  -- SET key value EX ttl; `none` stands for no EX
  pub set : K → V → Option ℕ → ℕ → Store → Store
  -- SET key value EX ttl NX; whether the key was set
  pub set_nx : K → V → Option ℕ → ℕ → Store → Bool × Store
  pub delete : K → Store → Store
  pub getdel : K → ℕ → Store → Option V × Store
  pub same_iff : (k j : K) → (same k j ≡ true → k ≡ j) × (k ≡ j → same k j ≡ true)
  pub get-set :
      (k j : K) (v : V) (ttl : Option ℕ) (now t : ℕ) (s : Store)
      → now ≤ t
      → get j t (set k v ttl now s) ≡ (if same k j then live ttl now t v else get j t s)
  pub set_nx_lem :
      (k : K) (v : V) (ttl : Option ℕ) (now : ℕ) (s : Store)
      → set_nx k v ttl now s
        ≡ elim (get k now s) [ none ↦ (true, set k v ttl now s) | some _ ↦ (false, s) ]
  pub get-delete :
      (k j : K) (t : ℕ) (s : Store) → get j t (delete k s) ≡ (if same k j then none else get j t s)
  pub getdel_lem : (k : K) (t : ℕ) (s : Store) → getdel k t s ≡ (get k t s, delete k s)

-- The stored value and the time at which it is gone.
abbrev pub Entry : Type 0 → Type 0
Entry V = Option (V × Option ℕ)

abbrev pub alive : {V : Type 0} → ℕ → Entry V → Option V
alive t none = none
alive t (some (v, none)) = some v
alive t (some (v, some e)) = if ltb t e then some v else none

abbrev pub put :
    {K V : Type 0} → (K → K → Bool) → K → V → Option ℕ → ℕ → (K → Entry V) → K → Entry V
put same k v none now s j = if same k j then some (v, none) else s j
put same k v (some ttl) now s j = if same k j then some (v, some (now + ttl)) else s j

pub alive-put :
    {K V : Type 0} (same : K → K → Bool) (k j : K) (v : V) (ttl : Option ℕ) (now t : ℕ)
    (s : K → Entry V)
    → alive t (put same k v ttl now s j) ≡ (if same k j then live ttl now t v else alive t (s j))
alive-put same k j v none now t s = ground arith
alive-put same k j v (some ttl) now t s = ground arith

pub alive-if :
    {K V : Type 0} (same : K → K → Bool) (k j : K) (t : ℕ) (s : K → Entry V)
    → alive t (if same k j then none else s j) ≡ (if same k j then none else alive t (s j))
alive-if same k j t s = ground arith

-- A store in memory meets the laws.
abbrev pub memory :
    {K : Type 0} (V : Type 0) (same : K → K → Bool)
    → ((k j : K) → (same k j ≡ true → k ≡ j) × (k ≡ j → same k j ≡ true))
    → Values K V
memory {K} V same iff = record {
  Store = K → Entry V;
  same = same;
  get = λ k t s. alive t (s k);
  set = put same;
  set_nx = λ k v ttl now s. elim (alive now (s k)) [
    | none ↦ (true, put same k v ttl now s)
    | some _ ↦ (false, s)
  ];
  delete = λ k s j. if same k j then none else s j;
  getdel = λ k t s. (alive t (s k), λ j. if same k j then none else s j);
  same_iff = iff;
  get-set = λ k j v ttl now t s h. alive-put same k j v ttl now t s;
  set_nx_lem = λ k v ttl now s. refl;
  get-delete = λ k j t s. alive-if same k j t s;
  getdel_lem = λ k t s. refl;
}
