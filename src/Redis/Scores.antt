-- ===== src/Redis/Scores.antt =====
-- Sorted sets seen member by member: ZREMRANGEBYSCORE, ZADD, ZADD NX, ZSCORE and EXPIRE.
-- A score is a time in seconds. A law about the key that a command writes speaks of the moment of
-- the command; a law about another key speaks of every moment.
use nivara.Prelude.{
  ℕ, ◌+◌, ◌≤◌, ◌≡◌, refl, Bool, true, false, Option, none, some, arith, leb, if◌then◌else◌,
}

-- A score at or below the cutoff is trimmed. `now - window` may be below zero, so the test is
-- written without the subtraction: `score ≤ now - window`.
abbrev pub trimmed : ℕ → ℕ → Option ℕ → Option ℕ
trimmed window now none = none
trimmed window now (some score) = if leb (score + window) now then none else some score

pub record Scores (K M : Type 0) : Type 1 where
  pub Store : Type 0
  pub same : K → K → Bool
  pub same_member : M → M → Bool
  -- ZSCORE at a time
  pub zscore : K → M → ℕ → Store → Option ℕ
  -- ZREMRANGEBYSCORE key -inf (now - window)
  pub trim : K → ℕ → ℕ → Store → Store
  pub zadd : K → M → ℕ → Store → Store
  -- ZADD NX; whether the member was added
  pub zadd_nx : K → M → ℕ → Store → Bool × Store
  -- EXPIRE key ttl, sent at `now`
  pub expire : K → ℕ → ℕ → Store → Store
  pub same_refl : (k : K) → same k k ≡ true
  pub same_member_refl : (m : M) → same_member m m ≡ true
  pub trim_self :
      (k : K) (m : M) (window now : ℕ) (s : Store)
      → zscore k m now (trim k window now s) ≡ trimmed window now (zscore k m now s)
  pub trim_other :
      (k j : K) (m : M) (window now t : ℕ) (s : Store)
      → same k j ≡ false
      → zscore j m t (trim k window now s) ≡ zscore j m t s
  pub zadd_self :
      (k : K) (m n : M) (now : ℕ) (s : Store)
      → zscore k n now (zadd k m now s) ≡ (if same_member m n then some now else zscore k n now s)
  pub zadd_other :
      (k j : K) (m n : M) (now t : ℕ) (s : Store)
      → same k j ≡ false
      → zscore j n t (zadd k m now s) ≡ zscore j n t s
  pub zadd_nx_lem :
      (k : K) (m : M) (now : ℕ) (s : Store)
      → zadd_nx k m now s
        ≡ elim (zscore k m now s) [ none ↦ (true, zadd k m now s) | some _ ↦ (false, s) ]
  -- The new time to live of a key that holds a member replaces the old one.
  pub expire_self :
      (k : K) (m n : M) (ttl now t : ℕ) (s : Store) {x : ℕ}
      → zscore k m now s ≡ some x
      → now ≤ t
      → zscore k n t (expire k ttl now s) ≡ (if leb (now + ttl) t then none else zscore k n now s)
  pub expire_other :
      (k j : K) (n : M) (ttl now t : ℕ) (s : Store)
      → same k j ≡ false
      → zscore j n t (expire k ttl now s) ≡ zscore j n t s

-- The members of one key, and the time at which the key is gone.
pub record Sorted (M : Type 0) : Type 0 where
  pub score : M → Option ℕ
  pub deadline : Option ℕ

abbrev pub gone : Option ℕ → ℕ → Bool
gone none t = false
gone (some e) t = leb e t

abbrev pub see : {M : Type 0} → ℕ → Sorted M → M → Option ℕ
see t z m = if gone z.deadline t then none else z.score m

-- What a command sees and keeps of a key: an expired key is empty and has no deadline.
abbrev pub kept : {M : Type 0} → ℕ → Sorted M → Option ℕ
kept t z = if gone z.deadline t then none else z.deadline

abbrev pub write : {K M : Type 0} → (K → K → Bool) → K → Sorted M → (K → Sorted M) → K → Sorted M
write same k z s j = if same k j then z else s j

module _ {M : Type 0} (z : Sorted M) (now : ℕ) where
  abbrev pub trim_key : ℕ → Sorted M
  trim_key window = record { score = λ m. trimmed window now (see now z m); deadline = kept now z }

  abbrev pub zadd_key : (M → M → Bool) → M → Sorted M
  zadd_key same m = record {
    score = λ n. if same m n then some now else see now z n;
    deadline = kept now z;
  }

  abbrev pub expire_key : ℕ → Sorted M
  expire_key ttl = record { score = see now z; deadline = some (now + ttl) }

  pub gone-kept : gone (kept now z) now ≡ false
  gone-kept = ground arith

-- A store in memory meets the laws.
abbrev pub memory :
    {K M : Type 0} (same : K → K → Bool) (same_member : M → M → Bool)
    → ((k : K) → same k k ≡ true)
    → ((m : M) → same_member m m ≡ true)
    → Scores K M
memory {K} {M} same same_member r rm = record {
  Store = K → Sorted M;
  same = same;
  same_member = same_member;
  zscore = λ k m t s. see t (s k) m;
  trim = λ k window now s. write same k (trim_key (s k) now window) s;
  zadd = λ k m now s. write same k (zadd_key (s k) now same_member m) s;
  zadd_nx = λ k m now s. elim (see now (s k) m) [
    | none ↦ (true, write same k (zadd_key (s k) now same_member m) s)
    | some _ ↦ (false, s)
  ];
  expire = λ k ttl now s. write same k (expire_key (s k) now ttl) s;
  same_refl = r;
  same_member_refl = rm;
  trim_self = λ k m window now s. rw (r k, gone-kept (s k) now);
  trim_other = λ k j m window now t s h. rw h;
  zadd_self = λ k m n now s. rw (r k, gone-kept (s k) now);
  zadd_other = λ k j m n now t s h. rw h;
  zadd_nx_lem = λ k m now s. refl;
  expire_self = λ k m n ttl now t s h le. rw (r k);
  expire_other = λ k j n ttl now t s h. rw h;
}
