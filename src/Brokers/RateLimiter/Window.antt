-- ===== src/Brokers/RateLimiter/Window.antt =====
-- Admissions and the window that the sorted set keeps of them.
use nivara.Prelude.{
  ℕ, suc, ◌+◌, ◌*◌, ◌/◌, ◌≤◌, ◌<◌, ◌≡◌, refl, Bool, true, false, ◌&&◌, Option, none, some, List, [],
  ◌∷◌, arith, ltb, leb, length, Bool-cases, inl, inr, if◌then◌else◌,
}
use nivara.Redis.Ranks.{Ranks, recent, insert}
use nivara.Brokers.RateLimiter.{
  Limiter, limiter, probe, admit, attempt, until_oldest, is_admitted, admissions,
}

-- How many admissions lie in the window that ends at `t`.
abbrev pub in_window : ℕ → ℕ → List ℕ → ℕ
in_window window t [] = 0
in_window window t (h ∷ past) =
    if leb h t && ltb t (h + window) then suc (in_window window t past) else in_window window t past

abbrev AllUpTo : ℕ → List ℕ → Type 0
AllUpTo now [] = Unit
AllUpTo now (h ∷ past) = (h ≤ now) × AllUpTo now past

AllUpTo-later : (now t : ℕ) (past : List ℕ) → now ≤ t → AllUpTo now past → AllUpTo t past
AllUpTo-later now t [] le h = tt
AllUpTo-later now t (x ∷ past) le h = (omega (arith, le, h.0), AllUpTo-later now t past le h.1)

-- A later window holds fewer of the admissions that are past.
in_window_anti :
    (window now t : ℕ) (past : List ℕ)
    → AllUpTo now past
    → now ≤ t
    → in_window window t past ≤ in_window window now past
in_window_anti window now t [] h le = omega arith
in_window_anti window now t (x ∷ past) h le =
    ground (arith, h.0, le, in_window_anti window now t past h.1 le)

in_window_none :
    (window now t : ℕ) (past : List ℕ)
    → AllUpTo now past
    → now + window ≤ t
    → in_window window t past ≡ 0
in_window_none window now t [] h le = refl
in_window_none window now t (x ∷ past) h le =
    ground (arith, h.0, le, in_window_none window now t past h.1 le)

module _ {M : Type 0} where
  recent-insert :
      (before : M → M → Bool) (window t : ℕ) (e : M × ℕ) (es : List (M × ℕ))
      → length (recent window t (insert before e es)) ≡ length (recent window t (e ∷ es))
  recent-insert before window t e [] = refl
  recent-insert before window t e (f ∷ es) = ground (arith, recent-insert before window t e es)

  recent-recent :
      (window now t : ℕ) (es : List (M × ℕ))
      → now ≤ t
      → recent window t (recent window now es) ≡ recent window t es
  recent-recent window now t [] le = refl
  recent-recent window now t (e ∷ es) le = ground (arith, le, recent-recent window now t es le)

-- The key outlives the window.
expire_covers :
    (max_requests window_us max_wait_ms : ℕ) (lim : Limiter)
    → limiter max_requests window_us max_wait_ms ≡ some lim
    → lim.window_ms ≤ lim.expire_s * 1000
unfolding limiter
expire_covers max_requests window_us max_wait_ms lim h =
    let p : window_us / 1000 ≤ (window_us * 2 / 1000000 + 1) * 1000 = omega arith in
    ground (arith, h, p)

fields :
    (max_requests window_us max_wait_ms : ℕ) (lim : Limiter)
    → limiter max_requests window_us max_wait_ms ≡ some lim
    → (lim.max_requests ≡ max_requests) × (lim.window_ms ≡ window_us / 1000)
unfolding limiter
fields max_requests window_us max_wait_ms lim h = (ground (arith, h), ground (arith, h))

module _ {M : Type 0} (redis : Ranks M) (lim : Limiter) where
  open redis use {Store, entries, entries-trim, zcard_lem, entries-zadd, entries-expire}

  -- The sorted set agrees with the admissions so far, from `now` on.
  pub record Tracks (now : ℕ) (s : Store) (past : List ℕ) : Type 0 where
    pub known :
        (seen t : ℕ)
        → now ≤ seen
        → seen ≤ t
        → length (recent lim.window_ms t (entries seen s)) ≡ in_window lim.window_ms t past
    pub up_to : AllUpTo now past

  pub probe_count :
      (now t : ℕ) (s : Store) (past : List ℕ)
      → Tracks now s past
      → now ≤ t
      → (probe redis lim t s).0 ≡ in_window lim.window_ms t past
  unfolding probe
  probe_count now t s past h le =
      let kept = redis.trim lim.window_ms t s in
      rw (zcard_lem t kept, entries-trim lim.window_ms t t s (omega arith))
        (h.known t t le (omega arith))

  pub probe-Tracks :
      (now t : ℕ) (s : Store) (past : List ℕ)
      → Tracks now s past
      → now ≤ t
      → Tracks t (probe redis lim t s).1 past
  unfolding probe
  probe-Tracks now t s past h le = record {
    known = λ seen u p q.
        rw
          (
            entries-trim lim.window_ms t seen s p,
            recent-recent lim.window_ms t u (entries seen s) (omega (arith, p, q)),
          )
          (h.known seen u (omega (arith, le, p)) q);
    up_to = AllUpTo-later now t past le h.up_to;
  }

  pub admit-Tracks :
      (member : M) (now : ℕ) (s : Store) (past : List ℕ)
      → lim.window_ms ≤ lim.expire_s * 1000
      → Tracks now s past
      → Tracks now (admit redis lim member now s) (now ∷ past)
  unfolding admit
  admit-Tracks member now s past long h = record {
    known = λ seen u p q.
        let w = lim.window_ms in
        let added = redis.zadd member now s in
        ground (
          arith,
          long,
          p,
          q,
          entries-expire lim.expire_s now seen added p,
          entries-zadd member now s,
          recent-insert redis.before w u (member, now) (entries now s),
          h.known now u (omega arith) (omega (arith, p, q)),
          in_window_none w now u past h.up_to,
        );
    up_to = (omega arith, h.up_to);
  }

  waits :
      (now : ℕ) (o : Option (M × ℕ)) → is_admitted redis lim (until_oldest redis lim now o) ≡ false
  waits now none = refl
  waits now (some e) = refl

  -- Where the sorted set agrees with the past admissions and its key outlives the window, a round
  -- at `t` is admitted exactly when fewer than the maximum were admitted in the window that ends
  -- at `t`; admitted or not, the sorted set agrees with the admissions afterwards.
  pub attempt_lem :
      (member : M) (now t : ℕ) (s : Store) (past : List ℕ)
      → lim.window_ms ≤ lim.expire_s * 1000
      → Tracks now s past
      → now ≤ t
      → let (turn, s') = attempt redis lim member t s in
        let ok = is_admitted redis lim turn in
        (ok ≡ ltb (in_window lim.window_ms t past) lim.max_requests)
        × Tracks t s' (if ok then t ∷ past else past)
  unfolding attempt
  attempt_lem member now t s past long h le =
      let count = probe_count now t s past h le in
      let kept = probe-Tracks now t s past h le in
      elim (Bool-cases (ltb (in_window lim.window_ms t past) lim.max_requests)) [
        | inl room ↦ rw (count, room) (refl, admit-Tracks member t _ past long kept)
        | inr full ↦
            rw (count, full)
              (waits t _, rw (waits t (redis.zrange_first t (probe redis lim t s).1)) kept)
      ]

  -- The times of the rounds never go back.
  abbrev pub InOrder : ℕ → List (M × ℕ) → Type 0
  InOrder now [] = Unit
  InOrder now ((member, t) ∷ rounds) = (now ≤ t) × InOrder t rounds

  -- No window holds more than the maximum.
  abbrev pub IsLimited : List ℕ → Type 0
  IsLimited past = (t : ℕ) → in_window lim.window_ms t past ≤ lim.max_requests

  admit-IsLimited :
      (now : ℕ) (past : List ℕ)
      → AllUpTo now past
      → in_window lim.window_ms now past < lim.max_requests
      → IsLimited past
      → IsLimited (now ∷ past)
  admit-IsLimited now past up_to room limited t =
      ground (arith, room, limited t, in_window_anti lim.window_ms now t past up_to)

  step-IsLimited :
      (now : ℕ) (past : List ℕ)
      → AllUpTo now past
      → IsLimited past
      → (ok : Bool) → ok ≡ ltb (in_window lim.window_ms now past) lim.max_requests
      → IsLimited (if ok then now ∷ past else past)
  step-IsLimited now past up_to limited true room =
      admit-IsLimited now past up_to (ground (arith, room)) limited
  step-IsLimited now past up_to limited false room = limited

  admissions-IsLimited :
      (rounds : List (M × ℕ)) (now : ℕ) (s : Store) (past : List ℕ)
      → lim.window_ms ≤ lim.expire_s * 1000
      → InOrder now rounds
      → Tracks now s past
      → IsLimited past
      → IsLimited (admissions redis lim rounds past s).0
  unfolding admissions
  admissions-IsLimited [] now s past long order h limited = limited
  admissions-IsLimited ((member, t) ∷ rounds) now s past long order h limited =
      let (ok, after) = attempt_lem member now t s past long h order.0 in
      let up_to = AllUpTo-later now t past order.0 h.up_to in
      admissions-IsLimited rounds t _ _ long order.1 after
        (step-IsLimited t past up_to limited _ ok)

-- From an empty key on, whichever workers take whichever rounds, one round after another at times
-- that never go back, no window of the limiter's length, cut to whole milliseconds, holds more than
-- `max_requests` admissions.
pub admissions-limited :
    {M : Type 0} (redis : Ranks M) (lim : Limiter) (max_requests window_us max_wait_ms now t : ℕ)
    (rounds : List (M × ℕ)) (s : redis.Store)
    → limiter max_requests window_us max_wait_ms ≡ some lim
    → InOrder redis lim now rounds
    → ((seen : ℕ) → redis.entries seen s ≡ [])
    → in_window (window_us / 1000) t (admissions redis lim rounds [] s).0 ≤ max_requests
admissions-limited redis lim max_requests window_us max_wait_ms now t rounds s built order empty =
    let long = expire_covers max_requests window_us max_wait_ms lim built in
    let fresh : Tracks redis lim now s [] = record {
      known = λ seen u p q. rw (empty seen);
      up_to = tt;
    } in
    let bound =
      admissions-IsLimited redis lim rounds now s [] long order fresh (λ u. omega arith) t in
    rw (← (fields max_requests window_us max_wait_ms lim built).0)
      (rw (← (fields max_requests window_us max_wait_ms lim built).1) bound)
