-- ===== src/Brokers/RateLimiter/Overlap.antt =====
-- Two workers whose rounds overlap: both probe before either admits.
use nivara.Prelude.{ℕ, suc, ◌*◌, ◌≤◌, ◌<◌, ◌≡◌, true, List, ◌∷◌, arith, ltb}
use nivara.Redis.Ranks.{Ranks}
use nivara.Brokers.RateLimiter.{Limiter, probe, admit}
use nivara.Brokers.RateLimiter.Window.{in_window, Tracks, probe_count, probe-Tracks, admit-Tracks}

module _ {M : Type 0} (redis : Ranks M) (lim : Limiter) where
  -- Where the sorted set agrees with the past admissions, its key outlives the window, and one
  -- request less than the maximum lies in the window: two workers that both count before either
  -- adds its own both find room, and the window then holds one request more than the maximum.
  pub probe-admit_overlap :
      (mine yours : M) (now t : ℕ) (s : redis.Store) (past : List ℕ)
      → 0 < lim.window_ms
      → lim.window_ms ≤ lim.expire_s * 1000
      → Tracks redis lim now s past
      → now ≤ t
      → suc (in_window lim.window_ms t past) ≡ lim.max_requests
      → let (my_count, s1) = probe redis lim t s in
        let (your_count, s2) = probe redis lim t s1 in
        let s' = admit redis lim yours t (admit redis lim mine t s2) in
        (ltb my_count lim.max_requests ≡ true)
        × (ltb your_count lim.max_requests ≡ true)
        × Tracks redis lim t s' (t ∷ t ∷ past)
        × (in_window lim.window_ms t (t ∷ t ∷ past) ≡ suc lim.max_requests)
  probe-admit_overlap mine yours now t s past wide long h le last =
      let s1 = (probe redis lim t s).1 in
      let first = probe-Tracks redis lim now t s past h le in
      let second = probe-Tracks redis lim t t s1 past first (omega arith) in
      let count = probe_count redis lim now t s past h le in
      let again = probe_count redis lim t t s1 past first (omega arith) in
      let added = admit-Tracks redis lim mine t (probe redis lim t s1).1 past long second in
      (
        ground (arith, count, last),
        ground (arith, again, last),
        admit-Tracks redis lim yours t _ (t ∷ past) long added,
        ground (arith, wide, last),
      )
