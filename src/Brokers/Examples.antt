-- ===== src/Brokers/Examples.antt =====
-- Tests of the rate limiter, on a sorted set in memory.
use nivara.Prelude.{ℕ, ◌≤◌, ◌≡◌, refl, true, none, some, List, [], ◌∷◌, ltb, arith}
use nivara.Redis.Ranks
use nivara.Redis.Ranks.{Ranks}
use nivara.Brokers.RateLimiter.{Limiter, limiter, admissions, probe, admit}
use nivara.Brokers.RateLimiter.Overlap.{probe-admit_overlap}
use nivara.Brokers.RateLimiter.Window.{in_window, admissions-limited, Tracks, InOrder}

abbrev redis : Ranks ℕ
redis = Ranks.memory ltb

abbrev two_a_second : Limiter
two_a_second = record { max_requests = 2; window_ms = 1000; max_wait_ms = 30000; expire_s = 3 }

abbrev rounds : List (ℕ × ℕ)
rounds = (1, 5000) ∷ (2, 5001) ∷ (3, 5002) ∷ (4, 6000) ∷ []

built : limiter 2 1000000 30000 ≡ some two_a_second
unfolding limiter
built = refl

order : InOrder redis two_a_second 5000 rounds
order = (omega arith, (omega arith, (omega arith, (omega arith, tt))))

fresh : Tracks redis two_a_second 5000 (record { items = []; deadline = none }) []
fresh = record { known = λ seen t p q. refl; up_to = tt }

admissions-limited_example :
    in_window 1000 6000
      (admissions redis two_a_second rounds [] (record { items = []; deadline = none })).0
    ≤ 2
admissions-limited_example =
    admissions-limited redis two_a_second 2 1000000 30000 5000 6000 rounds
      (record { items = []; deadline = none }) built order (λ seen. refl)

abbrev one_a_second : Limiter
one_a_second = record { max_requests = 1; window_ms = 1000; max_wait_ms = 30000; expire_s = 3 }

fresh_one : Tracks redis one_a_second 5000 (record { items = []; deadline = none }) []
fresh_one = record { known = λ seen t p q. refl; up_to = tt }

probe-admit_overlap_example :
    let (my_count, s1) = probe redis one_a_second 5000 (record { items = []; deadline = none }) in
    let (your_count, s2) = probe redis one_a_second 5000 s1 in
    let s' = admit redis one_a_second 2 5000 (admit redis one_a_second 1 5000 s2) in
    (ltb my_count 1 ≡ true)
    × (ltb your_count 1 ≡ true)
    × Tracks redis one_a_second 5000 s' (5000 ∷ 5000 ∷ [])
    × (in_window 1000 5000 (5000 ∷ 5000 ∷ []) ≡ 2)
probe-admit_overlap_example =
    probe-admit_overlap redis one_a_second 1 2 5000 5000 (record { items = []; deadline = none }) []
      (omega arith) (omega arith) fresh_one (omega arith) refl
