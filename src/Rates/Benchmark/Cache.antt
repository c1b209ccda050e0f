-- ===== src/Rates/Benchmark/Cache.antt =====
-- What the benchmark service caches, and its fallback (backend/app/services/benchmark.py).
use nivara.Prelude.{
  ℕ, ◌+◌, ◌≤◌, ◌<◌, String, Bool, true, not, Option, none, some, List, ◌≡◌, is_some, arith, ap, ◌∙◌,
  if◌then◌else◌, Option-cases, inl, inr,
}
use nivara.Decimals.{Decimals}
use nivara.Redis.Values.{Values, live}
use nivara.Rates.Benchmark.{
  BenchmarkKey, benchmark, BenchmarkReturn, Payload, valid, valid_payload, endpoints, read_cache,
  write_cache, fresh_return, stale_return, fetched, get_return, benchmark_cache_ttl_seconds,
}

module _ (d : Decimals) (redis : Values BenchmarkKey (Payload d)) where
  open d use {Num}

  read_cache-write_cache :
      (key : BenchmarkKey) (obs : BenchmarkReturn d) (now at : ℕ) (store : redis.Store)
      → now ≤ at
      → at < now + benchmark_cache_ttl_seconds
      → read_cache d redis true key at (write_cache d redis true key obs now store) ≡ some obs
  read_cache-write_cache key obs now at store le lt = ap (valid_payload d redis) (
      redis.get-set key key (valid obs) (some benchmark_cache_ttl_seconds) now at store le
      ∙ live_now)
    where
      live_now :
          (if redis.same key key
            then live (some benchmark_cache_ttl_seconds) now at (valid obs)
            else redis.get key at store)
          ≡ some (valid obs)
      live_now = ground (arith, redis.same_iff key key)

  get_return-hit :
      (up : Bool) (symbol : String) (days now : ℕ) (closes : Option (List Num))
      (store : redis.Store) (obs : BenchmarkReturn d)
      → read_cache d redis up (benchmark symbol days) now store ≡ some obs
      → get_return d redis up symbol days now closes store ≡ (obs, store)
  unfolding get_return
  get_return-hit up symbol days now closes store obs h = ground arith

  get_return-miss :
      (up : Bool) (symbol : String) (days now : ℕ) (closes : Option (List Num))
      (store : redis.Store)
      → read_cache d redis up (benchmark symbol days) now store ≡ none
      → get_return d redis up symbol days now closes store
        ≡ fetched d redis up symbol days now (endpoints d closes) store
  unfolding get_return
  get_return-miss up symbol days now closes store h = ground arith

  -- On a cache miss a return is marked stale exactly where the fetch has fewer than two closes. Only
  -- one that is not stale is cached: a stale one leaves the store as it was.
  pub get_return-stale :
      (up : Bool) (symbol : String) (days now : ℕ) (closes : Option (List Num))
      (store : redis.Store)
      → read_cache d redis up (benchmark symbol days) now store ≡ none
      → let r = get_return d redis up symbol days now closes store in
        (r.0.stale ≡ not (is_some (endpoints d closes)))
        × (r.1 ≡ (
            if r.0.stale
            then store
            else write_cache d redis up (benchmark symbol days) r.0 now store))
  unfolding fresh_return stale_return
  get_return-stale up symbol days now closes store h =
      let miss = get_return-miss up symbol days now closes store h in
      elim (Option-cases (endpoints d closes)) [
        | inl e ↦ (ground arith, ground arith)
        | inr (c, e) ↦ (ground arith, ground arith)
      ]

  -- With the cache up, a return that was fetched is served again for 24 hours: any later call for the
  -- symbol and the period gives the same observation, whatever the fetch would return, and leaves
  -- the store.
  pub get_return-cached :
      (symbol : String) (days now at : ℕ) (closes closes' : Option (List Num)) (store : redis.Store)
      → is_some (endpoints d closes) ≡ true
      → now ≤ at
      → at < now + benchmark_cache_ttl_seconds
      → read_cache d redis true (benchmark symbol days) now store ≡ none
      → let r = get_return d redis true symbol days now closes store in
        get_return d redis true symbol days at closes' r.1 ≡ r
  get_return-cached symbol days now at closes closes' store ok le lt miss =
      let r = get_return d redis true symbol days now closes store in
      let key = benchmark symbol days in
      let m = get_return-miss true symbol days now closes store miss in
      elim (Option-cases (endpoints d closes)) [
        | inl e ↦ absurd (ground arith)
        | inr (c, e) ↦
            let obs = fresh_return d symbol days now c in
            let here : r ≡ (obs, write_cache d redis true key obs now store) = ground arith in
            rw here (
              get_return-hit true symbol days at closes'
                (write_cache d redis true key obs now store) obs
                (read_cache-write_cache key obs now at store le lt))
      ]
