-- ===== src/Scheduler/Dispatch.antt =====
-- Claims and dispatches on a store, seen dedupe key by dedupe key.
use nivara.Prelude.{
  ℕ, suc, ◌+◌, ◌≤◌, ◌<◌, String, ◌≡◌, refl, ◌⊎◌, Bool, true, false, ◌&&◌, Option, none, some,
  is_some, List, [], ◌∷◌, ◌∙◌, arith, Bool-cases, inl, inr, if◌then◌else◌,
}
use nivara.Redis.Values.{Values}
use nivara.Scheduler.Plan.{DedupeKey, DispatchPlan, claim, apply}

module _ (redis : Values DedupeKey String) where
  open redis use {Store, same, get, set, set_nx, get-set, set_nx_lem, same_iff}

  abbrev pub keyed : DedupeKey → Option DedupeKey → Bool
  keyed k none = false
  keyed k (some j) = same j k

  -- How many of the plans carry this key.
  abbrev pub count : DedupeKey → List DispatchPlan → ℕ
  count k [] = 0
  count k (p ∷ ps) = if keyed k p.dedupe_key then suc (count k ps) else count k ps

  -- Every plan's key lives this long at least.
  abbrev pub Lasting : ℕ → List DispatchPlan → Type 0
  Lasting ttl [] = Unit
  Lasting ttl (p ∷ ps) = (ttl ≤ p.dedupe_ttl) × Lasting ttl ps

  -- A claim and a dispatch on a store, by key.
  abbrev claim_ok : Option DedupeKey → ℕ → ℕ → Store → Bool
  claim_ok none ttl now s = true
  claim_ok (some j) ttl now s = (set_nx j "1" (some ttl) now s).0

  abbrev claim_left : Option DedupeKey → ℕ → ℕ → Store → Store
  claim_left none ttl now s = s
  claim_left (some j) ttl now s = (set_nx j "1" (some ttl) now s).1

  abbrev pub sent : List DispatchPlan → ℕ → Store → List DispatchPlan
  sent [] now s = []
  sent (p ∷ ps) now s =
      let rest = sent ps now (claim_left p.dedupe_key p.dedupe_ttl now s) in
      if claim_ok p.dedupe_key p.dedupe_ttl now s then p ∷ rest else rest

  abbrev pub left : List DispatchPlan → ℕ → Store → Store
  left [] now s = s
  left (p ∷ ps) now s = left ps now (claim_left p.dedupe_key p.dedupe_ttl now s)

  claim-some :
      (p : DispatchPlan) (now : ℕ) (s : Store)
      → claim redis p now (some s) ≡ (
        claim_ok p.dedupe_key p.dedupe_ttl now s,
        some (claim_left p.dedupe_key p.dedupe_ttl now s),
      )
  unfolding claim
  claim-some p now s = ground arith

  -- With Redis, `apply` sends `sent` and leaves `left`.
  pub apply-some :
      (planned : List DispatchPlan) (now : ℕ) (s : Store)
      → apply redis planned now (some s) ≡ (sent planned now s, some (left planned now s))
  unfolding apply
  apply-some [] now s = refl
  apply-some (p ∷ ps) now s =
      rw (claim-some p now s) (rw (apply-some ps now (claim_left p.dedupe_key p.dedupe_ttl now s)))

  -- A claim does not touch a key that is held, and is refused if it is its own.
  claim_held :
      (k : DedupeKey) (key : Option DedupeKey) (ttl now t : ℕ) (s : Store)
      → now ≤ t
      → is_some (get k now s) ≡ true
      → (get k t (claim_left key ttl now s) ≡ get k t s)
        × (keyed k key && claim_ok key ttl now s ≡ false)
  claim_held k none ttl now t s le held = (refl, refl)
  claim_held k (some j) ttl now t s le held =
      let lem = set_nx_lem j "1" (some ttl) now s in
      let shown = get-set j k "1" (some ttl) now t s le in
      (
        ground (arith, held, lem, shown, (same_iff j k).0),
        ground (arith, held, lem, (same_iff j k).0),
      )

  -- A claim that is granted holds its key for its time to live.
  claim_granted :
      (k : DedupeKey) (key : Option DedupeKey) (ttl now t : ℕ) (s : Store)
      → now ≤ t
      → t < now + ttl
      → keyed k key && claim_ok key ttl now s ≡ true
      → is_some (get k t (claim_left key ttl now s)) ≡ true
  claim_granted k none ttl now t s le young ok = cc
  claim_granted k (some j) ttl now t s le young ok =
      ground (arith, set_nx_lem j "1" (some ttl) now s, get-set j k "1" (some ttl) now t s le)

  -- A key that is free is claimed.
  claim_free :
      (k : DedupeKey) (key : Option DedupeKey) (ttl now : ℕ) (s : Store)
      → get k now s ≡ none
      → keyed k key ≡ true
      → claim_ok key ttl now s ≡ true
  claim_free k none ttl now s free own = cc
  claim_free k (some j) ttl now s free own =
      ground (arith, set_nx_lem j "1" (some ttl) now s, (same_iff j k).0)

  -- While a key is held no plan with it is sent, and the key stays as it is.
  pub sent_held :
      (k : DedupeKey) (planned : List DispatchPlan) (now t : ℕ) (s : Store)
      → now ≤ t
      → is_some (get k now s) ≡ true
      → (count k (sent planned now s) ≡ 0) × (get k t (left planned now s) ≡ get k t s)
  sent_held k [] now t s le held = (refl, refl)
  sent_held k (p ∷ ps) now t s le held =
      let s' = claim_left p.dedupe_key p.dedupe_ttl now s in
      let here = claim_held k p.dedupe_key p.dedupe_ttl now t s le held in
      let at_once = claim_held k p.dedupe_key p.dedupe_ttl now now s (omega arith) held in
      let rest = sent_held k ps now t s' le (rw at_once.0 held) in
      (ground (arith, here.1, rest.0), rest.1 ∙ here.0)

  -- One tick sends a key once at most, and then the key is held for its time to live.
  pub sent_once :
      (k : DedupeKey) (planned : List DispatchPlan) (ttl now t : ℕ) (s : Store)
      → Lasting ttl planned
      → now ≤ t
      → t < now + ttl
      → (count k (sent planned now s) ≡ 0)
        ⊎ ((count k (sent planned now s) ≡ 1) × (is_some (get k t (left planned now s)) ≡ true))
  sent_once k [] ttl now t s long le young = inl refl
  sent_once k (p ∷ ps) ttl now t s long le young =
      let s' = claim_left p.dedupe_key p.dedupe_ttl now s in
      elim (Bool-cases (keyed k p.dedupe_key && claim_ok p.dedupe_key p.dedupe_ttl now s)) [
        | inl mine ↦
            let granted = claim_granted k p.dedupe_key p.dedupe_ttl now t s le (omega arith) mine in
            let at_once =
              claim_granted k p.dedupe_key p.dedupe_ttl now now s (omega arith) (omega arith)
                mine in
            let rest = sent_held k ps now t s' le at_once in
            inr (ground (arith, mine, rest.0), rw rest.1 granted)
        | inr other ↦ ground (arith, other, sent_once k ps ttl now t s' long.1 le young)
      ]

  -- A tick that has sent a key leaves it held.
  pub still_held :
      (k : DedupeKey) (planned : List DispatchPlan) (ttl now t : ℕ) (s : Store)
      → Lasting ttl planned
      → now ≤ t
      → t < now + ttl
      → count k (sent planned now s) ≡ 1
      → is_some (get k t (left planned now s)) ≡ true
  still_held k planned ttl now t s long le young one =
      ground (arith, sent_once k planned ttl now t s long le young)

  -- A claim of another key does not touch this one.
  claim_other :
      (k : DedupeKey) (key : Option DedupeKey) (ttl now : ℕ) (s : Store)
      → keyed k key ≡ false
      → get k now (claim_left key ttl now s) ≡ get k now s
  claim_other k none ttl now s other = refl
  claim_other k (some j) ttl now s other = ground (
    arith,
    other,
    set_nx_lem j "1" (some ttl) now s,
    get-set j k "1" (some ttl) now now s (omega arith),
  )

  -- A free key that is planned is sent.
  pub sent_free :
      (k : DedupeKey) (planned : List DispatchPlan) (now : ℕ) (s : Store)
      → get k now s ≡ none
      → 0 < count k planned
      → 0 < count k (sent planned now s)
  sent_free k [] now s free some_plan = some_plan
  sent_free k (p ∷ ps) now s free some_plan =
      let s' = claim_left p.dedupe_key p.dedupe_ttl now s in
      elim (Bool-cases (keyed k p.dedupe_key)) [
        | inl own ↦ ground (arith, own, claim_free k p.dedupe_key p.dedupe_ttl now s free own)
        | inr other ↦
            let still = claim_other k p.dedupe_key p.dedupe_ttl now s other ∙ free in
            ground (arith, other, sent_free k ps now s' still)
      ]
