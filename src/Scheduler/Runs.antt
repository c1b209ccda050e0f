-- ===== src/Scheduler/Runs.antt =====
-- Runs of ticks, and the dedupe keys that they send.
use nivara.Prelude.{
  ℕ, ◌+◌, ◌≤◌, ◌<◌, String, ◌≡◌, refl, true, Option, none, some, is_some, List, [], ◌∷◌, ◌++◌, ◌∙◌,
  arith, inl, inr,
}
use nivara.Redis.Values.{Values}
use nivara.Scheduler.Plan.{DedupeKey, DispatchPlan, apply}
use nivara.Scheduler.Dispatch.{
  count, Lasting, sent, left, apply-some, sent_held, sent_once, sent_free, still_held,
}

antisym : {m n : ℕ} → m ≤ n → n ≤ m → m ≡ n
antisym p q = omega arith

module _ (redis : Values DedupeKey String) where
  open redis use {Store, get}

  count-append :
      (k : DedupeKey) (ps qs : List DispatchPlan)
      → count redis k (ps ++ qs) ≡ count redis k ps + count redis k qs
  count-append k [] qs = omega arith
  count-append k (p ∷ ps) qs = ground (arith, count-append k ps qs)

  -- The ticks of a scheduler: the time and the plan of each.
  abbrev pub ticks : List (ℕ × List DispatchPlan) → Option Store → List DispatchPlan
  ticks [] s = []
  ticks ((now, planned) ∷ run) s = let (out, s') = apply redis planned now s in out ++ ticks run s'

  -- The ticks of a run follow each other, from `lo` on and before `hi`.
  abbrev pub InOrder : ℕ → ℕ → List (ℕ × List DispatchPlan) → Type 0
  InOrder lo hi [] = Unit
  InOrder lo hi ((now, planned) ∷ run) = (lo ≤ now) × ((now < hi) × InOrder now hi run)

  abbrev pub AllLasting : ℕ → List (ℕ × List DispatchPlan) → Type 0
  AllLasting ttl [] = Unit
  AllLasting ttl ((now, planned) ∷ run) = Lasting redis ttl planned × AllLasting ttl run

  -- A key that is held to the end of the run is not sent in it.
  ticks_held :
      (k : DedupeKey) (run : List (ℕ × List DispatchPlan)) (lo hi : ℕ) (s : Store)
      → InOrder lo hi run
      → ((t : ℕ) → lo ≤ t → t < hi → is_some (get k t s) ≡ true)
      → count redis k (ticks run (some s)) ≡ 0
  ticks_held k [] lo hi s order held = refl
  ticks_held k ((now, planned) ∷ run) lo hi s (after, (before, order)) held =
      let here = held now after before in
      let s' = left redis planned now s in
      let rest =
        ticks_held k run now hi s' order
          (λ t le lt. rw (sent_held redis k planned now t s le here).1 (held t (omega arith) lt)) in
      rw (apply-some redis planned now s) (
        count-append k (sent redis planned now s) (ticks run (some s'))
        ∙ omega (arith, (sent_held redis k planned now now s (omega arith) here).0, rest))

  -- In a run of ticks that is shorter than the time to live of its keys, no key is sent twice.
  pub ticks_once :
      (k : DedupeKey) (run : List (ℕ × List DispatchPlan)) (ttl lo hi : ℕ) (s : Store)
      → AllLasting ttl run
      → InOrder lo hi run
      → hi ≤ lo + ttl
      → count redis k (ticks run (some s)) ≤ 1
  ticks_once k [] ttl lo hi s long order short = omega arith
  ticks_once k ((now, planned) ∷ run) ttl lo hi s (here, long) (after, (before, order)) short =
      let s' = left redis planned now s in
      let split = count-append k (sent redis planned now s) (ticks run (some s')) in
      elim (sent_once redis k planned ttl now now s here (omega arith) (omega arith)) [
        | inl unsent ↦
            let rest = ticks_once k run ttl now hi s' long order (omega arith) in
            rw (apply-some redis planned now s) (omega (arith, split, unsent, rest))
        | inr (one, _) ↦
            let rest =
              ticks_held k run now hi s' order
                (λ t le lt. still_held redis k planned ttl now t s here le (omega arith) one) in
            rw (apply-some redis planned now s) (omega (arith, split, one, rest))
      ]

  -- In a run of ticks that is shorter than the time to live of its keys, a key that is free at the
  -- start and that the first tick plans is sent exactly once.
  pub ticks_exactly_once :
      (k : DedupeKey) (planned : List DispatchPlan) (run : List (ℕ × List DispatchPlan))
      (ttl now hi : ℕ) (s : Store)
      → AllLasting ttl ((now, planned) ∷ run)
      → InOrder now hi ((now, planned) ∷ run)
      → hi ≤ now + ttl
      → get k now s ≡ none
      → 0 < count redis k planned
      → count redis k (ticks ((now, planned) ∷ run) (some s)) ≡ 1
  ticks_exactly_once k planned run ttl now hi s long order short free some_plan =
      let once = ticks_once k ((now, planned) ∷ run) ttl now hi s long order short in
      let out = sent_free redis k planned now s free some_plan in
      let split =
        count-append k (sent redis planned now s) (ticks run (some (left redis planned now s))) in
      let at_least : 1 ≤ count redis k (ticks ((now, planned) ∷ run) (some s)) =
        rw (apply-some redis planned now s) (omega (arith, split, out)) in
      antisym once at_least
