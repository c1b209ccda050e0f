-- ===== src/Http/Keeps.antt =====
-- Which invariants of the state an action respects, and how the actions of a block add up.
use nivara.Prelude.{Bool, true, false, Option, none, some, ◌≡◌, refl, if◌then◌else◌}
use nivara.Http.{
  HttpError, Result, ok, err, Action, pure, gets, modify, raise_if, or_raise, continue, ◌>>=◌,
}

-- Where the invariant `I` holds before a call, it holds behind it, also if the call raised.
pub record Keeps {State Answer : Type 0} (I : State → Type 0) (call : Action State Answer)
    : Type 0 where
  pub at : (before : State) → I before → I (call before).1

module _ {State : Type 0} {I : State → Type 0} where
  -- A call that leaves the state alone respects every invariant.
  Keeps-same :
      {Answer : Type 0} (call : Action State Answer)
      → ((before : State) → (call before).1 ≡ before)
      → Keeps I call
  Keeps-same call same = record { at = λ before held. rw (same before) held }

  pub Keeps-modify :
      (change : State → State)
      → ((before : State) → I before → I (change before))
      → Keeps I (modify change)
  unfolding modify
  Keeps-modify change respects = record { at = respects }

  pub Keeps-raise_if : (test : Bool) (error : HttpError) → Keeps I (raise_if test error)
  unfolding raise_if
  Keeps-raise_if true error = Keeps-same (raise_if true error) (λ before. refl)
  Keeps-raise_if false error = Keeps-same (raise_if false error) (λ before. refl)

  pub Keeps-gets : {Answer : Type 0} (view : State → Answer) → Keeps I (gets view)
  unfolding gets
  Keeps-gets view = Keeps-same (gets view) (λ before. refl)

  pub Keeps-or_raise :
      {Answer : Type 0} (value : Option Answer) (error : HttpError) → Keeps I (or_raise value error)
  unfolding or_raise
  Keeps-or_raise none error = Keeps-same (or_raise none error) (λ before. refl)
  Keeps-or_raise (some answer) error = Keeps-same (or_raise (some answer) error) (λ before. refl)

  pub Keeps-pure : {Answer : Type 0} (answer : Answer) → Keeps I (pure answer)
  unfolding pure
  Keeps-pure answer = Keeps-same (pure answer) (λ before. refl)

  -- Both branches of a conditional respect the invariant, so it does.
  pub Keeps-if :
      {Answer : Type 0} (test : Bool) (yes_call no_call : Action State Answer)
      → Keeps I yes_call
      → Keeps I no_call
      → Keeps I (if test then yes_call else no_call)
  Keeps-if true yes_call no_call first second = first
  Keeps-if false yes_call no_call first second = second

  after_answer :
      {Answer Next : Type 0} (result : Result Answer) (next : Answer → Action State Next)
      (now : State)
      → ((answer : Answer) → Keeps I (next answer))
      → I now
      → I (continue result next now).1
  after_answer (ok answer) next now respects held = (respects answer).at now held
  after_answer (err error) next now respects held = held

  pub Keeps-bind :
      {Answer Next : Type 0} (call : Action State Answer) (next : Answer → Action State Next)
      → Keeps I call
      → ((answer : Answer) → Keeps I (next answer))
      → Keeps I (call >>= next)
  unfolding ◌>>=◌
  Keeps-bind call next first respects = record {
    at = λ before held.
        let (result, now) = call before in
        after_answer result next now respects (first.at before held);
  }

pub ruleset keeps_rules = (Keeps-raise_if, Keeps-or_raise, Keeps-gets, Keeps-pure, Keeps-bind)
