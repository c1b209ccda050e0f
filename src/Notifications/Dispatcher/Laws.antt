-- ===== src/Notifications/Dispatcher/Laws.antt =====
-- A dispatch against the list of what the channels' sends did, in the channels' order
-- (backend/app/notifications/base.py).
use mathlib.Core.List.{append_assoc, append-nil}
use nivara.Prelude.{
  ℕ, String, Bool, true, false, not, ◌&&◌, ◌||◌, none, some, List, [], ◌∷◌, ◌++◌, ◌≡◌, refl, str_eq,
  eq_iff, if◌then◌else◌, arith, sym, ◌∙◌,
}
use nivara.Notifications.Dispatcher.{
  Notification, Outcome, returned, raised, Channel, Errors, has_error, set_error, DispatchResult,
  initial, is_empty, note, fan_out, dispatch,
}

abbrev pub names : {Pay W : Type 0} → List (Channel Pay W) → List String
names [] = []
names (channel ∷ rest) = channel.name ∷ names rest

abbrev pub outcomes :
    {Pay W : Type 0} → List (Channel Pay W) → Notification Pay → W → List (String × Outcome)
outcomes [] notification w = []
outcomes (channel ∷ rest) notification w =
    let (outcome, w') = channel.send notification w in
    (channel.name, outcome) ∷ outcomes rest notification w'

-- The world behind the last send.
abbrev pub after : {Pay W : Type 0} → List (Channel Pay W) → Notification Pay → W → W
after [] notification w = w
after (channel ∷ rest) notification w =
    let (outcome, w') = channel.send notification w in after rest notification w'

abbrev pub went : Outcome → Bool
went (returned ok) = ok
went (raised _) = false

abbrev pub succeeded : List (String × Outcome) → List String
succeeded [] = []
succeeded ((name, outcome) ∷ rest) = if went outcome then name ∷ succeeded rest else succeeded rest

abbrev pub failed : String → List (String × Outcome) → Bool
failed name [] = false
failed name ((n, outcome) ∷ rest) =
    if not (went outcome) && str_eq n name then true else failed name rest

has_error-set_error :
    (name key text : String) (errors : Errors)
    → has_error name (set_error key text errors)
      ≡ (if str_eq key name then true else has_error name errors)
has_error-set_error name key text [] = refl
has_error-set_error name key text ((n, t) ∷ rest) =
    ground (arith, eq_iff n key, has_error-set_error name key text rest)

has_error-append :
    (name key text : String) (errors : Errors)
    → has_error name (errors ++ (key, text) ∷ [])
      ≡ (if has_error name errors then true else str_eq key name)
has_error-append name key text [] = ground arith
has_error-append name key text ((n, t) ∷ rest) = ground (arith, has_error-append name key text rest)

-- One round of the loop, in the terms of the outcomes.
note-succeeded :
    (name : String) (outcome : Outcome) (result : DispatchResult)
    → (note name outcome result).channels_succeeded
      ≡ result.channels_succeeded ++ succeeded ((name, outcome) ∷ [])
note-succeeded name (returned true) result = refl
note-succeeded name (returned false) result = sym (append-nil _)
note-succeeded name (raised text) result = sym (append-nil _)

note-attempted :
    (name : String) (outcome : Outcome) (result : DispatchResult)
    → (note name outcome result).channels_attempted ≡ result.channels_attempted ++ name ∷ []
note-attempted name (returned true) result = refl
note-attempted name (returned false) result = refl
note-attempted name (raised text) result = refl

note-errors :
    (key name : String) (outcome : Outcome) (result : DispatchResult)
    → has_error key (note name outcome result).errors
      ≡ (has_error key result.errors || failed key ((name, outcome) ∷ []))
note-errors key name (returned true) result = ground arith
note-errors key name (returned false) result =
    ground (arith, has_error-append key name "send returned False" result.errors, eq_iff name key)
note-errors key name (raised text) result =
    ground (arith, has_error-set_error key name text result.errors)

note-id :
    (name : String) (outcome : Outcome) (result : DispatchResult)
    → (note name outcome result).notification_id ≡ result.notification_id
note-id name (returned true) result = refl
note-id name (returned false) result = refl
note-id name (raised text) result = refl

succeeded-cons :
    (name : String) (outcome : Outcome) (rest : List (String × Outcome))
    → succeeded ((name, outcome) ∷ rest) ≡ succeeded ((name, outcome) ∷ []) ++ succeeded rest
succeeded-cons name (returned true) rest = refl
succeeded-cons name (returned false) rest = refl
succeeded-cons name (raised text) rest = refl

module _ {Pay W : Type 0} where
  fan_out-attempted :
      (channels : List (Channel Pay W)) (n : Notification Pay) (result : DispatchResult) (w : W)
      → (fan_out channels n result w).0.channels_attempted
        ≡ result.channels_attempted ++ names channels
  unfolding fan_out
  fan_out-attempted [] n result w = sym (append-nil _)
  fan_out-attempted (c ∷ cs) n result w =
      let (outcome, w') = c.send n w in
      simp (fan_out-attempted cs n (note c.name outcome result) w', note-attempted, append_assoc)

  fan_out-succeeded :
      (channels : List (Channel Pay W)) (n : Notification Pay) (result : DispatchResult) (w : W)
      → (fan_out channels n result w).0.channels_succeeded
        ≡ result.channels_succeeded ++ succeeded (outcomes channels n w)
  unfolding fan_out
  fan_out-succeeded [] n result w = sym (append-nil _)
  fan_out-succeeded (c ∷ cs) n result w =
      let (outcome, w') = c.send n w in
      let r' = note c.name outcome result in
      simp (
        fan_out-succeeded cs n r' w',
        note-succeeded c.name outcome result,
        succeeded-cons c.name outcome (outcomes cs n w'),
        append_assoc,
      )

  fan_out-errors :
      (key : String) (channels : List (Channel Pay W)) (n : Notification Pay)
      (result : DispatchResult) (w : W)
      → has_error key (fan_out channels n result w).0.errors
        ≡ (has_error key result.errors || failed key (outcomes channels n w))
  unfolding fan_out
  fan_out-errors key [] n result w = ground arith
  fan_out-errors key (c ∷ cs) n result w =
      let (outcome, w') = c.send n w in
      ground (
        arith,
        fan_out-errors key cs n (note c.name outcome result) w',
        note-errors key c.name outcome result,
      )

  fan_out-after :
      (channels : List (Channel Pay W)) (n : Notification Pay) (result : DispatchResult) (w : W)
      → (fan_out channels n result w).1 ≡ after channels n w
  unfolding fan_out
  fan_out-after [] n result w = refl
  fan_out-after (c ∷ cs) n result w = fan_out-after cs n _ _

  fan_out-id :
      (channels : List (Channel Pay W)) (n : Notification Pay) (result : DispatchResult) (w : W)
      → (fan_out channels n result w).0.notification_id ≡ result.notification_id
  unfolding fan_out
  fan_out-id [] n result w = refl
  fan_out-id (c ∷ cs) n result w =
      let (outcome, w') = c.send n w in
      fan_out-id cs n (note c.name outcome result) w' ∙ note-id c.name outcome result

  -- A dispatch tries every channel in order, whatever an earlier one returned or raised: the names
  -- attempted are those of all channels, the names that succeeded are those whose `send` returned
  -- True, in order, a name has an error exactly where a channel of that name returned False or
  -- raised, and the world is that behind the last send. The result has the notification's id.
  pub dispatch-outcomes :
      (channels : List (Channel Pay W)) (now : ℕ) (n : Notification Pay) (w : W)
      → let r = dispatch channels now n w in
        (r.0.notification_id ≡ n.id)
        × (r.0.channels_attempted ≡ names channels)
        × (r.0.channels_succeeded ≡ succeeded (outcomes channels n w))
        × ((key : String) → has_error key r.0.errors ≡ failed key (outcomes channels n w))
        × (r.2 ≡ after channels n w)
  unfolding dispatch
  dispatch-outcomes channels now n w = (
    fan_out-id channels n _ w,
    fan_out-attempted channels n _ w,
    fan_out-succeeded channels n _ w,
    λ key. fan_out-errors key channels n _ w,
    fan_out-after channels n _ w,
  )

-- Whether some channel delivered the copy.
abbrev pub any_went : List (String × Outcome) → Bool
any_went [] = false
any_went ((name, outcome) ∷ rest) = went outcome || any_went rest

any_went-succeeded : (os : List (String × Outcome)) → not (is_empty (succeeded os)) ≡ any_went os
any_went-succeeded [] = refl
any_went-succeeded ((name, returned true) ∷ rest) = refl
any_went-succeeded ((name, returned false) ∷ rest) = any_went-succeeded rest
any_went-succeeded ((name, raised text) ∷ rest) = any_went-succeeded rest

module _ {Pay W : Type 0} where
  -- `sent_at` after a dispatch: a time that was set before stays; otherwise it is the time of the
  -- dispatch where some channel delivered the copy, and stays empty where none did. The other
  -- columns are unchanged.
  pub dispatch-sent_at :
      (channels : List (Channel Pay W)) (now : ℕ) (n : Notification Pay) (w : W)
      → (dispatch channels now n w).1 ≡ record n {
        sent_at = elim n.sent_at [
          | some t ↦ some t
          | none ↦ if any_went (outcomes channels n w) then some now else none
        ];
      }
  unfolding dispatch
  dispatch-sent_at channels now n w = ground (
    arith,
    fan_out-succeeded channels n (initial n.id) w,
    any_went-succeeded (outcomes channels n w),
  )
