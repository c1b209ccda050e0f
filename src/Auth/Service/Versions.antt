-- ===== src/Auth/Service/Versions.antt =====
-- Password versions in refresh tokens and in counters.
use nivara.Prelude.{
  ℕ, suc, ◌≤◌, String, ◌≡◌, refl, sym, ◌∙◌, Bool, true, false, none, some, arith, if◌then◌else◌,
}
use nivara.Redis.Counters.{Entry, alive, bump, amount}
use nivara.Auth.Config.{
  Settings, Services, Key, rt, pwreset, Payload, refresh_payload, CounterKey, pwv,
}
use nivara.Auth.Service.{State, get_pw_version}

-- A counter with no time to live.
abbrev pub IsPlain : Entry → Type 0
IsPlain none = Unit
IsPlain (some (n, none)) = Unit
IsPlain (some (n, some e)) = ⊥

alive-bump : (t : ℕ) (e : Entry) → IsPlain e → alive t (bump e) ≡ bump e
alive-bump t none h = refl
alive-bump t (some (n, none)) h = refl
alive-bump t (some (n, some e)) h = absurd h

bump-IsPlain : (e : Entry) → IsPlain e → IsPlain (bump e)
bump-IsPlain none h = tt
bump-IsPlain (some (n, none)) h = tt
bump-IsPlain (some (n, some e)) h = h

pub amount-bump : (e : Entry) → amount (bump e) ≡ suc (amount e)
amount-bump none = refl
amount-bump (some (n, e)) = refl

if-IsPlain : (b : Bool) (e f : Entry) → IsPlain e → IsPlain f → IsPlain (if b then e else f)
if-IsPlain true e f p q = p
if-IsPlain false e f p q = q

-- A key that counts requests.
abbrev pub IsOther : Services → CounterKey → Type 0
IsOther sv key = (u : ℕ) → sv.counters.same key (pwv u) ≡ false

module _ (cfg : Settings) (sv : Services) where
  -- The password counters never expire, and no refresh token that is still there at `now` or later
  -- carries a version above its user's counter.
  pub record IsSound (now : ℕ) (s : State cfg sv) : Type 0 where
    pub steady :
        (u t : ℕ) → sv.counters.entry (pwv u) t s.counters ≡ sv.counters.entry (pwv u) 0 s.counters
    pub plain : (u : ℕ) → IsPlain (sv.counters.entry (pwv u) 0 s.counters)
    pub bounded :
        (token : String) (u v t : ℕ)
        → now ≤ t
        → sv.tokens.get (rt token) t s.tokens ≡ some (refresh_payload u v)
        → v ≤ amount (sv.counters.entry (pwv u) 0 s.counters)

  -- Time may pass.
  pub IsSound-later :
      {now later : ℕ} {s : State cfg sv} → now ≤ later → IsSound now s → IsSound later s
  IsSound-later le h = record {
    steady = h.steady;
    plain = h.plain;
    bounded = λ token u v t p e. h.bounded token u v t (omega arith) e;
  }

  module _ {now : ℕ} where
    pub delete-IsSound :
        (key : Key) (s : State cfg sv)
        → IsSound now s
        → IsSound now (record s { tokens = sv.tokens.delete key s.tokens })
    delete-IsSound key s h = record {
      steady = h.steady;
      plain = h.plain;
      bounded = λ token u v t p e.
          h.bounded token u v t p
            (ground (arith, e, sv.tokens.get-delete key (rt token) t s.tokens));
    }

    pub set_refresh-IsSound :
        (fresh : String) (user ttl : ℕ) (s : State cfg sv)
        → IsSound now s
        → IsSound now (record s {
          tokens =
              sv.tokens.set
                (rt fresh)
                (refresh_payload user (get_pw_version cfg sv user now s))
                (some ttl)
                now
                s.tokens;
        })
    unfolding get_pw_version
    set_refresh-IsSound fresh user ttl s h = record {
      steady = h.steady;
      plain = h.plain;
      bounded = λ token u v t p e.
          let shown =
            sv.tokens.get-set (rt fresh) (rt token)
              (refresh_payload user (get_pw_version cfg sv user now s)) (some ttl) now t s.tokens
              p in
          ground (arith, e, shown, h.bounded token u v t p, h.steady user now);
    }

    pub set_reset-IsSound :
        (hash : String) (payload : Payload) (ttl : ℕ) (s : State cfg sv)
        → IsSound now s
        → IsSound now
            (record s { tokens = sv.tokens.set (pwreset hash) payload (some ttl) now s.tokens })
    set_reset-IsSound hash payload ttl s h = record {
      steady = h.steady;
      plain = h.plain;
      bounded = λ token u v t p e.
          let shown =
            sv.tokens.get-set (pwreset hash) (rt token) payload (some ttl) now t s.tokens p in
          let apart = (sv.tokens.same_iff (pwreset hash) (rt token)).0 in
          h.bounded token u v t p (ground (arith, e, shown, apart));
    }

    -- INCR of one user's password counter, at any later look.
    pub entry-bump :
        (user u t : ℕ) (s : State cfg sv)
        → IsSound now s
        → sv.counters.entry (pwv u) t (sv.counters.incr (pwv user) now s.counters).1 ≡ (
            if sv.counters.same (pwv user) (pwv u)
            then bump (sv.counters.entry (pwv user) 0 s.counters)
            else sv.counters.entry (pwv u) 0 s.counters)
    entry-bump user u t s h = rw (
      sv.counters.entry-incr (pwv user) (pwv u) now t s.counters,
      h.steady user now,
      alive-bump t (sv.counters.entry (pwv user) 0 s.counters) (h.plain user),
      h.steady u t,
    )

    pub bump-IsSound :
        (user : ℕ) (s : State cfg sv)
        → IsSound now s
        → IsSound now (record s { counters = (sv.counters.incr (pwv user) now s.counters).1 })
    bump-IsSound user s h = record {
      steady = λ u t. entry-bump user u t s h ∙ sym (entry-bump user u 0 s h);
      plain = λ u.
          rw (entry-bump user u 0 s h)
            (if-IsPlain _ _ _ (bump-IsPlain _ (h.plain user)) (h.plain u));
      bounded = λ token u v t p e. ground (
        arith,
        h.bounded token u v t p e,
        entry-bump user u 0 s h,
        (sv.counters.same_iff (pwv user) (pwv u)).0,
        amount-bump (sv.counters.entry (pwv user) 0 s.counters),
      );
    }

    -- The password counters behind a command on a rate-limit key.
    counters-IsSound :
        (c : sv.counters.Store) (s : State cfg sv)
        → ((u t : ℕ) → sv.counters.entry (pwv u) t c ≡ sv.counters.entry (pwv u) t s.counters)
        → IsSound now s
        → IsSound now (record s { counters = c })
    counters-IsSound c s same h = record {
      steady = λ u t. same u t ∙ (h.steady u t ∙ sym (same u 0));
      plain = λ u. rw (same u 0) (h.plain u);
      bounded = λ token u v t p e. rw (same u 0) (h.bounded token u v t p e);
    }

    pub limit-IsSound :
        (key : CounterKey) (s : State cfg sv)
        → IsOther sv key
        → IsSound now s
        → IsSound now (record s {
          counters =
              sv.counters.expire_nx key cfg.password_reset_rate_limit_window_seconds now
                (sv.counters.incr key now s.counters).1;
        })
    limit-IsSound key s apart h =
        counters-IsSound _ s
          (λ u t. rw (
            sv.counters.entry-expire_nx key (pwv u) cfg.password_reset_rate_limit_window_seconds now
                t (sv.counters.incr key now s.counters).1,
            apart u,
            sv.counters.entry-incr key (pwv u) now t s.counters,
            apart u,
          ))
          h
