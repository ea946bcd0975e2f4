-- ===== src/AuthSession/Renewed.antt =====
-- That the renewal goes on (apps/web/src/services/auth-session.ts).
use privex.Prelude.{
  ◌≡◌, refl, ℕ, zero, suc, ◌+◌, ◌-◌, ◌≤◌, max, String, Bool, true, false, not, Option, none, some,
  if◌then◌else◌, inl, inr, ◌⊎◌, string_eq, nat_eq, bytes_eq, arith, is_some,
}
use privex.AuthSession.{
  Session, Renewal, Step, Reaches, signed_out, restored, saved_as, started, stopped, rejected,
  fired, failed, minted, start, next, finish_reauth, reauthenticate, run_renewal, answer_reauth,
  await_reauth, after_renewal, resume_all, next_backoff, schedule_renewal, start_token_renewal,
  stop_token_renewal, max_backoff_ms, token_ttl_ms, renew_lead_ms,
}

-- a timer waits between a minute and the normal renewal
abbrev Timed : Option ℕ → Type 0
Timed none = Unit
Timed (some d) = (60000 ≤ d) × (d ≤ token_ttl_ms - renew_lead_ms)

-- An enabled renewal has a timer, or awaits a round trip that is in flight.
pub record IsAlive (s : Session) : Type 0 where
  pub goes_on : s.renewal.renew_enabled ≡ true → (is_some s.renewal.timer ≡ true) ⊎ (1 ≤ s.waiting)
  pub in_flight : 1 ≤ s.waiting → is_some s.reauth ≡ true
  pub timed : Timed s.renewal.timer
  pub capped : s.renewal.renew_backoff_ms ≤ max_backoff_ms

-- what a renewal that runs leaves: a timer, if renewal is enabled
record IsTimed (r : Renewal) : Type 0 where
  set : r.renew_enabled ≡ true → is_some r.timer ≡ true
  timed : Timed r.timer
  capped : r.renew_backoff_ms ≤ max_backoff_ms

-- the bounds alone
record IsBounded (r : Renewal) : Type 0 where
  timed : Timed r.timer
  capped : r.renew_backoff_ms ≤ max_backoff_ms

next_backoff-le :
    (ms : ℕ) → (60000 ≤ max 60000 (next_backoff ms)) × (next_backoff ms ≤ max_backoff_ms)
unfolding next_backoff
next_backoff-le ms = (omega arith, ground arith)

again :
    (enabled ok : Bool) (r : Renewal)
    → r.renew_enabled ≡ enabled
    → IsBounded r
    → IsTimed (
        if not enabled
        then r
        else if ok
        then schedule_renewal (token_ttl_ms - renew_lead_ms) (record r { renew_backoff_ms = 0 })
        else schedule_renewal
            (next_backoff r.renew_backoff_ms)
            (record r { renew_backoff_ms = next_backoff r.renew_backoff_ms }))
unfolding schedule_renewal
again false ok r h b = record { set = λ q. cc; timed = b.timed; capped = b.capped }
again true true r h b = record {
  set = λ q. refl;
  timed = (omega arith, omega arith);
  capped = omega arith;
}
again true false r h b = record {
  set = λ q. refl;
  timed = (omega arith, omega (arith, next_backoff-le r.renew_backoff_ms));
  capped = (next_backoff-le r.renew_backoff_ms).1;
}

after_renewal-IsTimed : (ok : Bool) (r : Renewal) → IsBounded r → IsTimed (after_renewal ok r)
unfolding after_renewal
after_renewal-IsTimed ok r b = again r.renew_enabled ok r refl b

resume_all-IsTimed : (n : ℕ) (ok : Bool) (r : Renewal) → IsTimed r → IsTimed (resume_all n ok r)
unfolding resume_all
resume_all-IsTimed zero ok r t = t
resume_all-IsTimed (suc n) ok r t =
    resume_all-IsTimed n ok (after_renewal ok r)
      (after_renewal-IsTimed ok r (record { timed = t.timed; capped = t.capped }))

-- every run that waits goes on once the answer is there
answered :
    (n : ℕ) (ok : Bool) (r : Renewal)
    → IsBounded r
    → (r.renew_enabled ≡ true → (is_some r.timer ≡ true) ⊎ (1 ≤ n))
    → IsTimed (resume_all n ok r)
unfolding resume_all
answered zero ok r b g = record {
  set = λ q. elim (g q) [ inl t ↦ t | inr l ↦ absurd (omega arith) ];
  timed = b.timed;
  capped = b.capped;
}
answered (suc n) ok r b g =
    resume_all-IsTimed n ok (after_renewal ok r) (after_renewal-IsTimed ok r b)

of_alive : (s : Session) → IsAlive s → IsBounded s.renewal
of_alive s h = record { timed = h.timed; capped = h.capped }

awaiting :
    (flying : Bool) (s : Session)
    → is_some s.reauth ≡ flying
    → (1 ≤ s.waiting → is_some s.reauth ≡ true)
    → IsBounded s.renewal
    → IsAlive (
        if flying
        then record s { waiting = s.waiting + 1 }
        else record s { renewal = after_renewal false s.renewal })
awaiting true s h f b = record {
  goes_on = λ q. inr (omega arith);
  in_flight = λ q. h;
  timed = b.timed;
  capped = b.capped;
}
awaiting false s h f b =
    let t = after_renewal-IsTimed false s.renewal b in
    record { goes_on = λ q. inl (t.set q); in_flight = f; timed = t.timed; capped = t.capped }

flight :
    (flying : Bool) (s : Session)
    → is_some s.reauth ≡ flying
    → (1 ≤ s.waiting → is_some s.reauth ≡ true)
    → 1 ≤ s.waiting
    → is_some (if flying then s else record s { reauth = s.saved }).reauth ≡ true
flight true s h f l = h
flight false s h f l = let e = f l in cc

-- what holds while the timer that fired is not yet replaced
record IsFired (s : Session) : Type 0 where
  in_flight : 1 ≤ s.waiting → is_some s.reauth ≡ true
  bounded : IsBounded s.renewal

begun :
    (flying : Bool) (s : Session)
    → is_some s.reauth ≡ flying
    → IsFired s
    → IsFired (if flying then s else record s { reauth = s.saved })
begun true s h f = f
begun false s h f = record { in_flight = flight false s h f.in_flight; bounded = f.bounded }

reauthenticate-IsFired : (s : Session) → IsFired s → IsFired (reauthenticate s)
unfolding reauthenticate
reauthenticate-IsFired s f = begun (is_some s.reauth) s refl f

await_reauth-IsAlive : (s : Session) → IsFired s → IsAlive (await_reauth s)
await_reauth-IsAlive s f = awaiting (is_some s.reauth) s refl f.in_flight f.bounded

abbrev timer_off : Session → Session
timer_off s = record s { renewal = record s.renewal { timer = none } }

ran :
    (enabled : Bool) (s : Session)
    → s.renewal.renew_enabled ≡ enabled
    → IsAlive s
    → IsAlive (if enabled then await_reauth (reauthenticate (timer_off s)) else timer_off s)
ran true s h g = await_reauth-IsAlive _ (
    reauthenticate-IsFired (timer_off s)
      (record { in_flight = g.in_flight; bounded = record { timed = tt; capped = g.capped } }))
ran false s h g = record {
  goes_on = λ q. cc;
  in_flight = g.in_flight;
  timed = tt;
  capped = g.capped;
}

run_renewal-IsAlive : (s : Session) → IsAlive s → IsAlive (run_renewal s)
unfolding run_renewal
run_renewal-IsAlive s g = ran s.renewal.renew_enabled s refl g

started_again :
    (flying : Bool) (s : Session)
    → is_some s.reauth ≡ flying
    → IsAlive s
    → IsAlive (if flying then s else record s { reauth = s.saved })
started_again true s h g = g
started_again false s h g = record {
  goes_on = g.goes_on;
  in_flight = flight false s h g.in_flight;
  timed = g.timed;
  capped = g.capped;
}

reauthenticate-IsAlive : (s : Session) → IsAlive s → IsAlive (reauthenticate s)
unfolding reauthenticate
reauthenticate-IsAlive s g = started_again (is_some s.reauth) s refl g

answer_reauth-IsAlive :
    (u : String) (o : Option String) (s : Session) → IsAlive s → IsAlive (answer_reauth u o s)
unfolding answer_reauth
answer_reauth-IsAlive u o s g =
    let t = answered s.waiting (finish_reauth u o s.auth).1 s.renewal (of_alive s g) g.goes_on in
    record {
      goes_on = λ q. inl (t.set q);
      in_flight = λ l. absurd (omega arith);
      timed = t.timed;
      capped = t.capped;
    }

Step-IsAlive :
    (Mints : String → String → Type 0) (s t : Session) → Step Mints s t → IsAlive s → IsAlive t
unfolding start_token_renewal schedule_renewal stop_token_renewal
Step-IsAlive Mints _ _ (signed_out s) g = record {
  goes_on = g.goes_on;
  in_flight = g.in_flight;
  timed = g.timed;
  capped = g.capped;
}
Step-IsAlive Mints _ _ (restored s u t m) g = record {
  goes_on = g.goes_on;
  in_flight = g.in_flight;
  timed = g.timed;
  capped = g.capped;
}
Step-IsAlive Mints _ _ (saved_as s u) g = record {
  goes_on = g.goes_on;
  in_flight = g.in_flight;
  timed = g.timed;
  capped = g.capped;
}
Step-IsAlive Mints _ _ (started s) g = record {
  goes_on = λ q. inl refl;
  in_flight = g.in_flight;
  timed = (omega arith, omega arith);
  capped = omega arith;
}
Step-IsAlive Mints _ _ (stopped s) g = record {
  goes_on = λ q. cc;
  in_flight = g.in_flight;
  timed = tt;
  capped = g.capped;
}
Step-IsAlive Mints _ _ (rejected s) g = reauthenticate-IsAlive s g
Step-IsAlive Mints _ _ (fired s d q) g = run_renewal-IsAlive s g
Step-IsAlive Mints _ _ (failed s u q) g = answer_reauth-IsAlive u none s g
Step-IsAlive Mints _ _ (minted s u t q m) g = answer_reauth-IsAlive u (some t) s g

-- However the steps interleave, an enabled renewal has a timer set or awaits a round trip that is in
-- flight, a timer waits between a minute and twenty-two hours, and the backoff is at most its cap.
pub Reaches-IsAlive :
    (Mints : String → String → Type 0) (s t : Session) → Reaches Mints s t → IsAlive s → IsAlive t
Reaches-IsAlive Mints _ _ (start s) g = g
Reaches-IsAlive Mints _ _ (next s t u r p) g =
    Step-IsAlive Mints t u p (Reaches-IsAlive Mints s t r g)
