-- ===== src/AuthSession/Backoff.antt =====
-- The wait between failed renewals (apps/web/src/services/auth-session.ts).
use privex.Prelude.{◌≡◌, refl, ap, sym, ◌∙◌, ℕ, zero, suc, ◌*◌, ◌^◌, ◌≤◌, min, arith, nat_eq}
use privex.AuthSession.{next_backoff, max_backoff_ms}

-- the backoff after so many failures in a row
abbrev pub backoff_after : ℕ → ℕ
backoff_after zero = 0
backoff_after (suc n) = next_backoff (backoff_after n)

pow_pos : (n : ℕ) → 1 ≤ 2 ^ n
pow_pos zero = omega arith
pow_pos (suc n) = omega (arith, pow_pos n)

next_backoff-min :
    (p : ℕ)
    → 1 ≤ p
    → next_backoff (min (60000 * p) max_backoff_ms) ≡ min (60000 * (2 * p)) max_backoff_ms
unfolding next_backoff
next_backoff-min p h = ground arith

pow_suc : (n : ℕ) → 2 ^ suc n ≡ 2 * 2 ^ n
pow_suc n = omega arith

-- The wait after n + 1 failures in a row is one minute doubled n times, and a quarter of an hour at
-- most.
pub backoff_after_closed : (n : ℕ) → backoff_after (suc n) ≡ min (60000 * 2 ^ n) max_backoff_ms
unfolding next_backoff
backoff_after_closed zero = refl
backoff_after_closed (suc n) =
    ap next_backoff (backoff_after_closed n)
    ∙ next_backoff-min (2 ^ n) (pow_pos n)
    ∙ ap (λ x. min (60000 * x) max_backoff_ms) (sym (pow_suc n))
