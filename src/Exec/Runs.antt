-- ===== src/Exec/Runs.antt =====
-- An action whose first part is known to return.
use privex.Prelude.{◌≡◌, refl, ap}
use privex.Exec
use privex.Exec.{Flow, Done, Outcome, done, modify, ◌>>=◌}

pub bind_done :
    {S A B : Type 0} (m : Flow S A) (k : A → Flow S B) (s : S) (a : A) (t : S)
    → m s ≡ (done a, t)
    → (m >>= k) s ≡ k a t
unfolding ◌>>=◌
bind_done {S} {A} m k s a t q = ap (λ (r : Outcome A × S). Exec.resume r.0 k r.1) q

pub bind_modify :
    {S B : Type 0} (f : S → S) (k : Done → Flow S B) (s : S) → (modify f >>= k) s ≡ k tt (f s)
unfolding modify ◌>>=◌
bind_modify f k s = refl
