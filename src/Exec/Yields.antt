-- ===== src/Exec/Yields.antt =====
-- What holds of the value and of the device when an action returns; of a throw it says nothing.
use privex.Prelude.{◌≡◌, refl}
use privex.Device.{Device}
use privex.Exec
use privex.Exec.{Exec, Outcome, done, thrown, ◌>>=◌}

pub record Yields {A : Type 0} (Q : A → Device → Type 0) (m : Exec A) : Type 0 where
  pub at : (d : Device) (a : A) → (m d).0 ≡ done a → Q a (m d).1

followed :
    {A B : Type 0} (P : A → Device → Type 0) (Q : B → Device → Type 0) (r : Outcome A)
    (k : A → Exec B) (e : Device)
    → ((a : A) → r ≡ done a → P a e)
    → ((a : A) (d : Device) → P a d → (b : B) → (k a d).0 ≡ done b → Q b (k a d).1)
    → (b : B) → (Exec.resume r k e).0 ≡ done b
    → Q b (Exec.resume r k e).1
followed P Q (done a) k e p h b q = h a e (p a refl) b q
followed P Q (thrown f) k e p h b q = absurd (cc)

module _ {A B : Type 0} (P : A → Device → Type 0) (Q : B → Device → Type 0) where
  -- what the first part establishes is handed to the rest
  pub Yields-then :
      (m : Exec A) (k : A → Exec B)
      → Yields P m
      → ((a : A) (d : Device) → P a d → (b : B) → (k a d).0 ≡ done b → Q b (k a d).1)
      → Yields Q (m >>= k)
  unfolding ◌>>=◌
  Yields-then m k y h = record {
    at = λ d b q. followed P Q (m d).0 k (m d).1 (λ a e. y.at d a e) h b q;
  }

module _ {A B : Type 0} (Q : B → Device → Type 0) where
  -- what is established by the rest alone
  pub Yields-bind : (m : Exec A) (k : A → Exec B) → ((a : A) → Yields Q (k a)) → Yields Q (m >>= k)
  Yields-bind m k h =
      Yields-then (λ _ _. Unit {0}) Q m k (record { at = λ _ _ _. tt })
        (λ a d _ b q. (h a).at d b q)
