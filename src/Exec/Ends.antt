-- ===== src/Exec/Ends.antt =====
-- How an action ends: a statement of the value and the device if it returns, and one of the device if
-- it throws.
use privex.Prelude.{◌≡◌, refl, Bool, true, false, if◌then◌else◌}
use privex.Device.{Device}
use privex.Exec
use privex.Exec.{Exec, Outcome, done, thrown, ◌>>=◌}

abbrev pub After :
    {A : Type 0} → (A → Device → Type 0) → (Device → Type 0) → Outcome A → Device → Type 0
After Q R (done a) d = Q a d
After Q R (thrown f) d = R d

pub record Ends {A : Type 0} (Q : A → Device → Type 0) (R : Device → Type 0) (m : Exec A)
    (d : Device) : Type 0 where
  pub ends : After Q R (m d).0 (m d).1

Ends-resume :
    {A B : Type 0} (P : A → Device → Type 0) (Q : B → Device → Type 0) (R : Device → Type 0)
    (r : Outcome A) (e : Device) (k : A → Exec B)
    → After P R r e
    → ((a : A) → P a e → Ends Q R (k a) e)
    → After Q R (Exec.resume r k e).0 (Exec.resume r k e).1
Ends-resume P Q R (done a) e k p h = (h a p).ends
Ends-resume P Q R (thrown f) e k p h = p

module _ {A B : Type 0} {P : A → Device → Type 0} {Q : B → Device → Type 0}
    {R : Device → Type 0} where
  pub Ends-bind :
      (m : Exec A) (k : A → Exec B) (d : Device)
      → Ends P R m d
      → ((a : A) (e : Device) → P a e → Ends Q R (k a) e)
      → Ends Q R (m >>= k) d
  unfolding ◌>>=◌
  Ends-bind m k d p h = record {
    ends = Ends-resume P Q R (m d).0 (m d).1 k p.ends (λ a. h a (m d).1);
  }

module _ {A : Type 0} {Q : A → Device → Type 0} {R : Device → Type 0} where
  pub Ends-if :
      (b : Bool) (m n : Exec A) (d : Device)
      → (b ≡ true → Ends Q R m d)
      → (b ≡ false → Ends Q R n d)
      → Ends Q R (if b then m else n) d
  Ends-if true m n d h k = h refl
  Ends-if false m n d h k = k refl

either_way :
    {A : Type 0} (Q : A → Device → Type 0) (R R' : Device → Type 0) (r : Outcome A) (e : Device)
    → After Q R r e
    → ((a : A) → Q a e → R' e)
    → (R e → R' e)
    → R' e
either_way Q R R' (done a) e p h k = h a p
either_way Q R R' (thrown f) e p h k = k p

module _ {A : Type 0} {Q : A → Device → Type 0} {R : Device → Type 0} where
  -- what holds of the device whether it returns or throws
  pub Ends-state :
      (R' : Device → Type 0) (m : Exec A) (d : Device)
      → Ends Q R m d
      → ((a : A) (e : Device) → Q a e → R' e)
      → ((e : Device) → R e → R' e)
      → R' (m d).1
  Ends-state R' m d p h k = either_way Q R R' (m d).0 (m d).1 p.ends (λ a. h a (m d).1) (k (m d).1)
