-- ===== src/Exec/Leads.antt =====
-- A predicate on the device before an action and one after it, whether it returns or throws.
use privex.Prelude.{
  ◌≡◌, refl, Bool, true, false, Option, none, some, if◌then◌else◌, nat_eq, string_eq, bytes_eq,
}
use privex.Device.{Device, Fault}
use privex.Exec
use privex.Exec.{Exec, Outcome, done, thrown, gets, await, ◌>>=◌}
use privex.Exec.Keeps.{Keeps}

pub record Leads {A : Type 0} (P Q : Device → Type 0) (m : Exec A) : Type 0 where
  pub at : (d : Device) → P d → Q (m d).1

module _ {A : Type 0} {P Q : Device → Type 0} where
  pub Leads-Keeps : (m : Exec A) → ((d : Device) → P d → Q d) → Keeps Q m → Leads P Q m
  Leads-Keeps m h k = record { at = λ d p. k.at d (h d p) }

  pub Leads-if :
      (b : Bool) (m n : Exec A)
      → (b ≡ true → Leads P Q m)
      → (b ≡ false → Leads P Q n)
      → Leads P Q (if b then m else n)
  Leads-if true m n km kn = km refl
  Leads-if false m n km kn = kn refl

module _ {A B : Type 0} {P Q : Device → Type 0} where
  -- the rest runs in a state that the predicate holds of, and reads a value of that state
  pub Leads-gets :
      (f : Device → A) (k : A → Exec B)
      → ((d : Device) → P d → Leads P Q (k (f d)))
      → Leads P Q (gets f >>= k)
  unfolding gets ◌>>=◌
  Leads-gets f k h = record { at = λ d p. (h d p).at d p }

module _ {A B : Type 0} {P Q : Device → Type 0} where
  Leads-resume :
      (r : Outcome A) (k : A → Exec B)
      → ((d : Device) → P d → Q d)
      → ((a : A) → Leads P Q (k a))
      → (d : Device) → P d
      → Q (Exec.resume r k d).1
  Leads-resume (done a) k pq h d p = (h a).at d p
  Leads-resume (thrown f) k pq h d p = pq d p

  pub Leads-bind :
      (m : Exec A) (k : A → Exec B)
      → ((d : Device) → P d → Q d)
      → Keeps P m
      → ((a : A) → Leads P Q (k a))
      → Leads P Q (m >>= k)
  unfolding ◌>>=◌
  Leads-bind m k pq km h = record {
    at = λ d p. let (r, d') = m d in Leads-resume r k pq h d' (km.at d p);
  }

module _ {A B : Type 0} {P Q : Device → Type 0} where
  -- the rest runs only if the call did not throw
  pub Leads-await :
      (f : Fault) (o : Option A) (k : A → Exec B)
      → ((d : Device) → P d → Q d)
      → ((a : A) → o ≡ some a → Leads P Q (k a))
      → Leads P Q (await f o >>= k)
  unfolding await ◌>>=◌
  Leads-await f none k pq h = record { at = pq }
  Leads-await f (some a) k pq h = h a refl
