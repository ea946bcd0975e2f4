-- ===== src/Exec/Keeps.antt =====
-- A predicate on the device that an action keeps, whether it returns or throws: one rule for each
-- way to build an action.
use privex.Prelude.{
  ◌≡◌, refl, Bool, true, false, Option, none, some, if◌then◌else◌, nat_eq, string_eq, bytes_eq,
}
use privex.Device.{Device, Fault}
use privex.Exec
use privex.Exec.{Exec, Done, Outcome, done, thrown, pure, throw, gets, await, catch, modify, ◌>>=◌}

pub record Keeps {A : Type 0} (P : Device → Type 0) (m : Exec A) : Type 0 where
  pub at : (d : Device) → P d → P (m d).1

module _ {A : Type 0} {P : Device → Type 0} where
  pub Keeps-pure : (a : A) → Keeps P (pure a)
  unfolding pure
  Keeps-pure a = record { at = λ d p. p }

  pub Keeps-throw : (f : Fault) → Keeps P (throw {A = A} f)
  unfolding throw
  Keeps-throw f = record { at = λ d p. p }

  pub Keeps-gets : (f : Device → A) → Keeps P (gets f)
  unfolding gets
  Keeps-gets f = record { at = λ d p. p }

  pub Keeps-await : (f : Fault) (o : Option A) → Keeps P (await f o)
  unfolding await
  Keeps-await f none = record { at = λ d p. p }
  Keeps-await f (some a) = record { at = λ d p. p }

  pub Keeps-catch : (a : A) (m : Exec A) → Keeps P m → Keeps P (catch a m)
  unfolding catch
  Keeps-catch a m k = record { at = λ d h. k.at d h }

  -- a branch is taken only if its test holds
  pub Keeps-if :
      (test : Bool) (x y : Exec A)
      → (test ≡ true → Keeps P x)
      → (test ≡ false → Keeps P y)
      → Keeps P (if test then x else y)
  Keeps-if true x y kx ky = kx refl
  Keeps-if false x y kx ky = ky refl

module _ {P : Device → Type 0} where
  pub Keeps-modify : (f : Device → Device) → ((d : Device) → P d → P (f d)) → Keeps P (modify f)
  unfolding modify
  Keeps-modify f h = record { at = h }

module _ {A B : Type 0} {P : Device → Type 0} where
  Keeps-resume :
      (r : Outcome A) (k : A → Exec B)
      → ((a : A) → Keeps P (k a))
      → (d : Device) → P d
      → P (Exec.resume r k d).1
  Keeps-resume (done a) k h d p = (h a).at d p
  Keeps-resume (thrown f) k h d p = p

  pub Keeps-bind :
      (m : Exec A) (k : A → Exec B) → Keeps P m → ((a : A) → Keeps P (k a)) → Keeps P (m >>= k)
  unfolding ◌>>=◌
  Keeps-bind m k km kk = record {
    at = λ d p. let (r, d') = m d in Keeps-resume r k kk d' (km.at d p);
  }

pub ruleset keeps_rules =
    (Keeps-pure, Keeps-throw, Keeps-gets, Keeps-await, Keeps-catch, Keeps-if, Keeps-bind)
