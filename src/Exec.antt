-- ===== src/Exec.antt =====
-- Asynchronous code that awaits its calls one by one: an action on a state that returns or throws.
-- What was written before a throw stays written. Most actions are on the device.
pub mod Keeps
pub mod Leads
pub mod Yields
pub mod Ends
pub mod Runs
use privex.Prelude.{Option, none, some}
use privex.Device.{Device, Fault}

pub data Outcome (A : Type 0) : Type 0 where
  done : A → Outcome A
  thrown : Fault → Outcome A

abbrev pub Flow : Type 0 → Type 0 → Type 0
Flow S A = S → Outcome A × S

abbrev pub Exec : Type 0 → Type 0
Exec A = Flow Device A

abbrev pub Done : Type 0
Done = Unit {0}

module _ {S A : Type 0} where
  unfoldable pub pure : A → Flow S A
  pure a s = (done a, s)

  unfoldable pub throw : Fault → Flow S A
  throw f s = (thrown f, s)

  -- a read of the state
  unfoldable pub gets : (S → A) → Flow S A
  gets f s = (done (f s), s)

  -- a call that may throw
  unfoldable pub await : Fault → Option A → Flow S A
  await f none s = (thrown f, s)
  await f (some a) s = (done a, s)

module _ {A : Type 0} where
  recover : A → Outcome A → Outcome A
  recover a (done b) = done b
  recover a (thrown f) = done a

module _ {S A : Type 0} where
  -- `.catch(() => a)`: what the action did before it threw stays
  pub catch : A → Flow S A → Flow S A
  unfolding recover
  catch a m s = let (r, s') = m s in (recover a r, s')

-- a write of the state
unfoldable pub modify : {S : Type 0} → (S → S) → Flow S Done
modify f s = (done tt, f s)

module _ {S A B : Type 0} where
  abbrev pub resume : Outcome A → (A → Flow S B) → Flow S B
  resume (done a) k s = k a s
  resume (thrown f) k s = (thrown f, s)

  infixl 10 ◌>>=◌ ◌>>◌
  unfoldable pub ◌>>=◌ : Flow S A → (A → Flow S B) → Flow S B
  unfolding pure throw gets await catch modify
  ◌>>=◌ m k s = let (r, s') = m s in resume r k s'

  abbrev pub ◌>>◌ : Flow S A → Flow S B → Flow S B
  m >> n = m >>= λ _. n
