-- ===== src/Messaging/Acks.antt =====
-- Actions that acknowledge one message at most once: on returning, once; on throwing, not at all.
use privex.Prelude.{
  String, ◌≡◌, refl, ◌⊎◌, inl, inr, Bool, true, false, Option, none, some, List, [], ◌∷◌, ◌++◌,
  if◌then◌else◌, nat_eq, string_eq, bytes_eq,
}
use privex.Device.{Device, Event, Fault}
use privex.Exec
use privex.Exec.{Exec, Done, Outcome, done, thrown, pure, throw, gets, await, modify, ◌>>=◌, ◌>>◌}
use privex.Exec.Keeps.{Keeps}
use privex.Messaging.{Env, signal, acknowledged, ack_message, ack_delivered}
use privex.Messaging.Keeps.{On, aside, session_token-Keeps}

-- the acknowledgements are these
abbrev pub Quiet : List String → Device → Type 0
Quiet a = On λ c m b. b ≡ a

-- `S` is the one reason for which a return does not acknowledge
abbrev pub AckOf : {A : Type 0} → String → Type 0 → List String → Outcome A → List String → Type 0
AckOf id S before (done a) after = (after ≡ before ++ id ∷ []) ⊎ (S × (after ≡ before))
AckOf id S before (thrown f) after = after ≡ before

pub record Acks {A : Type 0} (P : Device → Type 0) (id : String) (S : Type 0) (m : Exec A)
    : Type 0 where
  pub at : (d : Device) → P d → AckOf id S d.acks (m d).0 (m d).1.acks

module _ {A : Type 0} {P : Device → Type 0} {id : String} {S : Type 0} where
  pub Acks-throw : (f : Fault) → Acks P id S (throw {A = A} f)
  unfolding throw
  Acks-throw f = record { at = λ d p. refl }

  pub Acks-skip : S → (a : A) → Acks P id S (pure a)
  unfolding pure
  Acks-skip s a = record { at = λ d p. inr (s, refl) }

  pub Acks-if :
      (b : Bool) (m n : Exec A)
      → (b ≡ true → Acks P id S m)
      → (b ≡ false → Acks P id S n)
      → Acks P id S (if b then m else n)
  Acks-if true m n km kn = km refl
  Acks-if false m n km kn = kn refl

  pub Acks-any : (m : Exec A) → Acks (λ d. Unit) id S m → Acks P id S m
  Acks-any m k = record { at = λ d p. k.at d tt }

module _ {A B : Type 0} {P : Device → Type 0} {id : String} {S : Type 0} where
  resumed :
      (before : List String) (r : Outcome A) (k : A → Exec B)
      → ((a : A) → Acks P id S (k a))
      → (d : Device) → P d
      → d.acks ≡ before
      → AckOf id S before (Exec.resume r k d).0 (Exec.resume r k d).1.acks
  resumed before (done a) k h d p e = rw (← e) ((h a).at d p)
  resumed before (thrown f) k h d p e = e

  -- first what acknowledges nothing
  pub Acks-bind :
      (m : Exec A) (k : A → Exec B)
      → Keeps P m
      → ((a : List String) → Keeps (Quiet a) m)
      → ((a : A) → Acks P id S (k a))
      → Acks P id S (m >>= k)
  unfolding ◌>>=◌
  Acks-bind m k kp kq h = record {
    at = λ d p.
        let quiet : Quiet d.acks (m d).1 = (kq d.acks).at d (record { holds = refl }) in
        resumed d.acks (m d).0 k h (m d).1 (kp.at d p) quiet.holds;
  }

  pub Acks-gets :
      (f : Device → A) (k : A → Exec B)
      → ((d : Device) → P d → Acks P id S (k (f d)))
      → Acks P id S (gets f >>= k)
  unfolding gets ◌>>=◌
  Acks-gets f k h = record { at = λ d p. (h d p).at d p }

  pub Acks-await :
      (f : Fault) (o : Option A) (k : A → Exec B)
      → ((a : A) → o ≡ some a → Acks P id S (k a))
      → Acks P id S (await f o >>= k)
  unfolding await ◌>>=◌
  Acks-await f none k h = record { at = λ d p. refl }
  Acks-await f (some a) k h = h a refl

signalled :
    (id : String) (S : Type 0) (before : List String) (r : Outcome Done) (e : Event) (d : Device)
    → AckOf id S before r d.acks
    → AckOf id S before (Exec.resume r (λ _. signal e) d).0 (Exec.resume r (λ _. signal e) d).1.acks
unfolding modify
signalled id S before (done a) e d h = h
signalled id S before (thrown f) e d h = h

module _ {P : Device → Type 0} {id : String} {S : Type 0} where
  -- a signal at the end
  pub Acks-signal : (m : Exec Done) (e : Event) → Acks P id S m → Acks P id S (m >> signal e)
  unfolding ◌>>=◌
  Acks-signal m e k = record { at = λ d p. signalled _ _ d.acks (m d).0 e (m d).1 (k.at d p) }

module _ (env : Env) {S : Type 0} (id : String) where
  acknowledged-Acks : (f : Option Fault) → Acks (λ d. Unit) id S (acknowledged env id f)
  unfolding acknowledged modify throw
  acknowledged-Acks none = record { at = λ d p. inl refl }
  acknowledged-Acks (some f) = record { at = λ d p. refl }

  pub ack_message-Acks : Acks (λ d. Unit) id S (ack_message env id)
  unfolding ack_message
  ack_message-Acks =
      Acks-bind _ _ (record { at = λ d p. tt }) (λ a. session_token-Keeps env)
        λ token. acknowledged-Acks _

  pub ack_delivered-Acks : Acks (λ d. Unit) id S (ack_delivered env id)
  unfolding ack_delivered
  ack_delivered-Acks =
      Acks-bind _ _ (record { at = λ d p. tt }) (λ a. aside env _ (λ s b r. r))
        λ _. ack_message-Acks
