-- ===== src/AppLock/Unlock.antt =====
-- When a passphrase unlocks (`unlockWithPassphrase` of apps/web/src/services/applock.ts).
use privex.Prelude.{
  ◌≡◌, refl, min, ℕ, ◌+◌, ◌-◌, ◌*◌, ◌^◌, ◌<◌, leb, ◌≤◌, Option, none, some, inl, inr, ltb, tests,
  Bool-cases,
}
use native.Mathlib.Nat.{min-eq_left, min-eq_right}
use privex.Crypto.Hex.{Bytes, Text, from_hex}
use privex.Device.{Fault}
use privex.Exec.{Flow, Done, Outcome, done, thrown, pure, throw, gets, await, ◌>>=◌, ◌>>◌}
use privex.Keystore.{Vault, PassphraseFactor, set_unlocked_key}
use privex.AppLock.{
  LockEnv, passphrase_of, fail_state, clear_failures, delay_after, record_failure, throttle,
  unlock_opened, unlock_with_passphrase,
}

-- the wait after so many failures, in milliseconds: none before the fifth, then a second that doubles
-- with each further one, and five minutes at most
pub data Wait : ℕ → ℕ → Type 0 where
  early : (count : ℕ) → count < 5 → Wait count 0
  doubling :
      (count : ℕ)
      → 5 ≤ count
      → 2 ^ (count - 5) * 1000 ≤ 300000
      → Wait count (2 ^ (count - 5) * 1000)
  longest : (count : ℕ) → 5 ≤ count → 300000 ≤ 2 ^ (count - 5) * 1000 → Wait count 300000

delay_after-Wait : (count : ℕ) → Wait count (delay_after count)
unfolding delay_after
delay_after-Wait count = elim (Bool-cases (leb 5 count)) [
  | inr q ↦ rw q (early count (omega tests))
  | inl q ↦ elim (Bool-cases (leb 300000 (2 ^ (count - 5) * 1000))) [
    | inl k ↦
        let e : min 300000 (2 ^ (count - 5) * 1000) ≡ 300000 = min-eq_left (omega tests) in
        rw (q, e) (longest count (omega tests) (omega tests))
    | inr k ↦
        let e : min 300000 (2 ^ (count - 5) * 1000) ≡ 2 ^ (count - 5) * 1000 =
          min-eq_right (omega tests) in
        rw (q, e) (doubling count (omega tests) (omega tests))
  ]
]

module _ (env : LockEnv) (passphrase : Text) (v : Vault) where
  -- what the key derived from the passphrase makes of the wrapped data key
  pub record IsTried (f : PassphraseFactor) (opened : Option Bytes) : Type 0 where
    pub factor : passphrase_of v.lock_meta ≡ some f
    pub allowed : (fail_state v).until ≤ env.now_ms
    pub kek : Bytes
    pub derived : env.argon2id (env.utf8 passphrase) (from_hex f.salt) f.m_cost f.t_cost ≡ some kek
    pub result : env.aes.decrypt kek (from_hex f.wrapped) ≡ opened

  -- why no attempt is made
  pub data TurnedAway : Type 0 where
    no_passphrase : passphrase_of v.lock_meta ≡ none → TurnedAway
    waiting : env.now_ms < (fail_state v).until → TurnedAway
    underived :
        (f : PassphraseFactor)
        → passphrase_of v.lock_meta ≡ some f
        → env.argon2id (env.utf8 passphrase) (from_hex f.salt) f.m_cost f.t_cost ≡ none
        → TurnedAway

  -- The attempt is turned away; or it fails and is counted; or the passphrase opens the data key.
  pub data Attempt : Outcome Done × Vault → Type 0 where
    turned_away : (f : Fault) → TurnedAway → Attempt (thrown f, v)
    counted :
        (f : PassphraseFactor) (fault : Fault) (wait : ℕ)
        → IsTried f none
        → Wait ((fail_state v).count + 1) wait
        → Attempt (
          thrown fault,
          record v {
            fails = some (record { count = (fail_state v).count + 1; until = env.now_ms + wait });
          },
        )
    unlocked :
        (f : PassphraseFactor) (key : Bytes)
        → IsTried f (some key)
        → Attempt (done tt, record v { mem_key = some key; fails = none })

  opening :
      (f : PassphraseFactor) (o : Option Bytes) → IsTried f o → Attempt (unlock_opened env o v)
  unfolding unlock_opened ◌>>=◌ record_failure set_unlocked_key clear_failures
  opening f none t =
      counted f (Fault.error "Wrong passphrase.") _ t (delay_after-Wait ((fail_state v).count + 1))
  opening f (some key) t = unlocked f key t

  derived :
      (f : PassphraseFactor) (o : Option Bytes)
      → passphrase_of v.lock_meta ≡ some f
      → (fail_state v).until ≤ env.now_ms
      → env.argon2id (env.utf8 passphrase) (from_hex f.salt) f.m_cost f.t_cost ≡ o
      → Attempt (
          (do
            kek ← await (Fault.error "argon2id") o
            unlock_opened env (env.aes.decrypt kek (from_hex f.wrapped)))
            v)
  unfolding await ◌>>=◌
  derived f none p a q = turned_away (Fault.error "argon2id") (underived f p q)
  derived f (some kek) p a q =
      opening f _ (record { factor = p; allowed = a; kek = kek; derived = q; result = refl })

  throttled :
      (k : Flow Vault Done)
      → ((fail_state v).until ≤ env.now_ms → Attempt (k v))
      → Attempt ((throttle env >> k) v)
  unfolding throttle throw pure ◌>>=◌
  throttled k h = elim (Bool-cases (ltb env.now_ms (fail_state v).until)) [
    | inl q ↦ rw q (turned_away (Fault.error "Too many attempts") (waiting (omega tests)))
    | inr q ↦ rw q (h (omega tests))
  ]

  found :
      (o : Option PassphraseFactor)
      → passphrase_of v.lock_meta ≡ o
      → Attempt (
          (do
            f ← await (Fault.error "No passphrase is set.") o
            throttle env
            kek ←
                await
                  (Fault.error "argon2id")
                  (env.argon2id (env.utf8 passphrase) (from_hex f.salt) f.m_cost f.t_cost)
            unlock_opened env (env.aes.decrypt kek (from_hex f.wrapped)))
            v)
  unfolding await ◌>>=◌
  found none q = turned_away (Fault.error "No passphrase is set.") (no_passphrase q)
  found (some f) q = throttled _ (λ a. derived f _ q a refl)

-- An attempt to unlock with a passphrase is turned away, because none is set, the wait after earlier
-- failures is not over or the key derivation fails, and changes nothing; or the key derived from it
-- does not open the data key, and the failure is counted, with no wait before the fifth failure and
-- then one that doubles from a second to at most five minutes; or that key opens the data key, which
-- is put in memory, and the count of failures is cleared.
pub unlock-Attempt :
    (env : LockEnv) (passphrase : Text) (v : Vault)
    → Attempt env passphrase v (unlock_with_passphrase env passphrase v)
unfolding unlock_with_passphrase gets ◌>>=◌
unlock-Attempt env passphrase v = found env passphrase v (passphrase_of v.lock_meta) refl
