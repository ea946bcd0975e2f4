-- ===== src/AppLock.antt =====
-- The app lock (apps/web/src/services/applock.ts).
pub mod Unlock
pub mod Enable
use privex.Prelude.{
  ℕ, ◌+◌, ◌-◌, ◌*◌, ◌^◌, min, String, Bool, true, false, Option, none, some, ltb, leb, length,
  if◌then◌else◌, or_else, is_some,
}
use privex.Crypto.Hex.{Bytes, Text, to_hex, from_hex}
use privex.Db.Rekey.{Aes, EncryptedDb, rekey_all_encrypted_fields}
use privex.Device.{Fault}
use privex.Exec.{Flow, Done, Outcome, pure, throw, gets, await, modify, ◌>>=◌, ◌>>◌}
use privex.Keystore.{
  Vault, LockMeta, PassphraseFactor, WebauthnFactor, FailState, get_master_key, set_unlocked_key,
  set_lock_meta, clear_lock_meta, clear_no_lock_handle, set_no_lock_handle, lock_now,
}

-- the answer of an authenticator that is enrolled
pub record Enrolled : Type 0 where
  pub cred_id : Bytes
  pub prf_salt : Bytes
  pub prf_output : Bytes

-- The browser, the crypto worker, the random values and the clock while one call runs. `prf_kek` is
-- the key that the browser derives from an authenticator's secret.
pub record LockEnv : Type 0 where
  pub aes : Aes
  pub argon2id : Bytes → Bytes → ℕ → ℕ → Option Bytes
  pub prf_kek : Bytes → Bytes
  pub enroll : String → Option Enrolled
  pub derive_prf : Bytes → Bytes → Option Bytes
  pub supported : Bool
  pub utf8 : Text → Bytes
  pub random_salt : Bytes
  pub random_key : Bytes
  pub generated : Bytes
  pub now_ms : ℕ

abbrev pub argon_m : ℕ
argon_m = 32768

abbrev pub argon_t : ℕ
argon_t = 3

abbrev pub min_passphrase : ℕ
min_passphrase = 8

abbrev pub default_idle_ms : ℕ
default_idle_ms = 300000

pub record LockStatus : Type 0 where
  pub enabled : Bool
  pub passphrase : Bool
  pub biometric : Bool
  pub biometric_available : Bool

abbrev pub passphrase_of : Option LockMeta → Option PassphraseFactor
passphrase_of none = none
passphrase_of (some m) = m.passphrase

abbrev pub webauthn_of : Option LockMeta → Option WebauthnFactor
webauthn_of none = none
webauthn_of (some m) = m.webauthn

abbrev pub no_factor : LockMeta
no_factor = record { passphrase = none; webauthn = none }

abbrev pub on_stored : {A : Type 0} → Flow EncryptedDb A → Flow Vault A
on_stored m v = let (o, d) = m v.stored in (o, record v { stored = d })

abbrev pub fail_state : Vault → FailState
fail_state v = or_else v.fails (record { count = 0; until = 0 })

unfoldable pub clear_failures : Vault → Vault
clear_failures v = record v { fails = none }

-- the wait after so many failures, in milliseconds
unfoldable pub delay_after : ℕ → ℕ
delay_after count = if leb 5 count then min 300000 (2 ^ (count - 5) * 1000) else 0

module _ (env : LockEnv) where
  unfoldable pub lock_status : Vault → LockStatus
  lock_status v = record {
    enabled = is_some v.lock_meta;
    passphrase = is_some (passphrase_of v.lock_meta);
    biometric = is_some (webauthn_of v.lock_meta);
    biometric_available = env.supported;
  }

  unfoldable pub wrap_passphrase : Bytes → Text → Flow Vault PassphraseFactor
  wrap_passphrase data_key passphrase = do
    kek ←
        await (Fault.error "argon2id")
          (env.argon2id (env.utf8 passphrase) env.random_salt argon_m argon_t)
    pure (record {
      salt = to_hex env.random_salt;
      m_cost = argon_m;
      t_cost = argon_t;
      wrapped = to_hex (env.aes.encrypt kek data_key);
    })

  abbrev pub check_length : Text → Flow Vault Done
  check_length passphrase =
      if ltb (length passphrase) min_passphrase
      then throw (Fault.error "Use at least 8 characters.")
      else pure tt

  unfoldable pub enable_with_passphrase : Text → Flow Vault Done
  enable_with_passphrase passphrase = do
    check_length passphrase
    old_key ← get_master_key env.generated
    on_stored (rekey_all_encrypted_fields env.aes old_key env.random_key)
    modify (set_unlocked_key env.random_key)
    factor ← wrap_passphrase env.random_key passphrase
    modify (set_lock_meta (record { passphrase = some factor; webauthn = none }))
    modify clear_no_lock_handle
    modify clear_failures

  unfoldable pub throttle : Flow Vault Done
  throttle v =
      if ltb env.now_ms (fail_state v).until
      then throw (Fault.error "Too many attempts") v
      else pure tt v

  unfoldable pub record_failure : Vault → Vault
  record_failure v =
      let count = (fail_state v).count + 1 in
      record v { fails = some (record { count = count; until = env.now_ms + delay_after count }) }

  unfoldable pub unlock_opened : Option Bytes → Flow Vault Done
  unlock_opened none = do modify record_failure; throw (Fault.error "Wrong passphrase.")
  unlock_opened (some data_key) = do modify clear_failures; modify (set_unlocked_key data_key)

  unfoldable pub unlock_with_passphrase : Text → Flow Vault Done
  unfolding unlock_opened throttle
  unlock_with_passphrase passphrase = do
    meta ← gets (λ (v : Vault). v.lock_meta)
    f ← await (Fault.error "No passphrase is set.") (passphrase_of meta)
    throttle
    kek ←
        await (Fault.error "argon2id")
          (env.argon2id (env.utf8 passphrase) (from_hex f.salt) f.m_cost f.t_cost)
    unlock_opened (env.aes.decrypt kek (from_hex f.wrapped))

  unfoldable pub change_passphrase : Text → Flow Vault Done
  change_passphrase new_passphrase = do
    bytes ← gets (λ (v : Vault). v.mem_key)
    key ← await (Fault.error "Unlock first.") bytes
    check_length new_passphrase
    meta ← gets (λ (v : Vault). v.lock_meta)
    factor ← wrap_passphrase key new_passphrase
    modify (set_lock_meta (record (or_else meta no_factor) { passphrase = some factor }))

  unfoldable pub add_biometric : String → Flow Vault Done
  add_biometric user_id = do
    bytes ← gets (λ (v : Vault). v.mem_key)
    key ← await (Fault.error "Unlock first.") bytes
    e ← await (Fault.error "webauthn") (env.enroll user_id)
    meta ← gets (λ (v : Vault). v.lock_meta)
    let factor : WebauthnFactor = record {
      cred_id = to_hex e.cred_id;
      prf_salt = to_hex e.prf_salt;
      wrapped = to_hex (env.aes.encrypt (env.prf_kek e.prf_output) key);
    }
    modify (set_lock_meta (record (or_else meta no_factor) { webauthn = some factor }))

  unfoldable pub unlock_with_biometric : Flow Vault Done
  unlock_with_biometric = do
    meta ← gets (λ (v : Vault). v.lock_meta)
    w ← await (Fault.error "No biometric is set.") (webauthn_of meta)
    prf ← await (Fault.error "webauthn") (env.derive_prf (from_hex w.cred_id) (from_hex w.prf_salt))
    key ← await (Fault.error "decrypt") (env.aes.decrypt (env.prf_kek prf) (from_hex w.wrapped))
    modify (set_unlocked_key key)

unfoldable pub remove_biometric : Vault → Vault
remove_biometric v = elim v.lock_meta [
  | none ↦ v
  | some m ↦ set_lock_meta (record m { webauthn = none }) v
]

unfoldable pub disable_lock : Flow Vault Done
disable_lock = do
  bytes ← gets (λ (v : Vault). v.mem_key)
  key ← await (Fault.error "Unlock first.") bytes
  modify (set_no_lock_handle key)
  modify clear_lock_meta
  modify clear_failures

unfoldable pub get_idle_ms : Vault → ℕ
get_idle_ms v = or_else v.idle_ms default_idle_ms

unfoldable pub set_idle_ms : ℕ → Vault → Vault
set_idle_ms ms v = record v { idle_ms = some ms }
