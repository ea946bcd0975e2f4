-- ===== src/AppLock/Enable.antt =====
-- That the lock opens again (apps/web/src/services/applock.ts).
use privex.Prelude.{
  ◌≡◌, refl, ap, ◌∙◌, ℕ, ◌≤◌, none, some, ltb, length, tests, Bool-cases, inl, inr,
}
use privex.Crypto.Hex.{Bytes, Text, IsBytes, to_hex, from_hex-to_hex}
use privex.Db.Rekey.{EncryptedDb, rekey_all_encrypted_fields}
use privex.Db.Rekey.Kept.{IsLossless, IsReadable, reading, rekey_all-reading}
use privex.Exec.{Done, Outcome, done, pure, gets, await, modify, ◌>>=◌}
use privex.Exec.Runs.{bind_done, bind_modify}
use privex.Keystore.{
  Vault, PassphraseFactor, get_master_key, set_unlocked_key, set_lock_meta, clear_no_lock_handle,
  lock_now,
}
use privex.AppLock.{
  LockEnv, argon_m, argon_t, min_passphrase, clear_failures, check_length, wrap_passphrase,
  enable_with_passphrase, unlock_with_passphrase, unlock_opened, throttle,
}

module _ (env : LockEnv) (passphrase : Text) (kek : Bytes) where
  abbrev factor : PassphraseFactor
  factor = record {
    salt = to_hex env.random_salt;
    m_cost = argon_m;
    t_cost = argon_t;
    wrapped = to_hex (env.aes.encrypt kek env.random_key);
  }

  -- the vault with the lock on
  abbrev locked_up : EncryptedDb → Vault → Vault
  locked_up d v = record v {
    mem_key = some env.random_key;
    master_key = none;
    lock_meta = some (record { passphrase = some factor; webauthn = none });
    stored = d;
    fails = none;
  }

  long_enough :
      (v : Vault)
      → min_passphrase ≤ length passphrase
      → check_length env passphrase v ≡ (done tt, v)
  unfolding pure
  long_enough v h = elim (Bool-cases (ltb (length passphrase) min_passphrase)) [
    | inl q ↦ absurd (omega tests)
    | inr q ↦ rw q refl
  ]

  wrapping :
      (v : Vault)
      → env.argon2id (env.utf8 passphrase) env.random_salt argon_m argon_t ≡ some kek
      → wrap_passphrase env env.random_key passphrase v ≡ (done factor, v)
  unfolding wrap_passphrase await pure ◌>>=◌
  wrapping v q = rw q refl

  modified : {S : Type 0} (f : S → S) (s : S) → modify f s ≡ (done tt, f s)
  unfolding modify
  modified f s = refl

  not_throttled :
      (later : ℕ) (v : Vault)
      → v.fails ≡ none
      → throttle (record env { now_ms = later }) v ≡ (done tt, v)
  unfolding throttle pure
  not_throttled later v q = elim (Bool-cases (ltb later 0)) [
    | inl h ↦ absurd (omega tests)
    | inr h ↦ rw (q, h) refl
  ]

  enabled :
      (v : Vault) (old_key : Bytes) (d : EncryptedDb)
      → min_passphrase ≤ length passphrase
      → get_master_key env.generated v ≡ (done old_key, v)
      → rekey_all_encrypted_fields env.aes old_key env.random_key v.stored ≡ (done tt, d)
      → env.argon2id (env.utf8 passphrase) env.random_salt argon_m argon_t ≡ some kek
      → enable_with_passphrase env passphrase v ≡ (done tt, locked_up d v)
  unfolding enable_with_passphrase set_unlocked_key set_lock_meta clear_no_lock_handle
      clear_failures
  enabled v old_key d l g r q =
      bind_done _ _ v tt v (long_enough v l)
      ∙ bind_done _ _ v old_key v g
      ∙ bind_done _ _ v tt (record v { stored = d })
          (ap (λ (p : Outcome Done × EncryptedDb). (p.0, record v { stored = p.1 })) r)
      ∙ bind_modify _ _ _
      ∙ bind_done (wrap_passphrase env env.random_key passphrase) _ _ factor _ (wrapping _ q)
      ∙ bind_modify _ _ _
      ∙ bind_modify _ _ _
      ∙ modified _ _

  opened :
      (v : Vault) (d : EncryptedDb) (later : ℕ)
      → IsLossless env.aes
      → env.argon2id (env.utf8 passphrase) env.random_salt argon_m argon_t ≡ some kek
      → IsBytes env.random_salt
      → IsBytes (env.aes.encrypt kek env.random_key)
      → unlock_with_passphrase (record env { now_ms = later }) passphrase (lock_now (locked_up d v))
        ≡ (done tt, record (locked_up d v) { mem_key = some env.random_key })
  unfolding unlock_with_passphrase lock_now gets await unlock_opened set_unlocked_key clear_failures
      modify ◌>>=◌
  opened v d later law q b b' =
      rw
        (
          not_throttled later (lock_now (locked_up d v)) refl,
          from_hex-to_hex env.random_salt b,
          q,
          from_hex-to_hex _ b',
          law.opens kek env.random_key,
        )
        refl

-- A passphrase of at least eight characters turns the lock on, when the key at hand reads the six
-- tables whose key is changed (identity, messages, contacts, sessions, blobs and groups), the key
-- derivation answers and AES-GCM opens what it sealed. The stored unlocked master key is cleared. Once
-- locked, the same passphrase opens the lock at any later time, and the key it puts in memory reads of
-- those tables what the key from before the lock did. The keys of linked devices stay as they were, so
-- under the key from before the lock.
pub enable-unlock :
    (env : LockEnv) (passphrase : Text) (kek old_key : Bytes) (v : Vault) (later : ℕ)
    → min_passphrase ≤ length passphrase
    → get_master_key env.generated v ≡ (done old_key, v)
    → IsReadable env.aes old_key v.stored
    → env.argon2id (env.utf8 passphrase) env.random_salt argon_m argon_t ≡ some kek
    → IsLossless env.aes
    → IsBytes env.random_salt
    → IsBytes (env.aes.encrypt kek env.random_key)
    → let (o, on) = enable_with_passphrase env passphrase v in
      let (p, up) =
        unlock_with_passphrase (record env { now_ms = later }) passphrase (lock_now on) in
      (o ≡ done tt)
      × (on.master_key ≡ none)
      × (p ≡ done tt)
      × (up.mem_key ≡ some env.random_key)
      × (reading env.aes env.random_key up.stored ≡ reading env.aes old_key v.stored)
      × (up.stored.linked_devices ≡ v.stored.linked_devices)
enable-unlock env passphrase kek old_key v later l g readable q law b b' =
    let d : EncryptedDb = (rekey_all_encrypted_fields env.aes old_key env.random_key v.stored).1 in
    let (returns, same, links) =
      rekey_all-reading env.aes law old_key env.random_key v.stored readable in
    let e = enabled env passphrase kek v old_key d l g (ap (λ o. (o, d)) returns) q in
    rw (e, opened env passphrase kek v d later law q b b') (refl, refl, refl, refl, same, links)
