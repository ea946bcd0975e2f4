-- ===== src/Tests/Locks.antt =====
-- The app lock, at concrete values.
use privex.Prelude.{
  ◌≡◌, refl, arith, false, Option, none, some, [], ◌∷◌, ℕ, nat_eq, if◌then◌else◌, ◌==◌, beq_refl,
}
use privex.Crypto.Hex.{Bytes, Text}
use privex.Db.Rekey.{Aes, EncryptedDb, rekey_all_encrypted_fields}
use privex.Db.Rekey.Kept.{IsLossless, IsReadable, reading, rekey_all-reading}
use privex.Exec.{done, pure}
use privex.Keystore.{Vault, get_master_key, lock_now}
use privex.AppLock.{LockEnv, argon_m, argon_t, enable_with_passphrase, unlock_with_passphrase}
use privex.AppLock.Unlock.{Attempt, unlock-Attempt}
use privex.AppLock.Enable.{enable-unlock}

abbrev tag : Bytes → ℕ
tag [] = 0
tag (x ∷ b) = x

-- opened by a key with the first byte that is written before the data
abbrev checked : Bytes → Bytes → Option Bytes
checked key [] = none
checked key (t ∷ plain) = if t == tag key then some plain else none

abbrev sealing : Aes
sealing = record { encrypt = λ key plain. tag key ∷ plain; decrypt = checked }

sealing-IsLossless : IsLossless sealing
sealing-IsLossless = record { opens = λ key plain. rw (beq_refl (tag key)) refl }

abbrev small_db : EncryptedDb
small_db = record {
  identity = record { user_id = "me"; priv_bundle_enc = some (5 ∷ 1 ∷ []) } ∷ [];
  messages = record { msg_id = "m"; content_enc = 5 ∷ 72 ∷ []; preview_enc = none } ∷ [];
  contacts = record { px_id = "bob"; display_name_enc = some (5 ∷ 66 ∷ []) } ∷ [];
  sessions = record { session_id = "bob"; ratchet_state_enc = 5 ∷ []; pqxdh_init_enc = none } ∷ [];
  blobs = [];
  groups = [];
  linked_devices =
      record { device_id = "laptop"; send_key_enc = 5 ∷ 7 ∷ []; recv_key_enc = 5 ∷ 8 ∷ [] } ∷ [];
}

small_db-IsReadable : IsReadable sealing (5 ∷ []) small_db
small_db-IsReadable = record {
  identity = ((1 ∷ [], refl), tt);
  messages = (((72 ∷ [], refl), tt), tt);
  contacts = ((66 ∷ [], refl), tt);
  sessions = ((([], refl), tt), tt);
  blobs = tt;
  groups = tt;
}

abbrev lock_env : LockEnv
lock_env = record {
  aes = sealing;
  argon2id = λ password salt m t. some password;
  prf_kek = λ prf. prf;
  enroll = λ user. none;
  derive_prf = λ cred salt. none;
  supported = false;
  utf8 = λ text. text;
  random_salt = 1 ∷ 2 ∷ [];
  random_key = 9 ∷ [];
  generated = 5 ∷ [];
  now_ms = 1000;
}

abbrev open_vault : Vault
open_vault = record {
  mem_key = none;
  master_key = some (5 ∷ []);
  lock_meta = none;
  stored = small_db;
  fails = none;
  idle_ms = none;
}

abbrev passphrase : Text
passphrase = 99 ∷ 111 ∷ 114 ∷ 114 ∷ 101 ∷ 99 ∷ 116 ∷ 33 ∷ []

has_old_key : get_master_key (5 ∷ []) open_vault ≡ (done (5 ∷ []), open_vault)
unfolding get_master_key pure
has_old_key = refl

rekey_all-reading_example :
    let (o, d) = rekey_all_encrypted_fields sealing (5 ∷ []) (9 ∷ []) small_db in
    (o ≡ done tt)
    × (reading sealing (9 ∷ []) d ≡ reading sealing (5 ∷ []) small_db)
    × (d.linked_devices ≡ small_db.linked_devices)
rekey_all-reading_example =
    rekey_all-reading sealing sealing-IsLossless (5 ∷ []) (9 ∷ []) small_db small_db-IsReadable

enable-unlock_example :
    let (o, on) = enable_with_passphrase lock_env passphrase open_vault in
    let (p, up) =
      unlock_with_passphrase (record lock_env { now_ms = 2000 }) passphrase (lock_now on) in
    (o ≡ done tt)
    × (on.master_key ≡ none)
    × (p ≡ done tt)
    × (up.mem_key ≡ some (9 ∷ []))
    × (reading sealing (9 ∷ []) up.stored ≡ reading sealing (5 ∷ []) small_db)
    × (up.stored.linked_devices ≡ small_db.linked_devices)
enable-unlock_example =
    enable-unlock lock_env passphrase passphrase (5 ∷ []) open_vault 2000 (omega arith) has_old_key
      small_db-IsReadable refl sealing-IsLossless (omega arith, (omega arith, tt))
      (omega arith, (omega arith, tt))

-- a lock on, three failures counted
abbrev shut_vault : Vault
shut_vault = record open_vault {
  master_key = none;
  lock_meta = some (record {
    passphrase = some (record {
      salt = 48 ∷ 49 ∷ [];
      m_cost = argon_m;
      t_cost = argon_t;
      wrapped = 54 ∷ 51 ∷ 48 ∷ 57 ∷ [];
    });
    webauthn = none;
  });
  fails = some (record { count = 3; until = 0 });
}

unlock-Attempt_example :
    Attempt lock_env passphrase shut_vault (unlock_with_passphrase lock_env passphrase shut_vault)
unlock-Attempt_example = unlock-Attempt lock_env passphrase shut_vault
