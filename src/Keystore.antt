-- ===== src/Keystore.antt =====
-- The key of the data at rest (apps/web/src/crypto/keystore.ts). A key is its bytes, whether the
-- browser lets them out or not.
use privex.Prelude.{ℕ, Bool, true, Option, none, some, is_some}
use privex.Crypto.Hex.{Bytes, Text}
use privex.Db.Rekey.{EncryptedDb}
use privex.Device.{Fault}
use privex.Exec.{Flow, pure, throw, modify, ◌>>◌}

pub record PassphraseFactor : Type 0 where
  pub salt : Text
  pub m_cost : ℕ
  pub t_cost : ℕ
  pub wrapped : Text

pub record WebauthnFactor : Type 0 where
  pub cred_id : Text
  pub prf_salt : Text
  pub wrapped : Text

pub record LockMeta : Type 0 where
  pub passphrase : Option PassphraseFactor
  pub webauthn : Option WebauthnFactor

-- failed attempts, and when the next is allowed
pub record FailState : Type 0 where
  pub count : ℕ
  pub until : ℕ

-- the key in memory; the key that is there without a lock and the lock, in the key store; the data and
-- the settings of the lock, in the database
pub record Vault : Type 0 where
  pub mem_key : Option Bytes
  pub master_key : Option Bytes
  pub lock_meta : Option LockMeta
  pub stored : EncryptedDb
  pub fails : Option FailState
  pub idle_ms : Option ℕ

abbrev pub is_unlocked : Vault → Bool
is_unlocked v = is_some v.mem_key

abbrev pub is_lock_enabled : Vault → Bool
is_lock_enabled v = is_some v.lock_meta

-- the key in memory, the lock and the handle, in this order; a new key if there is none
unfoldable pub key_of : Bytes → Option Bytes → Option LockMeta → Option Bytes → Flow Vault Bytes
key_of new (some key) meta handle = pure key
key_of new none (some meta) handle = throw (Fault.error "locked")
key_of new none none (some key) = pure key
key_of new none none none = do modify (λ (v : Vault). record v { master_key = some new }); pure new

-- `new` is the key that the browser generates
unfoldable pub get_master_key : Bytes → Flow Vault Bytes
unfolding key_of
get_master_key new v = key_of new v.mem_key v.lock_meta v.master_key v

abbrev has_key : Option Bytes → Option LockMeta → Option Bytes → Bool
has_key (some key) meta handle = true
has_key none (some meta) handle = true
has_key none none handle = is_some handle

unfoldable pub has_master_key : Vault → Bool
has_master_key v = has_key v.mem_key v.lock_meta v.master_key

unfoldable pub clear_master_key : Vault → Vault
clear_master_key v = record v { mem_key = none; master_key = none; lock_meta = none }

-- the whole key store
unfoldable pub wipe_keystore : Vault → Vault
wipe_keystore v = record v { mem_key = none; master_key = none; lock_meta = none }

unfoldable pub set_unlocked_key : Bytes → Vault → Vault
set_unlocked_key key v = record v { mem_key = some key }

unfoldable pub lock_now : Vault → Vault
lock_now v = record v { mem_key = none }

unfoldable pub set_lock_meta : LockMeta → Vault → Vault
set_lock_meta meta v = record v { lock_meta = some meta }

unfoldable pub clear_lock_meta : Vault → Vault
clear_lock_meta v = record v { lock_meta = none }

unfoldable pub clear_no_lock_handle : Vault → Vault
clear_no_lock_handle v = record v { master_key = none }

unfoldable pub set_no_lock_handle : Bytes → Vault → Vault
set_no_lock_handle key v = record v { master_key = some key }
