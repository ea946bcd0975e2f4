-- ===== src/HistoryBackup.antt =====
-- The encrypted history on the server (apps/web/src/services/history-backup.ts), with the names of its
-- blobs (apps/web/src/crypto/history-crypto.ts). Progress calls are left out.
pub mod Upload
pub mod Legacy
pub mod Restore
use privex.Prelude.{
  ℕ, zero, suc, ◌+◌, ◌*◌, ◌/◌, String, Bool, true, false, not, ◌&&◌, ◌||◌, Option, none, some, List,
  [], ◌∷◌, ◌++◌, map, take, drop, any, length, or_else, ltb, leb, if◌then◌else◌, ◌==◌, nat_eq,
  string_eq, bytes_eq, is_some,
}
use Prim.Native.String as NativeString
use mathlib.Core.Option
use privex.Crypto.Hex.{Bytes, Text, to_hex}
use privex.Db.Table
use privex.Db.Rows.{ContactStatus, pending_inbound, accepted, MessageRow, Direction, outbound}
use privex.Device.{Device, Fault, with_store}
use privex.Exec.{Flow, Done, pure, throw, gets, await, modify, catch, ◌>>=◌, ◌>>◌}
use privex.HistoryRecords.{
  HistoryRecord, message, contact, MsgRecord, ContactRecord, message_record, contact_record_for,
  collect_local_records, import_record,
}

pub record Blob : Type 0 where
  pub blob_id : Text
  pub ciphertext : Text

pub record HistoryKeys : Type 0 where
  pub enc : Bytes
  pub id : Bytes

-- Web Crypto, JSON and base64 as one codec of records under a key, the seed of the identity that is
-- loaded, the clock, and what the server takes: an upload, or the deletion of some or all blobs.
pub record HistoryEnv : Type 0 where
  pub hkdf : Bytes → String → Bytes
  pub hmac : Bytes → String → Bytes
  pub encrypt : Bytes → HistoryRecord → Text
  pub decrypt : Bytes → Text → Option HistoryRecord
  pub load_seed : Option Bytes
  pub takes : List Blob → Bool
  pub drops : List Text → Bool
  pub drops_all : Bool
  pub now_s : ℕ

-- The device; the caches of the module; and, in order, what the server took: uploads and deletions.
pub record Backup : Type 0 where
  pub device : Device
  pub key_cache : Option HistoryKeys
  pub backed_contacts : List String
  pub uploaded : List (List Blob)
  pub deleted : List (List Text)
  pub cleared : ℕ

abbrev pub max_count : ℕ
max_count = 200

abbrev pub max_body : ℕ
max_body = 1500000

abbrev pub flag_is_set : String → Backup → Bool
flag_is_set key s = or_else (Table.get s.device.flags key) false

abbrev pub set_flag : String → Backup → Backup
set_flag key s = record s {
  device = with_store (λ st. record st { flags = Table.put st.flags key true }) s.device;
}

abbrev pub is_backup_enabled : Backup → Bool
is_backup_enabled s = flag_is_set "history_backup" s

unfoldable pub token : Flow Backup String
token = do
  t ← gets (λ (s : Backup). s.device.session_token)
  await (Fault.error "not authenticated") t

unfoldable pub reset_history_backup : Backup → Backup
reset_history_backup s = record s { key_cache = none; backed_contacts = [] }

abbrev pub record_id : HistoryRecord → String
record_id (contact r) = NativeString.◌++◌ "contact:" r.px_id
record_id (message r) = r.msg_id

abbrev pub size_of : Blob → ℕ
size_of b = length b.blob_id + length b.ciphertext

abbrev pub is_full : List Blob → ℕ → Blob → Bool
is_full [] bytes b = false
is_full (c ∷ batch) bytes b = leb max_count (length (c ∷ batch)) || ltb max_body (bytes + size_of b)

module _ (env : HistoryEnv) where
  abbrev pub derive_keys : Bytes → HistoryKeys
  derive_keys seed = record {
    enc = env.hkdf seed "privex_history_v1";
    id = env.hkdf seed "privex_history_id_v1";
  }

  unfoldable pub history_key_from : Option HistoryKeys → Flow Backup HistoryKeys
  history_key_from (some keys) = pure keys
  history_key_from none = do
    seed ← await (Fault.error "identity not loaded") env.load_seed
    modify (λ (s : Backup). record s { key_cache = some (derive_keys seed) })
    pure (derive_keys seed)

  unfoldable pub history_key : Flow Backup HistoryKeys
  unfolding history_key_from
  history_key s = history_key_from s.key_cache s

  abbrev pub history_blob_id : Bytes → String → Text
  history_blob_id id_key id = to_hex (env.hmac id_key id)

  abbrev pub to_blob : HistoryKeys → HistoryRecord → Blob
  to_blob keys r = record {
    blob_id = history_blob_id keys.id (record_id r);
    ciphertext = env.encrypt keys.enc r;
  }

  -- one POST of blobs
  unfoldable pub upload_history : List Blob → Flow Backup Done
  upload_history batch s =
      if env.takes batch
      then modify (λ (s : Backup). record s { uploaded = s.uploaded ++ batch ∷ [] }) s
      else throw (Fault.error "upload") s

  abbrev pub flush : List Blob → Flow Backup Done
  flush [] = pure tt
  flush (b ∷ batch) = upload_history (b ∷ batch)

  -- the loop, with the batch so far and its bytes
  unfoldable pub upload_loop : List Blob → ℕ → List Blob → Flow Backup Done
  upload_loop batch bytes [] = flush batch
  upload_loop batch bytes (b ∷ blobs) = elim (is_full batch bytes b) [
    | true ↦ flush batch >> upload_loop (b ∷ []) (size_of b) blobs
    | false ↦ upload_loop (batch ++ b ∷ []) (bytes + size_of b) blobs
  ]

  unfoldable pub upload_batched : List Blob → Flow Backup Done
  upload_batched blobs = do tok ← token; upload_loop [] 0 blobs

  unfoldable pub backfill_all : Flow Backup Done
  backfill_all = do
    keys ← history_key
    recs ← gets (λ (s : Backup). collect_local_records s.device.store)
    upload_batched (map (to_blob keys) recs)

  -- the contact of a message, if it is not sent yet
  sidecar : HistoryKeys → String → Flow Backup (List Blob)
  sidecar keys peer s =
      if any (λ p. p == peer) s.backed_contacts
      then pure [] s
      else elim (contact_record_for s.device.store peer) [
        | none ↦ pure [] s
        | some c ↦
            pure (to_blob keys (contact c) ∷ [])
              (record s { backed_contacts = s.backed_contacts ++ peer ∷ [] })
      ]

  back_up : MessageRow → Flow Backup Done
  unfolding sidecar
  back_up m = do
    on ← gets is_backup_enabled
    (if on
        then (do
          keys ← history_key
          more ← sidecar keys m.session_id
          tok ← token
          upload_history (to_blob keys (message (message_record m)) ∷ more))
        else pure tt)

  unfoldable pub backup_message : MessageRow → Flow Backup Done
  unfolding back_up
  backup_message m = catch tt (back_up m)

  unfoldable pub enable_backup : Flow Backup Done
  enable_backup = do
    modify (set_flag "history_backup")
    backfill_all
    modify (set_flag "history_ids_v2")

  unfoldable pub disable_backup : Flow Backup Done
  disable_backup = do
    modify (λ (s : Backup). record s {
      device =
          with_store (λ st. record st { flags = Table.delete st.flags "history_backup" }) s.device;
      backed_contacts = [];
    })
    tok ← token
    if env.drops_all
        then modify (λ (s : Backup). record s { cleared = s.cleared + 1 })
        else throw (Fault.error "delete")
