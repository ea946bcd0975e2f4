-- ===== src/HistoryBackup/Legacy.antt =====
-- The move of a backup to ids that the server cannot read (`dropLegacyIds` and `migrateBackupIds` of
-- apps/web/src/services/history-backup.ts).
pub mod Copies
pub mod Safe
use privex.Prelude.{
  ℕ, zero, suc, ◌+◌, String, Bool, true, false, not, ◌||◌, Option, none, some, List, [], ◌∷◌, ◌++◌,
  map, take, drop, any, length, if◌then◌else◌, ◌==◌, string_eq, bytes_eq, is_some,
}
use mathlib.Core.Option
use privex.Crypto.Hex.{Bytes, Text}
use privex.Db.Rows.{ContactStatus, pending_inbound, accepted, Direction}
use privex.Device.{Fault}
use privex.Exec.{Flow, Done, pure, throw, gets, await, modify, catch, ◌>>=◌, ◌>>◌}
use privex.HistoryRecords.{HistoryRecord, message, contact, MsgRecord, ContactRecord, import_record}
use privex.HistoryBackup.{
  Blob, HistoryKeys, HistoryEnv, Backup, max_count, flag_is_set, set_flag, is_backup_enabled, token,
  record_id, history_key, history_blob_id, upload_batched, backfill_all,
}

-- a row that is not under the id of its record
pub record Legacy : Type 0 where
  pub blob_id : Text
  pub opaque : Text
  pub ciphertext : Text

-- `map.set`: a key that is there keeps its place
unfoldable pub put_missing : Blob → List Blob → List Blob
put_missing b [] = b ∷ []
put_missing b (c ∷ rest) =
    let rest' = put_missing b rest in if c.blob_id == b.blob_id then b ∷ rest else c ∷ rest'

-- the records with no copy under their id; of two rows with one record the later
unfoldable pub missing_from : List Text → List Legacy → List Blob → List Blob
missing_from ids [] missing = missing
missing_from ids (l ∷ legacy) missing = missing_from ids legacy (
    if any (λ id. id == l.opaque) ids
    then missing
    else put_missing (record { blob_id = l.opaque; ciphertext = l.ciphertext }) missing)

-- what the pages hold, if no call fails
unfoldable pub all_pages : List (Option (List Blob)) → Option (List Blob)
all_pages [] = some []
all_pages (none ∷ pages) = none
all_pages (some page ∷ pages) = Option.map (λ rest. page ++ rest) (all_pages pages)

module _ (env : HistoryEnv) where
  unfoldable pub legacy_of : HistoryKeys → Blob → Option HistoryRecord → List Legacy
  legacy_of keys w none = []
  legacy_of keys w (some r) =
      let id = history_blob_id env keys.id (record_id r) in
      if id == w.blob_id
      then []
      else record { blob_id = w.blob_id; opaque = id; ciphertext = w.ciphertext } ∷ []

  -- the rows of all pages, in the order of the server
  unfoldable pub legacy_rows : HistoryKeys → List Blob → List Legacy
  unfolding legacy_of
  legacy_rows keys [] = []
  legacy_rows keys (w ∷ rows) =
      legacy_of keys w (env.decrypt keys.enc w.ciphertext) ++ legacy_rows keys rows

  unfoldable pub delete_blobs : List Text → Flow Backup Done
  delete_blobs ids s =
      if env.drops ids
      then modify (λ (s : Backup). record s { deleted = s.deleted ++ ids ∷ [] }) s
      else throw (Fault.error "delete") s

  -- `stale` in slices of 200; the fuel is its length, which is at least the number of slices
  unfoldable pub delete_slices : ℕ → List Text → Flow Backup Done
  delete_slices zero stale = pure tt
  delete_slices (suc n) [] = pure tt
  delete_slices (suc n) (id ∷ stale) = do
    delete_blobs (take max_count (id ∷ stale))
    delete_slices n (drop max_count (id ∷ stale))

  -- `pages` are the answers of the server, the last with no next one; `none` is a call that fails
  unfoldable pub drop_legacy_ids : List (Option (List Blob)) → Flow Backup Done
  unfolding all_pages legacy_rows put_missing missing_from delete_blobs delete_slices
  drop_legacy_ids pages = do
    keys ← history_key env
    tok ← token
    listed ← await (Fault.error "list") (all_pages pages)
    let legacy = legacy_rows keys listed
    upload_batched env (missing_from (map (λ (w : Blob). w.blob_id) listed) legacy [])
    delete_slices (length legacy) (map (λ l. Legacy.blob_id l) legacy)

  unfoldable pub migrate : List (Option (List Blob)) → Flow Backup Done
  migrate pages = do
    on ← gets is_backup_enabled
    moved ← gets (flag_is_set "history_ids_v2")
    (if not on || moved
        then pure tt
        else (do backfill_all env; drop_legacy_ids pages; modify (set_flag "history_ids_v2")))

  unfoldable pub migrate_backup_ids : List (Option (List Blob)) → Flow Backup Done
  unfolding migrate
  migrate_backup_ids pages = catch tt (migrate pages)
