-- ===== src/HistoryBackup/Restore.antt =====
-- The history from the server back to a device (`restoreHistory` of
-- apps/web/src/services/history-backup.ts).
pub mod Accepted
pub mod Justified
use privex.Prelude.{
  ℕ, zero, suc, ◌+◌, String, Bool, true, false, not, ◌||◌, Option, none, some, List, [], ◌∷◌, ◌++◌,
  map, take, drop, any, length, if◌then◌else◌, ◌==◌, string_eq, bytes_eq, is_some,
}
use mathlib.Core.Option
use privex.Crypto.Hex.{Bytes, Text}
use privex.Db.Rows.{ContactStatus, pending_inbound, accepted, Direction}
use privex.Device.{Fault}
use privex.Exec.{Flow, Done, pure, throw, gets, await, modify, catch, ◌>>=◌, ◌>>◌}
use privex.HistoryRecords.{HistoryRecord, message, contact, MsgRecord, ContactRecord, import_record}
use privex.HistoryBackup.{
  Blob, HistoryKeys, HistoryEnv, Backup, max_count, flag_is_set, set_flag, is_backup_enabled, token,
  record_id, history_key, history_blob_id, upload_batched, backfill_all,
}

-- the contacts without a status, the peers we sent to and the number of rows, as the pages are read
pub record Seen : Type 0 where
  pub legacy : List ContactRecord
  pub messaged : List String
  pub count : ℕ

abbrev pub is_out : MsgRecord → Bool
is_out r = elim r.direction [ Direction.inbound ↦ false | Direction.outbound ↦ true ]

module _ (env : HistoryEnv) where
  abbrev pub import_one : HistoryRecord → ContactStatus → Flow Backup Done
  import_one r status =
      modify (λ (s : Backup). record s { device = import_record r status env.now_s s.device })

  unfoldable pub restore_record : HistoryRecord → Seen → Flow Backup Seen
  restore_record (message r) seen = do
    import_one (message r) pending_inbound
    pure (if is_out r then record seen { messaged = r.peer_id ∷ seen.messaged } else seen)
  restore_record (contact r) seen =
      if is_some r.status
      then (do import_one (contact r) pending_inbound; pure seen)
      else pure (record seen { legacy = seen.legacy ++ r ∷ [] })

  unfoldable pub restore_rows : HistoryKeys → List Blob → Seen → Flow Backup Seen
  unfolding restore_record
  restore_rows keys [] seen = pure seen
  restore_rows keys (w ∷ rows) seen = do
    r ← await (Fault.error "decrypt") (env.decrypt keys.enc w.ciphertext)
    next ← restore_record r seen
    restore_rows keys rows next

  unfoldable pub restore_pages : HistoryKeys → List (Option (List Blob)) → Seen → Flow Backup Seen
  restore_pages keys [] seen = pure seen
  restore_pages keys (page ∷ pages) seen = do
    rows ← await (Fault.error "list") page
    next ← restore_rows keys rows seen
    restore_pages keys pages (record next { count = next.count + length rows })

  unfoldable pub restore_legacy : List String → List ContactRecord → Flow Backup Done
  restore_legacy messaged [] = pure tt
  restore_legacy messaged (c ∷ legacy) = do
    import_one (contact c) (if any (λ p. p == c.px_id) messaged then accepted else pending_inbound)
    restore_legacy messaged legacy

  unfoldable pub restore_history : List (Option (List Blob)) → Flow Backup ℕ
  unfolding restore_rows restore_pages restore_legacy
  restore_history pages = do
    keys ← history_key env
    tok ← token
    seen ← restore_pages keys pages (record { legacy = []; messaged = []; count = 0 })
    restore_legacy seen.messaged seen.legacy
    pure seen.count
