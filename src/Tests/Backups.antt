-- ===== src/Tests/Backups.antt =====
-- The history backup, at concrete values.
use privex.Prelude.{refl, ◌∙◌, ◌⊎◌, true, Option, none, some, List, [], ◌∷◌, string_eq}
use privex.Db.Table
use privex.Db.Table.{get-empty}
use privex.Db.Rows.{accepted, pending_inbound}
use privex.Db.Contacts.{status_of}
use privex.Exec.{pure, gets, await, modify, ◌>>=◌}
use privex.HistoryRecords.{contact, ContactRecord}
use privex.HistoryRecords.Import.{status_of-import_record}
use privex.HistoryBackup.{
  Blob, HistoryEnv, Backup, upload_batched, token, history_key, history_key_from,
}
use privex.HistoryBackup.Upload.{IsUploaded, upload_batched-IsUploaded}
use privex.HistoryBackup.Restore.{restore_history, restore_pages, restore_rows, restore_record}
use privex.HistoryBackup.Restore.Accepted.{Accepts}
use privex.HistoryBackup.Restore.Justified.{IsTold, restore_history-Accepts}
use privex.Tests.Demo

abbrev carol : ContactRecord
carol = record {
  px_id = "carol";
  name = "";
  ik_ed25519 = [];
  ik_x25519 = [];
  verified = none;
  status = some accepted;
}

abbrev env : HistoryEnv
env = record {
  hkdf = λ seed info. seed;
  hmac = λ key id. key;
  encrypt = λ key r. [];
  decrypt = λ key t. some (contact carol);
  load_seed = some (3 ∷ []);
  takes = λ batch. true;
  drops = λ ids. true;
  drops_all = true;
  now_s = 5;
}

abbrev blob : Blob
blob = record { blob_id = 48 ∷ []; ciphertext = 65 ∷ 66 ∷ [] }

abbrev backup : Backup
backup = record {
  device = record Demo.device { store = record Demo.store { contacts = Table.empty } };
  key_cache = none;
  backed_contacts = [];
  uploaded = [];
  deleted = [];
  cleared = 0;
}

upload_batched-IsUploaded_example :
    let (o, later) = upload_batched env (blob ∷ blob ∷ []) backup in
    IsUploaded (blob ∷ blob ∷ []) backup o later
upload_batched-IsUploaded_example = upload_batched-IsUploaded env (blob ∷ blob ∷ []) backup

abbrev pages : List (Option (List Blob))
pages = some (blob ∷ []) ∷ none ∷ []

-- carol comes back, before a page that cannot be read
carol_returns : Accepts (restore_history env pages backup).1.device "carol"
unfolding restore_history restore_pages restore_rows restore_record history_key history_key_from
    token gets await modify pure ◌>>=◌ status_of
carol_returns =
    status_of-import_record carol pending_inbound 5 backup.device "carol" ∙ rw get-empty refl

restore_history-Accepts_example : Accepts backup.device "carol" ⊎ IsTold env pages "carol"
restore_history-Accepts_example = restore_history-Accepts env pages backup "carol" carol_returns
