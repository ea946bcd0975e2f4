-- ===== src/HistoryBackup/Legacy/Safe.antt =====
-- What a move of ids deletes (`dropLegacyIds` of apps/web/src/services/history-backup.ts).
use privex.Prelude.{◌≡◌, ◌⊎◌, Option, none, some, List, [], ◌++◌, map, bytes_eq, All}
use privex.Crypto.Hex.{Bytes, Text}
use privex.Exec
use privex.Exec.{Outcome, ◌>>◌}
use privex.HistoryBackup.{Blob, HistoryKeys, HistoryEnv, Backup, derive_keys}
use privex.HistoryBackup.Upload.{join}
use privex.HistoryBackup.Legacy.{Legacy, legacy_rows, missing_from, all_pages}
use privex.HistoryBackup.Legacy.Copies.{IsSafe}

-- deletions of ids with a property
record Deletes (P : Text → Type 0) (before later : Backup) : Type 0 where
  slices : List (List Text)
  gone : later.deleted ≡ before.deleted ++ slices
  safe : All (All P) slices
  unposted : later.uploaded ≡ before.uploaded

-- the keys in the cache, or those of the seed that is loaded
pub data Held (env : HistoryEnv) (s : Backup) (keys : HistoryKeys) : Type 0 where
  in_cache : s.key_cache ≡ some keys → Held env s keys
  derived :
      (seed : Bytes)
      → s.key_cache ≡ none
      → env.load_seed ≡ some seed
      → keys ≡ derive_keys env seed
      → Held env s keys

-- what a move of ids did: it posted, and then deleted rows that may go
pub record IsMoved (env : HistoryEnv) (pages : List (Option (List Blob))) (before later : Backup)
    : Type 0 where
  pub keys : HistoryKeys
  pub rows : List Blob
  pub posts : List (List Blob)
  pub slices : List (List Text)
  pub posted : later.uploaded ≡ before.uploaded ++ posts
  pub gone : later.deleted ≡ before.deleted ++ slices
  pub listed : (slices ≡ []) ⊎ (all_pages pages ≡ some rows)
  pub held : (slices ≡ []) ⊎ Held env before keys
  pub safe : All (All (IsSafe env keys rows (join posts))) slices

module _ (env : HistoryEnv) (pages : List (Option (List Blob))) where
  module _ (before : Backup) (keys : HistoryKeys) (rows : List Blob)
      (read : all_pages pages ≡ some rows) (own : Held env before keys) where
    names : List Text
    names = map (λ (w : Blob). w.blob_id) rows

    legacy : List Legacy
    legacy = legacy_rows env keys rows

    missing : List Blob
    unfolding names legacy
    missing = missing_from names legacy []

  -- a first part that posts and deletes nothing
  Plain : {A : Type 0} → Backup → Outcome A × Backup → Type 0
  Plain before r = (r.1.uploaded ≡ before.uploaded) × (r.1.deleted ≡ before.deleted)
