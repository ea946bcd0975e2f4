-- ===== src/DeviceSync/Link.antt =====
-- Linking a device of the same account (apps/web/src/services/device-sync.ts).
pub mod Agree
use privex.Prelude.{
  ◌≡◌, refl, ap, ◌∙◌, ℕ, ◌/◌, String, Bool, false, Option, none, some, List, [], ◌∷◌, ◌++◌, map,
  or_else, if◌then◌else◌, take, bytes_eq, string_eq, ◌==◌,
}
use privex.Crypto.Hex.{Bytes, Text}
use privex.Db.Table
use privex.Db.Table.{get-put}
use privex.Db.Rows.{LinkedDeviceRow}
use privex.Device.{Device, with_store}
use privex.DeviceSync.{SyncEnv, my_device_id, SyncRecord, encrypt_sync_record, open_sync_blob}

-- "privex_device_sync_v1|"
abbrev pub hkdf_info : Text
hkdf_info =
    112 ∷ 114 ∷ 105 ∷ 118 ∷ 101 ∷ 120 ∷ 95 ∷ 100 ∷ 101 ∷ 118 ∷ 105 ∷ 99 ∷ 101 ∷ 95 ∷ 115 ∷ 121 ∷ 110
    ∷ 99 ∷ 95 ∷ 118 ∷ 49 ∷ 124 ∷ []

unfoldable pub device_sync_enabled : Device → Bool
device_sync_enabled d = or_else (Table.get d.flags "device_sync_enabled") false

unfoldable pub set_device_sync_enabled : Bool → Device → Device
set_device_sync_enabled on d =
    with_store (λ s. record s { flags = Table.put s.flags "device_sync_enabled" on }) d

-- `hkdf` is HKDF-SHA256 of the browser: of a secret and an info text, 32 bytes
module _ (env : SyncEnv) (hkdf : Bytes → Text → Bytes) where
  unfoldable pub derive_sync_key : Bytes → Text → Bytes
  derive_sync_key channel_secret target = hkdf channel_secret (hkdf_info ++ target)

  abbrev pub linked_row : Bytes → Text → Text → Text → ℕ → LinkedDeviceRow
  linked_row channel_secret me peer peer_label now_ms = record {
    device_id = peer;
    label = take 64 peer_label;
    send_key = derive_sync_key channel_secret peer;
    recv_key = derive_sync_key channel_secret me;
    linked_at = now_ms / 1000;
  }

  unfoldable pub store_linked_device : Bytes → Text → Text → ℕ → Device → Device
  store_linked_device channel_secret peer peer_label now_ms d =
      let (me, d') = my_device_id env d in
      let row = linked_row channel_secret me peer peer_label now_ms in
      with_store (λ s. record s { linked_devices = Table.put s.linked_devices peer row }) d'

unfoldable pub remove_linked_device : Text → Device → Device
remove_linked_device id d =
    with_store (λ s. record s { linked_devices = Table.delete s.linked_devices id }) d

-- the devices that copies go to, each with its key
unfoldable pub sync_targets : Device → List (Text × Bytes)
sync_targets d =
    if device_sync_enabled d
    then map (λ (r : Text × LinkedDeviceRow). (r.1.device_id, r.1.send_key))
        (Table.rows d.linked_devices)
    else []
