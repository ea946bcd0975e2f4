-- ===== src/DeviceSync/Link/Agree.antt =====
-- That linked devices read each other (apps/web/src/services/device-sync.ts).
use privex.Prelude.{◌≡◌, refl, ◌∙◌, ℕ, ◌<◌, ◌^◌, some, true, length, bytes_eq, beq_refl}
use privex.Crypto.Hex.{Bytes, Text}
use privex.Db.Table
use privex.Db.Table.{get-put}
use privex.Db.Rows.{LinkedDeviceRow}
use privex.Device.{Device}
use privex.DeviceSync.{
  SyncEnv, SyncRecord, my_device_id, present_id, is_well_formed, encrypt_sync_record,
  open_sync_blob,
}
use privex.DeviceSync.Link.{linked_row, store_linked_device}
use privex.DeviceSync.Padding.{decrypt-encrypt}

module _ (env : SyncEnv) where
  my_device_id-present :
      (d : Device) (me : Text) → present_id d.device_id ≡ some me → my_device_id env d ≡ (me, d)
  unfolding my_device_id
  my_device_id-present d me h = rw (my_device_id, h) refl

module _ (env : SyncEnv) (hkdf : Bytes → Text → Bytes) where
  -- what a device with an id keeps of its peer
  row_of_peer :
      (secret me peer label : Bytes) (now : ℕ) (d : Device)
      → present_id d.device_id ≡ some me
      → Table.get (store_linked_device env hkdf secret peer label now d).linked_devices peer
        ≡ some (linked_row env hkdf secret me peer label now)
  unfolding store_linked_device
  row_of_peer secret me peer label now d h = rw (my_device_id-present env d me h) (
      get-put d.linked_devices peer (linked_row env hkdf secret me peer label now) peer
      ∙ rw (beq_refl peer) refl)

-- Two devices that have linked each other over one channel, each under its own id, read each other:
-- the row that the one keeps of the other holds a key under which a well formed record of less than
-- 2^32 bytes is sent and read, with a cipher that opens what it sealed and a parser that reads the
-- record as it was printed.
pub open_sync_blob-encrypt_sync_record :
    (env : SyncEnv) (hkdf : Bytes → Text → Bytes) (secret : Bytes)
    (id_a id_b label_a label_b : Text) (now_a now_b : ℕ) (a b : Device) (r : SyncRecord)
    → present_id a.device_id ≡ some id_a
    → present_id b.device_id ≡ some id_b
    → ((k p : Bytes) → env.aes_decrypt k (env.aes_encrypt k p) ≡ some p)
    → env.parse (env.stringify r) ≡ some r
    → length (env.stringify r) < 2 ^ 32
    → is_well_formed r ≡ true
    → (row : LinkedDeviceRow) × (Table.get
          (store_linked_device env hkdf secret id_b label_b now_a a).linked_devices
          id_b
        ≡ some row)
      × (open_sync_blob env id_a
            (encrypt_sync_record env r row.send_key)
            (store_linked_device env hkdf secret id_a label_a now_b b)
          ≡ some r)
unfolding open_sync_blob
open_sync_blob-encrypt_sync_record env hkdf secret id_a id_b label_a label_b now_a now_b a b r ha hb
      opens reads short ok =
    let row = linked_row env hkdf secret id_a id_b label_b now_a in
    (
      row,
      row_of_peer env hkdf secret id_a id_b label_b now_a a ha,
      rw (row_of_peer env hkdf secret id_b id_a label_a now_b b hb)
          (decrypt-encrypt env r row.send_key opens reads short ok),
    )
