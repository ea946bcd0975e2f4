-- ===== src/Tests/Codecs.antt =====
-- Encodings, time signatures, files and sync records, at concrete values.
use privex.Prelude.{
  ◌++◌, ℕ, zero, suc, ◌≡◌, refl, true, false, Option, none, some, [], ◌∷◌, arith, if◌then◌else◌,
  is_some, All, nat_eq, string_eq, bytes_eq,
}
use privex.Prelude.Int.{pos}
use privex.Crypto.Hex.{Bytes, Text, to_hex, from_hex}
use privex.Db.Rows.{ReceiptType, Kind}
use privex.Wire.{FileFields}
use privex.Envelope.Proto.{ProtoCodec, ProtoContent, ReadsBack, number, to_num}
use privex.Envelope.{
  text_content, file_content, hello_content, accept_content, receipt_content, proto_envelope,
  nothing, encode_text, encode_file, encode_envelope, decode_content, decode_envelope,
}
use privex.Envelope.RoundTrip.{
  as_request, with_thumbnail, decode_content-encode_text, decode_content-encode_file,
  decode_envelope-encode_envelope,
}
use privex.TimeSync.{DeliveryTimeFields, ClockStatus, check_delivery_time, time_signing_input}
use privex.TimeSync.Laws.{anchor_signed, time_signing_input-injective}
use privex.Files.{FileMeta, materialize_incoming, materialize_incoming-All, is_hex64, IsChunkId}
use privex.Db.Table
use privex.Db.Rows.{LinkedDeviceRow}
use privex.Device.{Device}
use privex.DeviceSync.Link.{store_linked_device}
use privex.DeviceSync.Link.Agree.{open_sync_blob-encrypt_sync_record}
use privex.DeviceSync.{open_sync_blob, SyncEnv, SyncRecord, encrypt_sync_record}
use privex.Tests.Demo

abbrev text_codec : ProtoCodec
text_codec = Demo.codec_of (text_content "hello" 999 none) (proto_envelope [] [] none)

-- what the decoder returns of a number field has that number
read_number : (n : ℕ) → to_num (some (number n)) ≡ n
unfolding to_num
read_number n = refl

text_reads : ReadsBack text_codec (text_content "hello" 999 none)
unfolding to_num
text_reads = record { as_read = number; as_read_num = read_number; back = refl }

decode_content-encode_text_example :
    decode_content text_codec (encode_text text_codec "hello" 999 none)
    ≡ some (record nothing {
      text = some (record { body = "hello"; sent_at = 999 });
      receipt_request = none;
    })
decode_content-encode_text_example =
    decode_content-encode_text text_codec "hello" 999 none text_reads

abbrev photo : FileFields
photo = record {
  filename_enc = 1 ∷ [];
  mime_enc = 2 ∷ [];
  total_size = 5;
  sha256 = 3 ∷ [];
  chunk_ids = "c0" ∷ [];
  wrapped_cek = 4 ∷ [];
  eph_pub = 5 ∷ [];
  thumbnail_enc = some [];
  sent_at = 999;
}

abbrev file_codec : ProtoCodec
file_codec = Demo.codec_of (file_content photo none) (proto_envelope [] [] none)

file_reads : ReadsBack file_codec (file_content photo none)
unfolding to_num
file_reads = record { as_read = number; as_read_num = read_number; back = refl }

decode_content-encode_file_example :
    decode_content file_codec (encode_file file_codec photo none)
    ≡ some
        (record nothing { file = some (with_thumbnail photo); receipt_request = as_request none })
decode_content-encode_file_example = decode_content-encode_file file_codec photo none file_reads

-- one codec for the three control messages, told apart by their first byte
abbrev pick : Bytes → Option ProtoContent
pick [] = none
pick (zero ∷ bs) = some (hello_content 999)
pick (suc zero ∷ bs) = some (accept_content 999)
pick (suc (suc n) ∷ bs) = some (receipt_content (5 ∷ []) ReceiptType.read)

abbrev tag : ProtoContent → Bytes
tag c =
    if is_some c.contact_hello then 0 ∷ [] else if is_some c.contact_accept then 1 ∷ [] else 2 ∷ []

abbrev control_codec : ProtoCodec
control_codec = record {
  encode_content = tag;
  decode_content = pick;
  encode_envelope = λ e. 9 ∷ [];
  decode_envelope = λ b. none;
}

decode_envelope-encode_envelope_example :
    decode_envelope text_codec (encode_envelope text_codec [] [] none)
    ≡ some (record { header = []; ciphertext = []; pqxdh = none; device_sync = none })
decode_envelope-encode_envelope_example =
    decode_envelope-encode_envelope text_codec [] [] none (record { envelope_back = refl })

time_signing_input-injective_example :
    (◌≡◌ {A = ℕ} 999 999) × (◌≡◌ {A = ℕ} 998 998) × (Demo.clock.utf8 "m1" ≡ Demo.clock.utf8 "m1")
time_signing_input-injective_example =
    time_signing_input-injective Demo.clock 999 999 998 998 "m1" "m1" (omega arith) (omega arith)
      (omega arith) (omega arith) refl

abbrev frame : DeliveryTimeFields
frame = record {
  message_id = "m1";
  queued_at = 998;
  server_ts = some 999;
  server_ts_sig = some (48 ∷ 49 ∷ []);
}

abbrev calm : ClockStatus
calm = record { warning = false; drift_seconds = pos 0; notified = 0 }

frame_anchor : (check_delivery_time Demo.clock frame calm).0.anchor ≡ some 998
unfolding check_delivery_time
frame_anchor = refl

anchor_signed_example :
    (◌≡◌ {A = ℕ} 998 998)
    × ((ts : ℕ) × (sig : Text) × (frame.server_ts ≡ some ts)
        × (frame.server_ts_sig ≡ some sig)
        × (Demo.clock.verify
              (time_signing_input Demo.clock ts 998 "m1")
              (from_hex sig)
              (from_hex Demo.clock.time_signing_pub_hex)
            ≡ some true))
anchor_signed_example = anchor_signed Demo.clock frame calm 998 frame_anchor

abbrev received_meta : FileMeta
received_meta = record {
  name = 1 ∷ [];
  mime = 2 ∷ [];
  size = 5;
  sha256 = 48 ∷ 51 ∷ [];
  chunks = Demo.chunk_id ∷ [];
  cek = 48 ∷ 52 ∷ [];
  thumb = none;
}

abbrev sound_photo : FileFields
sound_photo = record photo { chunk_ids = Demo.chunk_id ∷ []; thumbnail_enc = none }

photo_received : materialize_incoming Demo.env.files sound_photo [] ≡ some received_meta
unfolding materialize_incoming is_hex64 to_hex
photo_received = refl

materialize_incoming-All_example : All IsChunkId (Demo.chunk_id ∷ [])
materialize_incoming-All_example =
    materialize_incoming-All Demo.env.files sound_photo [] received_meta photo_received

abbrev synced : SyncRecord
synced = record {
  v = 1;
  msg_id = "m5";
  peer_id = "bob";
  kind = Kind.text;
  content = "hi";
  ts = 5;
  token_hex = none;
}

-- a printer that writes nothing, whose parser knows the one record
abbrev sync_env : SyncEnv
sync_env = record {
  aes_encrypt = λ key bytes. bytes;
  aes_decrypt = λ key bytes. some bytes;
  stringify = λ r. [];
  parse = λ bytes. some synced;
  random_id = 48 ∷ [];
}

-- a device that knows its id
abbrev named : Text → Device
named id = record Demo.device { store = record Demo.store { device_id = some id } }

open_sync_blob-encrypt_sync_record_example :
    (row : LinkedDeviceRow) × (Table.get
        (store_linked_device sync_env
          (λ secret info. secret ++ info)
          (7 ∷ [])
          (50 ∷ [])
          []
          1000
          (named (49 ∷ []))).linked_devices
        (50 ∷ [])
      ≡ some row)
    × (open_sync_blob sync_env (49 ∷ []) (encrypt_sync_record sync_env synced row.send_key) (
          store_linked_device sync_env
            (λ secret info. secret ++ info)
            (7 ∷ [])
            (49 ∷ [])
            []
            2000
            (named (50 ∷ [])))
        ≡ some synced)
open_sync_blob-encrypt_sync_record_example =
    open_sync_blob-encrypt_sync_record sync_env (λ secret info. secret ++ info) (7 ∷ []) (49 ∷ [])
      (50 ∷ []) [] [] 1000 2000 (named (49 ∷ [])) (named (50 ∷ [])) synced refl refl (λ k b. refl)
      refl (omega arith) refl
