-- ===== src/Tests/Links.antt =====
-- The transfer to another device and the linking of devices, at concrete values.
use privex.Prelude.{
  ◌≡◌, refl, arith, suc, true, Option, none, some, List, [], ◌∷◌, ◌++◌, map, drop, length,
  replicate, any, All, In, string_eq, bytes_eq, nat_eq,
}
use privex.Crypto.Hex.{Bytes, from_hex}
use privex.Db.Table
use privex.Db.Table.{get-empty, rows-empty, rows-put}
use privex.Device.{Device}
use privex.HistoryRecords.{HistoryRecord, message, message_record, collect_local_records}
use privex.DeviceSync.{SyncEnv}
use privex.DeviceSync.Link.{device_sync_enabled}
use privex.DeviceLink.{
  Inner, Frame, transferred, LinkEnv, ready, done, manifest, chunk, settle, seal, open_sealed, wire,
}
use privex.DeviceLink.Token.{
  encode_transfer_token, parse_transfer_token, parse_transfer_token-encode_transfer_token,
}
use privex.DeviceLink.Sas.{compute_sas, compute_sas_comm}
use privex.DeviceLink.Export
use privex.DeviceLink.Export.{Exporter}
use privex.DeviceLink.Export.Stream.{IsWaiting, turns, turns-ready, turns-hello, records, stream_of}
use privex.DeviceLink.Export.Consent.{is_data, after, Heard, after-data}
use privex.DeviceLink.Import
use privex.DeviceLink.Import.{Importer}
use privex.DeviceLink.Import.Transfer.{IsUnderstood, arrive, import_all, arrive-turns}
use privex.Tests.Demo

parse_transfer_token-encode_transfer_token_example :
    parse_transfer_token
      (λ t. t)
      (λ t. none)
      (encode_transfer_token (record { rid = replicate 32 97; pk = replicate 64 48 }))
    ≡ some (record { rid = replicate 32 97; pk = replicate 64 48 })
parse_transfer_token-encode_transfer_token_example =
    parse_transfer_token-encode_transfer_token (λ t. t) (λ t. none)
      (record { rid = replicate 32 97; pk = replicate 64 48 }) refl refl refl

compute_sas_comm_example :
    compute_sas (λ b. b) (3 ∷ 4 ∷ []) (1 ∷ 2 ∷ []) ≡ compute_sas (λ b. b) (1 ∷ 2 ∷ []) (3 ∷ 4 ∷ [])
compute_sas_comm_example =
    compute_sas_comm (λ b. b) (3 ∷ 4 ∷ []) (1 ∷ 2 ∷ []) (omega arith, (omega arith, tt))
      (omega arith, (omega arith, tt))

-- one message and no contact
abbrev old_device : Device
old_device = record Demo.device {
  store = record Demo.store { contacts = Table.empty; flags = Table.empty };
}

abbrev new_device : Device
new_device = record Demo.device { store = record Demo.store { messages = Table.empty } }

abbrev history : List HistoryRecord
history = message (message_record Demo.sent_row) ∷ []

old_history : collect_local_records old_device.store ≡ history
unfolding collect_local_records
old_history = rw (rows-put, rows-empty) refl

-- a printer of the frames of this transfer, told apart by their lengths
abbrev printed : Inner → Bytes
printed ready = []
printed done = 0 ∷ []
printed (manifest (some n)) = 0 ∷ n ∷ []
printed (chunk n r) = 0 ∷ 0 ∷ n ∷ []
printed _ = 0 ∷ 0 ∷ 0 ∷ 0 ∷ []

abbrev read_printed : Bytes → Option Inner
read_printed [] = some ready
read_printed (a ∷ []) = some done
read_printed (a ∷ n ∷ []) = some (manifest (some n))
read_printed (a ∷ b ∷ n ∷ []) = some (chunk n (message (message_record Demo.sent_row)))
read_printed _ = none

-- a frame opens under the key whose bytes stand before it
abbrev strip : Bytes → Bytes → Option Bytes
strip [] b = some b
strip (k ∷ key) [] = none
strip (k ∷ key) (x ∷ b) = strip key b

abbrev sync_env : SyncEnv
sync_env = record {
  aes_encrypt = λ key b. b;
  aes_decrypt = λ key b. some b;
  stringify = λ r. [];
  parse = λ b. none;
  random_id = 48 ∷ [];
}

abbrev env : LinkEnv
env = record {
  aes = record { encrypt = λ key b. key ++ b; decrypt = strip };
  stringify = printed;
  parse = read_printed;
  b64encode = λ b. b;
  b64decode = λ t. some t;
  pub_key = 1 ∷ [];
  priv_key = 2 ∷ [];
  channel_key = λ priv pub_key. some (priv ++ pub_key);
  sha256 = λ b. b;
  sync = sync_env;
  hkdf = λ secret info. secret ++ info;
  today = 50 ∷ [];
  now_ms = 5000;
}

abbrev key : Bytes
key = 9 ∷ []

abbrev exporter : Exporter
exporter = record (Export.start old_device) { key = some key; confirmed = true; sent_ready = true }

abbrev importer : Importer
importer = record (Import.start new_device) { key = some key }

exporter-IsWaiting : IsWaiting env key exporter
exporter-IsWaiting = record {
  has_key = refl;
  said_ready = refl;
  confirmed = refl;
  not_streaming = refl;
  not_finished = refl;
  not_closed = refl;
}

ready_opens : open_sealed env key (seal env key ready) ≡ some ready
unfolding open_sealed
ready_opens = refl

understood : All (IsUnderstood env env) (stream_of key (records env exporter))
unfolding open_sealed
understood = rw old_history (refl, (refl, (refl, tt)))

turns-ready_example :
    let s' =
      turns env
        (suc (length (records env exporter)))
        (Export.step env (Export.frame (Frame.enc (seal env key ready))) exporter) in
    (s'.sent ≡ [] ++ stream_of key (records env exporter))
    × (s'.finished ≡ true)
    × (s'.ending ≡ settle (transferred (length (records env exporter))) none)
turns-ready_example =
    turns-ready env key (seal env key ready) exporter exporter-IsWaiting ready_opens

-- the key that a second hello gives: the private key and the peer's 7
abbrev other_key : Bytes
other_key = 2 ∷ from_hex (48 ∷ 55 ∷ [])

other_ready_opens : open_sealed env other_key (seal env other_key ready) ≡ some ready
unfolding open_sealed from_hex
other_ready_opens = refl

turns-hello_example :
    (turns env (suc (length (records env exporter))) (
      Export.step env
        (Export.frame (Frame.enc (seal env other_key ready)))
        (Export.step env (Export.frame (Frame.hello (48 ∷ 55 ∷ []))) exporter))).sent
    ≡ [] ++ stream_of other_key (records env exporter)
turns-hello_example =
    turns-hello env key other_key (48 ∷ 55 ∷ []) (seal env other_key ready) exporter
      exporter-IsWaiting refl other_ready_opens

arrive-turns_example :
    let e' =
      turns env
        (suc (length (records env exporter)))
        (Export.step env (Export.frame (Frame.enc (seal env key ready))) exporter) in
    let i' = arrive env [] (map (wire env) (drop 0 e'.sent)) importer in
    (i'.device ≡ import_all 5 (records env exporter) new_device)
    × (e'.ending ≡ some (transferred (length (records env exporter))))
    × (i'.ending ≡ e'.ending)
arrive-turns_example =
    arrive-turns env env key [] (seal env key ready) exporter importer understood exporter-IsWaiting
      ready_opens refl refl refl refl

-- the peer's hello, the confirmation, its ready frame; the last first
abbrev past : List Export.Event
past =
    Export.frame (Frame.enc (seal env other_key ready))
    ∷ Export.confirm
    ∷ Export.frame (Frame.hello (48 ∷ 55 ∷ []))
    ∷ []

sends_data : any is_data (after env old_device past).sent ≡ true
unfolding Export.step Export.handle_frame Export.shake_hands Export.try_send_ready
    Export.send_link_frame Export.maybe_stream Export.begin_stream Export.handle_enc
    Export.handle_inner open_sealed device_sync_enabled from_hex
sends_data = rw (get-empty) refl

after-data_example : In Export.confirm past × Heard env old_device past
after-data_example = after-data env old_device past sends_data
