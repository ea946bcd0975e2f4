-- ===== src/Tests/Demo.antt =====
-- A device with one accepted contact, and a delivery from it.
use privex.Prelude.{String, true, false, none, some, [], ◌∷◌, nat_eq, string_eq, bytes_eq}
use privex.Prelude.Int.{pos}
use privex.Crypto.Hex.{to_hex}
use privex.Db.Table
use privex.Db.Rows.{Store, SessionRow, MessageRow, accepted, Kind, outbound, MessageStatus}
use privex.Db.Contacts as ContactStore
use privex.Wire.{IdentityKeys, IdentityBundle, MessageCryptoApi}
use privex.Envelope.{text_content, proto_envelope}
use privex.Envelope.Proto.{ProtoCodec, ProtoContent, ProtoEnvelope}
use privex.TimeSync.{TimeEnv}
use privex.Device.{Device, Reply}
use privex.Messaging.{Env}
use privex.Messaging.Receive.Context.{WsMessage}

abbrev pub keys : IdentityKeys
keys = record {
  ed25519_pub = 1 ∷ [];
  ed25519_priv = 2 ∷ [];
  dilithium3_pub = [];
  dilithium3_priv = [];
  kyber1024_pub = [];
  kyber1024_priv = [];
  x25519_pub = 3 ∷ [];
  x25519_priv = 4 ∷ [];
}

abbrev pub alice : IdentityBundle
alice = record {
  user_id = "alice";
  identity = keys;
  spk = record { pub_key = 5 ∷ []; priv = 6 ∷ [] };
  spk_sig = record { ed = []; dil = [] };
  opks = [];
  prev_spks = none;
  spk_rotate_after = none;
  spk_pending = none;
  opk_pending = none;
}

-- 64 lowercase hexadecimal digits
abbrev pub chunk_id : String
chunk_id = "0123456789abcdef0123456789abcdef0123456789abcdef0123456789abcdef"

-- generated code that knows one message
abbrev pub codec_of : ProtoContent → ProtoEnvelope → ProtoCodec
codec_of c e = record {
  encode_content = λ _. 8 ∷ [];
  decode_content = λ _. some c;
  encode_envelope = λ _. 9 ∷ [];
  decode_envelope = λ _. some e;
}

-- a worker that opens everything as bob's
abbrev pub crypto : MessageCryptoApi
crypto = record {
  ratchet_encrypt =
      λ state plain. some (record { ciphertext = plain; header = []; new_state = state });
  ratchet_decrypt = λ state cipher header. some (record { plaintext = cipher; new_state = state });
  ratchet_init_bob = λ shared priv key. some shared;
  generate_sender_cert = λ id k now ttl. some (1 ∷ []);
  sealed_sender_encrypt = λ plain cert to. some plain;
  sealed_sender_decrypt = λ blob priv now. some (record {
    plaintext = blob;
    sender_id = "bob";
    sender_verified = true;
    sender_ed_pub = 7 ∷ [];
    sender_x25519_pub = 8 ∷ [];
  });
  pqxdh_respond = λ fields ik spk opk kyber. some (1 ∷ []);
}

abbrev pub clock : TimeEnv
clock = record {
  utf8 = λ s. [];
  verify = λ input sig key. some true;
  time_signing_pub_hex = 48 ∷ 49 ∷ [];
  local_now_secs = 1000;
}

abbrev pub env : Env
env = record {
  now = 1000;
  now_ms = 1000000;
  codec = codec_of (text_content "hello" 999 none) (proto_envelope (1 ∷ []) (2 ∷ []) none);
  crypto = crypto;
  contact = record {
    server_pow = none;
    fetch_key_bundle = λ id pow. none;
    verify_bundle = λ key response. none;
    pqxdh_initiate = λ priv bundle. none;
    ratchet_init_alice = λ shared spk. none;
    kt_signing_pub_hex = [];
  };
  time = clock;
  sync = record {
    aes_encrypt = λ key bytes. bytes;
    aes_decrypt = λ key bytes. some bytes;
    stringify = λ r. [];
    parse = λ bytes. none;
    random_id = 48 ∷ [];
  };
  files = record {
    unwrap_cek = λ wrapped eph priv. some wrapped;
    meta_key = λ cek. cek;
    gcm_decrypt = λ key bytes. some bytes;
  };
  btoa = λ b. b;
  atob = λ t. some t;
  json = λ meta. "{}";
  uuid = "0000";
  random = 1 ∷ [];
  delay_sample = 0;
  send = λ to content ttl. Reply.message_id "m9";
  ack = λ id. none;
  save = λ me. none;
}

abbrev pub ws : WsMessage
ws = record {
  message_id = "m1";
  content = 2 ∷ [];
  queued_at = 998;
  server_ts = some 999;
  server_ts_sig = some (48 ∷ 49 ∷ []);
}

abbrev pub bob_session : SessionRow
bob_session = record {
  session_id = "bob";
  peer_id = "bob";
  ratchet_state = 48 ∷ 49 ∷ [];
  pqxdh_init = none;
  created_at = 1;
  received_ok = some true;
}

-- what we sent bob
abbrev pub sent_row : MessageRow
sent_row = record {
  msg_id = "m0";
  session_id = "bob";
  content = "hi";
  timestamp = 900;
  status = MessageStatus.sent;
  direction = outbound;
  kind = some Kind.text;
  receipt_token = some (5 ∷ []);
  receipt_read_wanted = none;
  receipt_read_done = none;
  server_anchor = none;
  created_at = some 900000;
}

abbrev pub store : Store
store = record {
  contacts = ContactStore.add Table.empty "bob" (7 ∷ []) (8 ∷ []) accepted 1;
  sessions = Table.put Table.empty "bob" bob_session;
  messages = Table.put Table.empty "m0" sent_row;
  received = Table.empty;
  handshakes = Table.empty;
  outbox = [];
  outbox_next = 1;
  receipt_outbox = [];
  receipt_next = 1;
  flags = Table.put Table.empty "receipts_delivery" true;
  linked_devices = Table.empty;
  device_id = none;
}

abbrev pub device : Device
device = record {
  store = store;
  bundle = some alice;
  saved = some alice;
  key_server = record { spk = to_hex (5 ∷ []); spk_sig_ed = []; spk_sig_dil = []; opks = [] };
  cert_cache = none;
  session_token = some "token";
  clock = record { warning = false; drift_seconds = pos 0; notified = 0 };
  draining = false;
  flushing = false;
  upkeep_running = false;
  server_low = false;
  acks = [];
  posts = [];
  events = [];
}
