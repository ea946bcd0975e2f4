-- ===== src/Db/Rows.antt =====
-- The rows of the local database (apps/web/src/db/index.ts). The fields that the program stores under
-- AES-GCM (suffix `_enc`) are their plain values here: the cipher is the browser's.
use privex.Prelude.{ℕ, Bool, true, false, String, Option, some, List}
use privex.Crypto.Hex.{Bytes, Text}
use privex.Db.Table.{Table}

pub data ContactStatus : Type 0 where
  accepted pending_inbound pending_outbound blocked : ContactStatus

pub record ContactRow : Type 0 where
  pub px_id : String
  pub ik_ed25519_pub : Option Bytes
  pub ik_x25519_pub : Option Bytes
  pub display_name : Option String
  pub verified_fingerprint : Option String
  pub status : Option ContactStatus
  pub added_at : ℕ

-- the stash of the handshake that the first outbound message carries
pub record PqxdhInitStash : Type 0 where
  pub alice_ik_pub : Text
  pub alice_ek_pub : Text
  pub kyber_ciphertext : Text
  pub opk_id : Option ℕ
  pub opk_used : Bool

pub record SessionRow : Type 0 where
  pub session_id : String
  pub peer_id : String
  pub ratchet_state : Text
  pub pqxdh_init : Option PqxdhInitStash
  pub created_at : ℕ
  pub received_ok : Option Bool

pub data Direction : Type 0 where
  inbound outbound : Direction

pub data Kind : Type 0 where
  text file : Kind

pub data MessageStatus : Type 0 where
  sent queued delivered read failed : MessageStatus
  received received_unverified received_key_changed undecryptable : MessageStatus
  other : String → MessageStatus

pub record MessageRow : Type 0 where
  pub msg_id : String
  pub session_id : String
  pub content : String
  pub timestamp : ℕ
  pub status : MessageStatus
  pub direction : Direction
  pub kind : Option Kind
  pub receipt_token : Option Bytes
  pub receipt_read_wanted : Option Bool
  pub receipt_read_done : Option Bool
  pub server_anchor : Option ℕ
  pub created_at : Option ℕ

pub record OutboxRow : Type 0 where
  pub id : ℕ
  pub peer_id : String
  pub sealed_b64 : Text
  pub local_msg_id : String
  pub created_at : ℕ
  pub attempts : ℕ
  pub ttl_seconds : Option ℕ

pub data ReceiptType : Type 0 where
  delivered read : ReceiptType

pub record ReceiptRow : Type 0 where
  pub id : ℕ
  pub to : String
  pub token_hex : Text
  pub receipt_type : ReceiptType
  pub queued_at : ℕ
  pub not_before : ℕ

pub record LinkedDeviceRow : Type 0 where
  pub device_id : Text
  pub label : Text
  pub send_key : Bytes
  pub recv_key : Bytes
  pub linked_at : ℕ

abbrev pub is_accepted : Option ContactStatus → Bool
is_accepted (some accepted) = true
is_accepted _ = false

abbrev pub is_blocked : Option ContactStatus → Bool
is_blocked (some blocked) = true
is_blocked _ = false

abbrev pub receipt_type_beq : ReceiptType → ReceiptType → Bool
receipt_type_beq ReceiptType.delivered ReceiptType.delivered = true
receipt_type_beq ReceiptType.read ReceiptType.read = true
receipt_type_beq _ _ = false

-- Every object store that the message service touches. The two queues have auto-incremented keys, so
-- that they are lists in the order of insertion with the next key beside them.
pub record Store : Type 0 where
  pub contacts : Table String ContactRow
  pub sessions : Table String SessionRow
  pub messages : Table String MessageRow
  pub received : Table String ℕ
  pub handshakes : Table Text ℕ
  pub outbox : List OutboxRow
  pub outbox_next : ℕ
  pub receipt_outbox : List ReceiptRow
  pub receipt_next : ℕ
  pub flags : Table String Bool
  pub linked_devices : Table Text LinkedDeviceRow
  -- the setting `device_id`
  pub device_id : Option Text
