-- ===== src/Device.antt =====
-- The state of one device that the services share: the local database, the identity and the caches
-- of apps/web/src/services/messaging.ts, the session token of apps/web/src/store/auth.ts, and what
-- has left the device: acknowledgements, sends, and signals that are not awaited.
use privex.Prelude.{ℕ, String, Bool, Option, List, [], ◌∷◌, ◌++◌, nat_eq, string_eq, bytes_eq}
use privex.Crypto.Hex.{Bytes, Text}
use privex.Db.Rows.{Store, MessageRow}
use privex.Wire.{IdentityBundle}
use privex.TimeSync.{ClockStatus}

pub record SenderCert : Type 0 where
  pub cert : Bytes
  pub expires_at : ℕ

-- one POST /messages/send
pub record Post : Type 0 where
  pub peer_id : String
  pub content_b64 : Text
  pub ttl_seconds : Option ℕ

-- what is started and not awaited
pub data Event : Type 0 where
  message : String → Event
  contacts outbox prekey_upkeep reauthenticate background_sync : Event
  backup device_sync : MessageRow → Event

-- what the key server holds of us, in hexadecimal, as it was uploaded
pub record KeyServer : Type 0 where
  pub spk : Text
  pub spk_sig_ed : Text
  pub spk_sig_dil : Text
  pub opks : List (ℕ × Text)

pub record Device : Type 0 where
  pub store : Store
  pub open store use *
  -- the identity as it is cached, and as the last save left it
  pub bundle : Option IdentityBundle
  pub saved : Option IdentityBundle
  pub key_server : KeyServer
  pub cert_cache : Option SenderCert
  pub session_token : Option String
  -- the clock warning of time-sync.ts
  pub clock : ClockStatus
  -- the reentrancy guards of receipts.ts, outbox.ts and the prekey upkeep, and the latter's memory of
  -- a signal
  pub draining : Bool
  pub flushing : Bool
  pub upkeep_running : Bool
  pub server_low : Bool
  pub acks : List String
  pub posts : List Post
  pub events : List Event

-- the clock in milliseconds and what the network answers while one call runs
pub data Reply : Type 0 where
  message_id : String → Reply
  api_error : ℕ → Reply
  offline : Reply

pub data Fault : Type 0 where
  error : String → Fault
  api_error : ℕ → Fault
  offline locked_out : Fault

abbrev pub with_store : (Store → Store) → Device → Device
with_store f d = record d { store = f d.store }

abbrev pub emit : Event → Device → Device
emit e d = record d { events = d.events ++ e ∷ [] }
