-- ===== src/Messaging/Receive/Context.antt =====
-- One delivery and what the stages of `receiveMessage` know of it.
use privex.Prelude.{
  ℕ, String, Bool, true, false, not, ◌&&◌, ◌||◌, Option, none, some, ltb, nat_beq, if◌then◌else◌,
  is_some, length, ◌==◌, nat_eq, string_eq, bytes_eq,
}
use Prim.Native.Char.{code}
use privex.Crypto.Hex.{Text, to_hex}
use privex.Db.Rows.{ContactStatus}
use privex.Wire.{IdentityBundle, SealedOpened, PqxdhInitWire, DecodedEnvelope}
use privex.TimeSync.{TimeVerifyResult, DeliveryTimeFields}
use privex.Data.Sessions.{LoadedSession}

pub record WsMessage : Type 0 where
  pub message_id : String
  pub content : Text
  pub queued_at : ℕ
  pub server_ts : Option ℕ
  pub server_ts_sig : Option Text

abbrev pub time_fields : WsMessage → DeliveryTimeFields
time_fields ws = record {
  message_id = ws.message_id;
  queued_at = ws.queued_at;
  server_ts = ws.server_ts;
  server_ts_sig = ws.server_ts_sig;
}

pub record Delivery : Type 0 where
  pub ws : WsMessage
  pub me : IdentityBundle
  pub time : TimeVerifyResult
  pub opened : SealedOpened
  pub envelope : DecodedEnvelope
  pub key_changed : Bool
  pub verified : Bool
  pub prior_status : Option ContactStatus

abbrev pub id_of : Delivery → String
id_of x = x.ws.message_id

abbrev pub sender_of : Delivery → String
sender_of x = x.opened.sender_id

-- `<` on texts: by code units, a proper prefix first (the ids are ASCII)
unfoldable pub str_lt : String → String → Bool
str_lt String.[] String.[] = false
str_lt String.[] (String.◌∷◌ d t) = true
str_lt (String.◌∷◌ c s) String.[] = false
str_lt (String.◌∷◌ c s) (String.◌∷◌ d t) =
    let rest = str_lt s t in if nat_beq (code c) (code d) then rest else ltb (code c) (code d)

-- The handshake belongs to the identity of the certificate: it verifies, matches the key that we
-- hold, and binds the X25519 key of the handshake. A message with no handshake passes.
bound_by : Delivery → Option PqxdhInitWire → Bool
bound_by x none = true
bound_by x (some pq) =
    x.verified
    && length x.opened.sender_x25519_pub == 32
    && to_hex x.opened.sender_x25519_pub == to_hex pq.alice_ik_pub

unfoldable pub bound : Delivery → Bool
unfolding bound_by
bound x = bound_by x x.envelope.pqxdh

-- a session with no handshake left to send
abbrev pub established : Option LoadedSession → Bool
established none = false
established (some s) = not (is_some s.pqxdh_init)

-- whether a handshake is adopted before the message is tried on the session at hand; a handshake that
-- is not may still be, if a session that has worked does not open the message
unfoldable pub adopts_at_once : Option LoadedSession → String → String → Bool
adopts_at_once existing sender_id user_id = not (established existing) || str_lt sender_id user_id
