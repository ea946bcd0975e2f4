-- ===== src/Messaging.antt =====
-- The message service (apps/web/src/services/messaging.ts): what one call runs against, and the
-- actions that its parts share.
pub mod Send
pub mod Receive
pub mod Keeps
pub mod Acks
pub mod Bundle
use privex.Prelude.{
  ℕ, ◌+◌, ◌-◌, String, Bool, true, false, not, Option, none, some, List, [], ◌∷◌, ◌++◌, ltb, leb,
  if◌then◌else◌, or_else, ◌==◌, nat_eq, string_eq, bytes_eq,
}
use privex.Crypto.Hex.{Bytes, Text}
use privex.Db.Table
use privex.Db.Rows.{MessageStatus, MessageRow, Kind, inbound, Store}
use privex.Wire.{IdentityBundle, MessageCryptoApi}
use privex.TimeSync.{TimeEnv}
use privex.Envelope.Proto.{ProtoCodec}
use privex.Files.{FileCryptoApi, FileMeta}
use privex.DeviceSync.{SyncEnv}
use privex.Handshake.{ContactEnv}
use privex.Device.{Event, Fault, Reply, SenderCert, with_store, emit}
use privex.Exec.{Exec, Done, pure, throw, gets, await, modify, catch, ◌>>=◌, ◌>>◌}

-- The clocks, the random values, the crypto worker, the generated code and the network while one call
-- runs. `ack` and `save` give the
-- failure of an acknowledgement and of a save of the identity, if they fail.
pub record Env : Type 0 where
  pub now : ℕ
  pub now_ms : ℕ
  pub codec : ProtoCodec
  pub crypto : MessageCryptoApi
  pub contact : ContactEnv
  pub time : TimeEnv
  pub sync : SyncEnv
  pub files : FileCryptoApi
  pub btoa : Bytes → Text
  pub atob : Text → Option Bytes
  pub json : FileMeta → String
  pub uuid : String
  pub random : Bytes
  pub delay_sample : ℕ
  pub send : String → Text → Option ℕ → Reply
  pub ack : String → Option Fault
  pub save : IdentityBundle → Option Fault

abbrev pub cert_valid_seconds : ℕ
cert_valid_seconds = 86400

abbrev pub received_retention_secs : ℕ
received_retention_secs = 5270400

abbrev pub crypto_fault : Fault
crypto_fault = Fault.error "crypto"

abbrev pub on_store : (Store → Store) → Exec Done
on_store f = modify (with_store f)

abbrev pub signal : Event → Exec Done
signal e = modify (emit e)

module _ (env : Env) where
  -- the cached identity, or the stored one, which is then cached
  abbrev pub or_loaded : Option IdentityBundle → Exec IdentityBundle
  or_loaded (some me) = pure me
  or_loaded none = do
    stored ← gets (λ d. d.saved)
    me ← await (Fault.error "identity not loaded") stored
    modify (λ d. record d { bundle = some me })
    pure me

  unfoldable pub my_bundle : Exec IdentityBundle
  my_bundle = do cache ← gets (λ d. d.bundle); or_loaded cache

  stored_as : Option Fault → IdentityBundle → Exec Done
  stored_as none me = modify (λ d. record d { saved = some me })
  stored_as (some fault) me = throw fault

  unfoldable pub save_bundle : IdentityBundle → Exec Done
  unfolding stored_as
  save_bundle me = stored_as (env.save me) me

  -- the cached certificate, while it is valid for five more minutes
  unfoldable pub usable : Option SenderCert → Option Bytes
  usable none = none
  usable (some c) = if ltb env.now (c.expires_at - 300) then some c.cert else none

  abbrev pub cached_or : Option Bytes → Exec Bytes → Exec Bytes
  cached_or none make = make
  cached_or (some cert) make = pure cert

  unfoldable pub my_cert : IdentityBundle → Exec Bytes
  unfolding usable
  my_cert me = do
    cache ← gets (λ d. d.cert_cache)
    cached_or (usable cache) (do
      cert ←
          await crypto_fault
            (env.crypto.generate_sender_cert me.user_id me.identity env.now cert_valid_seconds)
      modify (λ d. record d {
        cert_cache = some (record { cert = cert; expires_at = env.now + cert_valid_seconds });
      })
      pure cert)

  unfoldable pub session_token : Exec String
  session_token = do
    token ← gets (λ d. d.session_token)
    await (Fault.error "not authenticated") token

  acknowledged : String → Option Fault → Exec Done
  acknowledged id none = modify (λ d. record d { acks = d.acks ++ id ∷ [] })
  acknowledged id (some fault) = throw fault

  -- api.ackMessages([id], token())
  unfoldable pub ack_message : String → Exec Done
  unfolding acknowledged session_token
  ack_message id = do token ← session_token; acknowledged id (env.ack id)

  unfoldable pub ack_delivered : String → Exec Done
  ack_delivered id = do
    on_store (λ s. record s { received = Table.put s.received id env.now })
    ack_message id

  -- `db.received.where("at").below(…).delete()`
  unfoldable pub prune_received : Exec Done
  prune_received = on_store λ s. record s {
    received = Table.delete_where (λ at. ltb (at + received_retention_secs) env.now) s.received;
  }

  -- seal a byte to ourselves and open it
  unfoldable pub crypto_engine_healthy : IdentityBundle → Exec Bool
  crypto_engine_healthy me = catch false (do
    cert ← my_cert me
    probe ←
        await crypto_fault (env.crypto.sealed_sender_encrypt (1 ∷ []) cert me.identity.x25519_pub)
    opened ←
        await crypto_fault (env.crypto.sealed_sender_decrypt probe me.identity.x25519_priv env.now)
    pure true)

  -- `EncryptedMessages.add`
  unfoldable pub add_message : MessageRow → Exec Done
  add_message row = on_store λ s. record s { messages = Table.put s.messages row.msg_id row }

  -- the newest row of a conversation by its creation time
  newest : String → Option MessageRow → List (String × MessageRow) → Option MessageRow
  newest peer_id best [] = best
  newest peer_id best ((k, m) ∷ rest) =
      newest peer_id
        (if m.session_id == peer_id
          then (elim best [
            | none ↦ some m
            | some b ↦
                if leb (or_else b.created_at 0) (or_else m.created_at 0) then some m else some b
          ])
          else best)
        rest

  abbrev is_notice : Option MessageRow → Bool
  is_notice none = false
  is_notice (some m) = elim m.status [ MessageStatus.undecryptable ↦ true | _ ↦ false ]

  abbrev pub notice : String → String → Option ℕ → MessageRow
  notice peer_id message_id anchor = record {
    msg_id = message_id;
    session_id = peer_id;
    content = "";
    timestamp = env.now;
    status = MessageStatus.undecryptable;
    direction = inbound;
    kind = some Kind.text;
    receipt_token = none;
    receipt_read_wanted = none;
    receipt_read_done = none;
    server_anchor = anchor;
    created_at = some env.now_ms;
  }

  unfoldable pub note_undecryptable : String → String → Option ℕ → Exec Done
  unfolding newest
  note_undecryptable peer_id message_id anchor = do
    last ← gets (λ d. newest peer_id none (Table.rows d.messages))
    if is_notice last
        then pure tt
        else do add_message (notice peer_id message_id anchor); signal (Event.message peer_id)
