-- ===== src/Messaging/Send.antt =====
-- Sending (apps/web/src/services/messaging.ts, from `sealAndSend`).
pub mod Keeps
pub mod Kept
pub mod Gate
pub mod Returns
use privex.Prelude.{
  ℕ, ◌-◌, String, Bool, not, ◌&&◌, Option, none, some, [], ◌∷◌, ◌++◌, ltb, if◌then◌else◌, or_else,
  is_some, ◌==◌, nat_eq, string_eq, bytes_eq,
}
use privex.Crypto.Hex.{Bytes, Text}
use privex.Db.Table
use privex.Db.Rows.{
  MessageStatus, MessageRow, Kind, outbound, ContactStatus, accepted, pending_inbound,
  pending_outbound, blocked, ReceiptType,
}
use privex.Db.Contacts as ContactStore
use privex.Db.Contacts.{PlainContact}
use privex.Wire
use privex.Envelope.{
  encode_envelope, encode_text, encode_contact_hello, encode_contact_accept, encode_receipt,
}
use privex.Data.Contacts.{accept_contact}
use privex.Data.Sessions.{LoadedSession, load_session, save_ratchet_state, clear_pqxdh_init}
use privex.Handshake.{start_session}
use privex.Outbox.{enqueue}
use privex.Receipts.{ReceiptRequest, build_receipt_request}
use privex.Device.{Device, Event, Fault, Reply}
use privex.Exec.{Exec, Done, pure, throw, gets, await, modify, catch, ◌>>=◌, ◌>>◌}
use privex.Messaging.{Env, crypto_fault, on_store, signal, my_bundle, my_cert, add_message}

abbrev pub default_ttl_seconds : ℕ
default_ttl_seconds = 2592000

-- the visible copy of a send; a control message has none
pub record LocalCopy : Type 0 where
  pub content : String
  pub kind : Kind
  pub receipt_token : Option Bytes

abbrev pub non_empty_key : Bytes → Option Bytes
non_empty_key [] = none
non_empty_key (b ∷ bs) = some (b ∷ bs)

abbrev pub recipient_key : Option PlainContact → Option Bytes
recipient_key none = none
recipient_key (some c) = non_empty_key c.ik_x25519

-- a visible message goes to an accepted contact only
pub check_status : ContactStatus → Exec Done
check_status accepted = pure tt
check_status pending_inbound =
    throw (Fault.error "Accept this contact's request before messaging them.")
check_status pending_outbound = throw (Fault.error "Waiting for them to accept your request.")
check_status blocked = throw (Fault.error "Unblock this contact to message them.")

check_visible : Option LocalCopy → Option PlainContact → Exec Done
unfolding check_status
check_visible none contact = pure tt
check_visible (some copy) none = pure tt
check_visible (some copy) (some c) = check_status c.status

-- a failed POST that is thrown; any other is parked
abbrev pub is_refused : ℕ → Bool
is_refused status = not (status == 401) && not (status == 429) && ltb status 500

module _ (env : Env) where
  abbrev pub or_start : String → Option LoadedSession → Exec (Option LoadedSession)
  or_start peer_id (some s) = pure (some s)
  or_start peer_id none = do
    start_session env.contact peer_id env.now
    gets (λ d. load_session d.sessions peer_id)

  -- the session, started afresh if there is none
  pub open_session : String → Exec LoadedSession
  open_session peer_id = do
    found ← gets (λ d. load_session d.sessions peer_id)
    session ← or_start peer_id found
    await (Fault.error "no session - add this contact first") session

  clear_stash : String → LoadedSession → Exec Done
  clear_stash peer_id s =
      if is_some s.pqxdh_init
      then on_store (λ st. record st { sessions = clear_pqxdh_init st.sessions peer_id })
      else pure tt

  -- without a token the call throws before it is made
  abbrev reply_of : Option String → String → Text → ℕ → Reply
  reply_of none peer_id sealed ttl = Reply.offline
  reply_of (some token) peer_id sealed ttl = env.send peer_id sealed (some ttl)

  abbrev local_id : Option LocalCopy → String
  local_id none = ""
  local_id (some copy) = env.uuid

  pub park : String → Text → Option LocalCopy → ℕ → Exec Done
  park peer_id sealed copy ttl =
      modify (enqueue peer_id sealed (local_id copy) (some ttl) env.now_ms)

  pub after_post : String → Text → Option LocalCopy → ℕ → Reply → Exec (String × MessageStatus)
  unfolding park
  after_post peer_id sealed copy ttl (Reply.message_id id) = pure (id, MessageStatus.sent)
  after_post peer_id sealed copy ttl (Reply.api_error status) =
      if is_refused status then throw (Fault.api_error status) else (do
        park peer_id sealed copy ttl
        if status == 401 then signal Event.reauthenticate else pure tt
        pure (env.uuid, MessageStatus.queued))
  after_post peer_id sealed copy ttl Reply.offline = do
    park peer_id sealed copy ttl
    pure (env.uuid, MessageStatus.queued)

  pub post : String → Text → Option LocalCopy → ℕ → Exec (String × MessageStatus)
  unfolding after_post
  post peer_id sealed copy ttl = do
    token ← gets (λ d. d.session_token)
    modify (λ (d : Device).
        if is_some token
        then record d {
          posts =
              d.posts
              ++ record { peer_id = peer_id; content_b64 = sealed; ttl_seconds = some ttl } ∷ [];
        }
        else d)
    after_post peer_id sealed copy ttl (reply_of token peer_id sealed ttl)

  abbrev pub copy_row : String → String → MessageStatus → LocalCopy → MessageRow
  copy_row peer_id msg_id status copy = record {
    msg_id = msg_id;
    session_id = peer_id;
    content = copy.content;
    timestamp = env.now;
    status = status;
    direction = outbound;
    kind = some copy.kind;
    receipt_token = copy.receipt_token;
    receipt_read_wanted = none;
    receipt_read_done = none;
    server_anchor = none;
    created_at = some env.now_ms;
  }

  pub keep_copy : String → String × MessageStatus → Option LocalCopy → Exec Done
  keep_copy peer_id (msg_id, status) none = pure tt
  keep_copy peer_id (msg_id, status) (some copy) = do
    let row = copy_row peer_id msg_id status copy
    add_message env row
    signal (Event.backup row)
    signal (Event.device_sync row)
    signal (Event.message peer_id)

  unfoldable pub seal_and_send : String → Bytes → Option LocalCopy → ℕ → Exec String
  unfolding check_visible open_session clear_stash post keep_copy
  seal_and_send peer_id content copy ttl = do
    me ← my_bundle env
    contact ← gets (λ d. ContactStore.get d.contacts peer_id)
    ik ← await (Fault.error "no recipient key - add this contact first") (recipient_key contact)
    check_visible copy contact
    session ← open_session peer_id
    enc ← await crypto_fault (env.crypto.ratchet_encrypt session.ratchet_state content)
    cert ← my_cert env me
    sealed ← await crypto_fault (
        env.crypto.sealed_sender_encrypt
          (encode_envelope env.codec enc.header enc.ciphertext session.pqxdh_init) cert ik)
    on_store (λ s. record s { sessions = save_ratchet_state s.sessions peer_id enc.new_state })
    clear_stash peer_id session
    sent ← post peer_id (env.btoa sealed) copy ttl
    keep_copy peer_id sent copy
    pure (sent.0)

  -- a control message: no copy, the default time to live
  unfoldable pub send_control : String → Bytes → Exec Done
  send_control peer_id content = do seal_and_send peer_id content none default_ttl_seconds; pure tt

  unfoldable pub send_contact_hello : String → Exec Done
  send_contact_hello peer_id = send_control peer_id (encode_contact_hello env.codec env.now)

  unfoldable pub send_contact_accept : String → Exec Done
  send_contact_accept peer_id = send_control peer_id (encode_contact_accept env.codec env.now)

  unfoldable pub accept_contact_request : String → Exec Done
  accept_contact_request peer_id = do
    modify (accept_contact peer_id)
    catch tt (send_contact_accept peer_id)

  unfoldable pub send_receipt : String → Bytes → ReceiptType → Exec Done
  send_receipt to token_id type = send_control to (encode_receipt env.codec token_id type)

  abbrev wire_of : Option ReceiptRequest → Option Wire.ReceiptRequestWire
  wire_of none = none
  wire_of (some r) = some r.wire

  abbrev token_of : Option ReceiptRequest → Option Bytes
  token_of none = none
  token_of (some r) = some r.token

  unfoldable pub send_message : String → String → Option ℕ → Exec String
  send_message peer_id plaintext ttl = do
    receipt ← gets (λ d. build_receipt_request d env.random)
    seal_and_send peer_id (encode_text env.codec plaintext env.now (wire_of receipt))
        (some (record { content = plaintext; kind = Kind.text; receipt_token = token_of receipt }))
        (or_else ttl default_ttl_seconds)
