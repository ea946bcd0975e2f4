-- ===== src/Messaging/Receive/Content.antt =====
-- What a decrypted message does (apps/web/src/services/messaging.ts, the end of `receiveMessage`).
pub mod Keeps
pub mod Acks
use privex.Prelude.{
  ℕ, zero, suc, String, Bool, true, false, ◌&&◌, ◌||◌, Option, none, some, if◌then◌else◌, is_some,
}
use privex.Crypto.Hex.{Bytes}
use privex.Db.Rows.{
  ContactStatus, accepted, pending_outbound, MessageStatus, MessageRow, Kind, inbound,
}
use privex.Wire.{DecodedText, FileFields, DecodedReceipt, DecodedContent, ReceiptRequestWire}
use privex.Envelope.{decode_content}
use privex.Files.{FileMeta, materialize_incoming}
use privex.Receipts.{apply_incoming_receipt, queue_delivery_receipt}
use privex.Data.Contacts.{accept_contact}
use privex.Device.{Event}
use privex.Exec.{Exec, Done, pure, modify, catch, ◌>>=◌, ◌>>◌}
use privex.Messaging.{Env, signal, ack_delivered, add_message, note_undecryptable}
use privex.Messaging.Send.{send_contact_accept, accept_contact_request}
use privex.Messaging.Receive.Context.{Delivery, id_of, sender_of}

abbrev pub is_pending_outbound : Option ContactStatus → Bool
is_pending_outbound (some pending_outbound) = true
is_pending_outbound _ = false

abbrev is_accepted_prior : Option ContactStatus → Bool
is_accepted_prior (some accepted) = true
is_accepted_prior _ = false

-- how far the sender of a message is trusted
abbrev pub label : Delivery → MessageStatus
label x =
    if x.key_changed
    then MessageStatus.received_key_changed
    else if x.verified
    then MessageStatus.received
    else MessageStatus.received_unverified

-- `a || b`, where 0 is false
abbrev pub or_zero : ℕ → ℕ → ℕ
or_zero zero b = b
or_zero (suc a) b = suc a

abbrev token_of : Option ReceiptRequestWire → Option Bytes
token_of none = none
token_of (some r) = some r.token_id

abbrev read_wanted : Option ReceiptRequestWire → Bool
read_wanted none = false
read_wanted (some r) = r.request_read

module _ (env : Env) where
  unfoldable pub row_of : Delivery → String → Kind → ℕ → Option ReceiptRequestWire → MessageRow
  row_of x content kind sent_at rr = record {
    msg_id = id_of x;
    session_id = sender_of x;
    content = content;
    timestamp = or_zero sent_at (or_zero x.ws.queued_at env.now);
    status = label x;
    direction = inbound;
    kind = some kind;
    receipt_token = token_of rr;
    receipt_read_wanted = some (read_wanted rr);
    receipt_read_done = some false;
    server_anchor = x.time.anchor;
    created_at = some env.now_ms;
  }

  queue_delivered : Delivery → Option ReceiptRequestWire → Exec Done
  queue_delivered x none = pure tt
  queue_delivered x (some rr) =
      if rr.request_delivery
      then modify (queue_delivery_receipt (sender_of x) rr.token_id env.now_ms env.delay_sample)
      else pure tt

  unfoldable pub store_message :
      Delivery → String → Kind → ℕ → Option ReceiptRequestWire → Exec Done
  unfolding queue_delivered
  store_message x content kind sent_at rr = do
    let row = row_of x content kind sent_at rr
    add_message env row
    signal (Event.backup row)
    queue_delivered x rr
    ack_delivered env (id_of x)
    signal (Event.message (sender_of x))

  store_file : Delivery → FileFields → Option ReceiptRequestWire → Option FileMeta → Exec Done
  store_file x f rr none = do
    note_undecryptable env (sender_of x) (id_of x) x.time.anchor
    ack_delivered env (id_of x)
  store_file x f rr (some meta) = store_message x (env.json meta) Kind.file f.sent_at rr

  visible :
      Delivery → Option FileFields → Option DecodedText → Option ReceiptRequestWire → Exec Done
  unfolding store_file
  visible x (some f) text rr =
      store_file x f rr (materialize_incoming env.files f x.me.identity.x25519_priv)
  visible x none (some t) rr = store_message x t.body Kind.text t.sent_at rr
  visible x none none rr = ack_delivered env (id_of x)

  -- a message from someone we still wait for is their accept
  accept_by_message : Delivery → Bool → Exec Done
  accept_by_message x some_message =
      if some_message && is_pending_outbound x.prior_status && x.verified
      then modify (accept_contact (sender_of x))
      else pure tt

  unfoldable pub on_hello : Delivery → Exec Done
  on_hello x = do
    (if is_pending_outbound x.prior_status
        then accept_contact_request env (sender_of x)
        else if is_accepted_prior x.prior_status && x.verified
        then catch tt (send_contact_accept env (sender_of x))
        else pure tt)
    ack_delivered env (id_of x)
    signal Event.contacts

  unfoldable pub on_accept : Delivery → Exec Done
  on_accept x = do
    (if is_pending_outbound x.prior_status then modify (accept_contact (sender_of x)) else pure tt)
    ack_delivered env (id_of x)
    signal Event.contacts

  on_receipt : Delivery → DecodedReceipt → Exec Done
  on_receipt x r = do
    modify (λ d. (apply_incoming_receipt (sender_of x) r.token_id r.receipt_type d).1)
    ack_delivered env (id_of x)

  unfoldable pub on_message : Delivery → DecodedContent → Exec Done
  unfolding visible accept_by_message
  on_message x c = do
    accept_by_message x (is_some c.file || is_some c.text)
    visible x c.file c.text c.receipt_request

  route : Delivery → DecodedContent → Exec Done
  unfolding on_receipt
  route x c =
      if c.contact_hello
      then on_hello x
      else if c.contact_accept
      then on_accept x
      else elim c.receipt [ some r ↦ on_receipt x r | none ↦ on_message x c ]

  routed : Delivery → Option DecodedContent → Exec Done
  unfolding route
  routed x none = do
    note_undecryptable env (sender_of x) (id_of x) x.time.anchor
    ack_delivered env (id_of x)
  routed x (some c) = route x c

  unfoldable pub handle_content : Delivery → Bytes → Exec Done
  unfolding routed
  handle_content x bytes = routed x (decode_content env.codec bytes)
