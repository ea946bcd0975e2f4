-- ===== src/Messaging/Receive/Labels.antt =====
-- Which messages are shown as coming from a verified sender.
use privex.Prelude.{
  String, ◌≡◌, refl, sym, ap, ◌∙◌, ◌≢◌, ◌⊎◌, inl, inr, true, false, some, arith, Bool-cases, ◌==◌,
  nat_eq, string_eq, bytes_eq, eq_of_beq,
}
use privex.Crypto.Hex.{Bytes}
use privex.Db.Table
use privex.Db.Table.{get-put}
use privex.Db.Rows.{MessageRow, MessageStatus, ReceiptType, received}
use privex.Wire.{SealedOpened}
use privex.Data.Contacts.{is_blocked_contact, is_key_changed}
use privex.Receipts.{apply_incoming_receipt}
use privex.Receipts.Apply.{Raise, delivers, reads, apply_incoming_receipt-Upgrade}
use privex.DeviceSync.{apply_sync_record}
use privex.Device.{Device}
use privex.Messaging.{Env}
use privex.Messaging.Keeps.{Messages}
use privex.Messaging.Receive.Context.{WsMessage, Delivery, sender_of, id_of}
use privex.Messaging.Receive.Content.{row_of, label}
use privex.Messaging.Receive.Known.{Opens, Known, receive_message-On}
use privex.Messaging.Receive.{receive_message}

-- The row of a delivery whose certificate verifies, names the conversation and somebody who is not a
-- blocked contact, and carries the key that we hold of that contact if we hold one.
pub record IsVerified (env : Env) (ws : WsMessage) (d : Device) (k : String) (m : MessageRow)
    : Type 0 where
  pub cert : SealedOpened
  pub opens : Opens env d ws cert
  pub key : k ≡ ws.message_id
  pub session : m.session_id ≡ cert.sender_id
  pub verified : cert.sender_verified ≡ true
  pub same_key : is_key_changed d cert.sender_id cert.sender_ed_pub ≡ false
  pub unblocked : is_blocked_contact d cert.sender_id ≡ false

-- Every message that shows as received from a verified sender was there before or is verified by the
-- delivery.
pub record AreLabelled (env : Env) (ws : WsMessage) (d : Device) (new : Messages) : Type 0 where
  pub labelled :
      (k : String) (m : MessageRow)
      → Table.get new k ≡ some m
      → m.status ≡ received
      → (Table.get d.messages k ≡ some m) ⊎ IsVerified env ws d k m

label_received : (x : Delivery) → label x ≡ received → (x.key_changed ≡ false) × (x.verified ≡ true)
label_received x h = ground arith

-- a row under another label
put-AreLabelled :
    (env : Env) (ws : WsMessage) (d : Device) (t : Messages) (id : String) (row : MessageRow)
    → (row.status ≡ received → IsVerified env ws d id row)
    → AreLabelled env ws d t
    → AreLabelled env ws d (Table.put t id row)
put-AreLabelled env ws d t id row v h = record {
  labelled = λ k m g e. elim (Bool-cases (id == k)) [
    | inl q ↦
        let same : row ≡ m = ground (arith, get-put t id row k) in
        inr (rw (← eq_of_beq id k q) (rw (← same) (v (rw same e))))
    | inr q ↦ h.labelled k m (ground (arith, get-put t id row k)) e
  ];
}

raised_not_received : (type : ReceiptType) (s t : MessageStatus) → Raise type s t → t ≢ received
raised_not_received type s t (delivers _ a b) e = cc
raised_not_received type s t (reads _ a) e = cc

receipt-AreLabelled :
    (env : Env) (ws : WsMessage) (d e : Device) (sender_id : String) (token : Bytes)
    (type : ReceiptType)
    → AreLabelled env ws d e.messages
    → AreLabelled env ws d (apply_incoming_receipt sender_id token type e).1.messages
receipt-AreLabelled env ws d e sender_id token type h = record {
  labelled = λ k m g l. elim (apply_incoming_receipt-Upgrade sender_id token type e k) [
    | inl same ↦ h.labelled k m (sym same ∙ g) l
    | inr (old, new, was, now, raised) ↦
        let same : new.status ≡ m.status = ground arith in
        absurd (raised_not_received type old.status new.status raised.raise (same ∙ l))
  ];
}

-- Whatever a delivery holds and whether its handling returns or throws: a message that shows as
-- received from a verified sender afterwards was there before, or is the delivery's own. Then the
-- delivery opens with our own identity key to a certificate that verifies at the time of the server's
-- stamp, or of the clock if there is none; it names the message's conversation, whose contact, if there
-- is one, is not blocked; and its key is the one that we hold of that contact, if we hold one.
pub receive_message-AreLabelled :
    (env : Env) (ws : WsMessage) (d : Device)
    → AreLabelled env ws d (receive_message env ws d).1.messages
unfolding apply_sync_record row_of
receive_message-AreLabelled env ws d =
    (receive_message-On env {R = λ c m. AreLabelled env ws d m} ws d
      (record { labelled = λ k m g e. inl g })
      (λ x k. record {
        start = λ c m v h. h;
        inbound = λ c m ed ix h. h;
        accept = λ c m p h. h;
        noted = λ c m h. put-AreLabelled env ws d m _ _ (λ e. absurd cc) h;
        stored = λ c m content kind sent_at rr h.
            put-AreLabelled env ws d m _ _ (λ e. verified_by x k _ e refl) h;
        receipt = λ e token type h. receipt-AreLabelled env ws d e _ token type h;
      })
      (λ r now e h. put-AreLabelled env ws d e.messages _ _ (λ e. absurd cc) h)).holds
  where
    verified_by :
        (x : Delivery)
        → Known env d ws x
        → (row : MessageRow) → label x ≡ received
        → row.session_id ≡ sender_of x
        → IsVerified env ws d (id_of x) row
    verified_by x k row e s =
        let (unchanged, ok) = label_received x e in
        record {
          cert = x.opened;
          opens = k.opens;
          key = ap (λ (w : WsMessage). w.message_id) k.ws_eq;
          session = s;
          verified = ground (arith, k.verified);
          same_key = sym k.changed ∙ unchanged;
          unblocked = k.unblocked;
        }
