-- ===== src/Receipts/Apply.antt =====
-- Laws of `applyIncomingReceipt` (apps/web/src/services/receipts.ts).
use privex.Prelude.{
  ◌<◌, ◌≢◌, list_beq_iff, String, ◌≡◌, refl, ◌⊎◌, inl, inr, true, Option, none, some, arith, leb,
  leb→lt, Bool-cases, ◌==◌, nat_eq, string_eq, bytes_eq, eq_of_beq,
}
use privex.Crypto.Hex.{Bytes, Text, to_hex}
use privex.Db.Table
use privex.Db.Table.{Table}
use privex.Db.Rows.{MessageRow, MessageStatus, Direction, inbound, outbound, ReceiptType}
use privex.Device.{Device}
use privex.Receipts.{
  matches, rank, receipt_status, apply_incoming_receipt, upgrade, receipt_enabled, is_outbound,
  has_token,
}

-- the statuses between which a receipt moves a message
pub data Raise : ReceiptType → MessageStatus → MessageStatus → Type 0 where
  delivers :
      (s : MessageStatus)
      → s ≢ MessageStatus.delivered
      → s ≢ MessageStatus.read
      → Raise ReceiptType.delivered s MessageStatus.delivered
  reads : (s : MessageStatus) → s ≢ MessageStatus.read → Raise ReceiptType.read s MessageStatus.read

-- a message that we sent to that peer with that token, of which only the status is raised
pub record IsRaised (sender_id : String) (token : Text) (type : ReceiptType) (m new : MessageRow)
    : Type 0 where
  pub session : m.session_id ≡ sender_id
  pub sent : m.direction ≡ outbound
  pub sent_token : (t : Bytes) × (m.receipt_token ≡ some t) × (to_hex t ≡ token)
  pub raise : Raise type m.status new.status
  pub rest : new ≡ record m { status = new.status }

-- How a receipt may change the message under one key: not at all, or by raising its status.
abbrev pub Upgrade : String → Text → ReceiptType → Option MessageRow → Option MessageRow → Type 0
Upgrade sender_id token type old new =
    (new ≡ old)
    ⊎ ((m : MessageRow) × (m' : MessageRow) × (old ≡ some m)
        × (new ≡ some m')
        × IsRaised sender_id token type m m')

not_of_rank : (s t : MessageStatus) → rank s < rank t → s ≢ t
not_of_rank s t h e = absurd (omega (arith, rw e at h))

ranked :
    (type : ReceiptType) (s : MessageStatus)
    → rank s < rank (receipt_status type)
    → Raise type s (receipt_status type)
ranked ReceiptType.delivered s h =
    delivers s (not_of_rank s _ h) (not_of_rank s MessageStatus.read (omega arith))
ranked ReceiptType.read s h = reads s (not_of_rank s _ h)

is_outbound-eq : (x : Direction) → is_outbound x ≡ true → x ≡ outbound
is_outbound-eq inbound h = absurd cc
is_outbound-eq outbound h = refl

has_token-eq :
    (token : Text) (o : Option Bytes)
    → has_token token o ≡ true
    → (t : Bytes) × (o ≡ some t) × (to_hex t ≡ token)
has_token-eq token none h = absurd cc
has_token-eq token (some t) h = (t, refl, (list_beq_iff (to_hex t) token).0 h)

matches-IsRaised :
    (sender_id : String) (token : Text) (type : ReceiptType) (m : MessageRow)
    → matches sender_id token m ≡ true
    → rank m.status < rank (receipt_status type)
    → IsRaised sender_id token type m (record m { status = receipt_status type })
matches-IsRaised sender_id token type m h lower = record {
  session = eq_of_beq m.session_id sender_id (ground arith);
  sent = is_outbound-eq m.direction (ground arith);
  sent_token = has_token-eq token m.receipt_token (ground arith);
  raise = ranked type m.status lower;
  rest = refl;
}

upgrade-Upgrade :
    (row : Option (String × MessageRow)) (sender_id : String) (token : Text) (type : ReceiptType)
    (d : Device) (k : String)
    → Table.find_row (matches sender_id token) (Table.rows d.messages) ≡ row
    → Upgrade sender_id token type
        (Table.get d.messages k)
        (Table.get (upgrade row sender_id type d).1.messages k)
unfolding upgrade
upgrade-Upgrade none sender_id token type d k h = inl refl
upgrade-Upgrade (some (i, m)) sender_id token type d k h =
    let found : (Table.get d.messages i ≡ some m) × (matches sender_id token m ≡ true) =
      Table.find_row-get (matches sender_id token) d.messages i m h in
    elim (Bool-cases (leb (rank (receipt_status type)) (rank m.status))) [
      | inl q ↦ inl (rw q refl)
      | inr q ↦ elim (Bool-cases (i == k)) [
        | inl e ↦ inr (
          m,
          record m { status = receipt_status type },
          rw (← eq_of_beq i k e) found.0,
          rw q (rw Table.get-update (rw e (rw found.0 refl))),
          matches-IsRaised sender_id token type m found.1 (leb→lt _ _ q),
        )
        | inr e ↦ inl (rw q (rw Table.get-update (rw e refl)))
      ]
    ]

-- Whatever receipt arrives, every message either stays as it is or, an outbound one of the
-- conversation with the receipt's sender with the receipt's token, changes its status only: to
-- delivered from a status that is neither delivered nor read, or to read from one that is not read.
pub apply_incoming_receipt-Upgrade :
    (sender_id : String) (token_id : Bytes) (type : ReceiptType) (d : Device) (k : String)
    → Upgrade sender_id
        (to_hex token_id)
        type
        (Table.get d.messages k)
        (Table.get (apply_incoming_receipt sender_id token_id type d).1.messages k)
unfolding apply_incoming_receipt
apply_incoming_receipt-Upgrade sender_id token_id type d k =
    elim (Bool-cases (receipt_enabled type d)) [
      | inl q ↦ rw q (upgrade-Upgrade _ sender_id (to_hex token_id) type d k refl)
      | inr q ↦ rw q (inl refl)
    ]

-- a receipt leaves the contacts alone
pub apply_incoming_receipt-contacts :
    (sender_id : String) (token : Bytes) (type : ReceiptType) (d : Device)
    → (apply_incoming_receipt sender_id token type d).1.contacts ≡ d.contacts
unfolding apply_incoming_receipt upgrade
apply_incoming_receipt-contacts sender_id token type d = ground arith

-- a receipt acknowledges nothing
pub apply_incoming_receipt-acks :
    (sender_id : String) (token : Bytes) (type : ReceiptType) (d : Device)
    → (apply_incoming_receipt sender_id token type d).1.acks ≡ d.acks
unfolding apply_incoming_receipt upgrade
apply_incoming_receipt-acks sender_id token type d = ground arith
