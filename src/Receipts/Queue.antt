-- ===== src/Receipts/Queue.antt =====
-- What `queue_receipt` adds to the queue, and when.
use privex.Prelude.{
  ℕ, ◌+◌, ◌≤◌, max, String, ◌≡◌, refl, ◌⊎◌, inl, inr, true, false, some, List, [], ◌∷◌, ◌++◌, arith,
  Bool-cases, any, list_beq_iff, nat_eq, string_eq, bytes_eq,
}
use privex.Crypto.Hex.{Bytes, Text, to_hex}
use privex.Db.Rows.{ReceiptRow, ReceiptType, accepted, is_accepted}
use privex.Device.{Device}
use privex.Data.Contacts.{contact_status}
use privex.Receipts.{same_receipt, queue_receipt, extra_delay, min_receipt_delay_ms}

-- The receipt that is queued: for the accepted contact that asked, new, not before five seconds
-- from now and at the latest twenty minutes from now.
pub record IsQueued (to : String) (token : Text) (type : ReceiptType) (now : ℕ) (d : Device)
    (r : ReceiptRow) : Type 0 where
  pub is_to : r.to ≡ to
  pub is_token : r.token_hex ≡ token
  pub is_type : r.receipt_type ≡ type
  pub to_accepted : contact_status d to ≡ some accepted
  pub is_new : any (same_receipt token type) d.receipt_outbox ≡ false
  pub floor : now + 5000 ≤ r.not_before
  pub cap : r.not_before ≤ now + 1200000

accepted_of :
    (d : Device) (to : String)
    → is_accepted (contact_status d to) ≡ true
    → contact_status d to ≡ some accepted
accepted_of d to h = ground arith

-- Queueing a receipt either changes nothing, because the contact is not accepted or the receipt is
-- queued already, or appends one row as above and keeps the rows before it.
pub queue_receipt-IsQueued :
    (to : String) (token_id : Bytes) (type : ReceiptType) (now sample : ℕ) (d : Device)
    → ((queue_receipt to token_id type now sample d ≡ d)
        × ((is_accepted (contact_status d to) ≡ false)
            ⊎ (any (same_receipt (to_hex token_id) type) d.receipt_outbox ≡ true)))
      ⊎ ((r : ReceiptRow) × IsQueued to (to_hex token_id) type now d r
          × ((queue_receipt to token_id type now sample d).receipt_outbox
              ≡ d.receipt_outbox ++ r ∷ []))
unfolding queue_receipt
queue_receipt-IsQueued to token_id type now sample d =
    elim (Bool-cases (is_accepted (contact_status d to))) [
      | inr q ↦ inl (rw q refl, inl q)
      | inl q ↦ elim (Bool-cases (any (same_receipt (to_hex token_id) type) d.receipt_outbox)) [
        | inl dup ↦ inl (rw (q, dup) refl, inr dup)
        | inr new ↦ inr (
          record {
            id = d.receipt_next;
            to = to;
            token_hex = to_hex token_id;
            receipt_type = type;
            queued_at = now;
            not_before = now + max min_receipt_delay_ms (extra_delay d sample);
          },
          record {
            is_to = refl;
            is_token = refl;
            is_type = refl;
            to_accepted = accepted_of d to q;
            is_new = new;
            floor = omega arith;
            cap = ground arith;
          },
          rw (q, new) refl,
        )
      ]
    ]

-- At most one row for each token and type.
abbrev pub Distinct : List ReceiptRow → Type 0
Distinct [] = Unit
Distinct (r ∷ rs) = (any (same_receipt r.token_hex r.receipt_type) rs ≡ false) × Distinct rs

same_receipt_sym :
    (q r : ReceiptRow)
    → same_receipt q.token_hex q.receipt_type r ≡ false
    → same_receipt r.token_hex r.receipt_type q ≡ false
same_receipt_sym q r h =
    ground (arith, list_beq_iff r.token_hex q.token_hex, list_beq_iff q.token_hex r.token_hex)

any-snoc :
    (token : Text) (type : ReceiptType) (rs : List ReceiptRow) (r : ReceiptRow)
    → any (same_receipt token type) rs ≡ false
    → same_receipt token type r ≡ false
    → any (same_receipt token type) (rs ++ r ∷ []) ≡ false
any-snoc token type [] r h k = ground arith
any-snoc token type (q ∷ rs) r h k = ground (arith, any-snoc token type rs r)

Distinct-snoc :
    (rs : List ReceiptRow) (r : ReceiptRow)
    → Distinct rs
    → any (same_receipt r.token_hex r.receipt_type) rs ≡ false
    → Distinct (rs ++ r ∷ [])
Distinct-snoc [] r h k = (refl, tt)
Distinct-snoc (q ∷ rs) r (h, hs) k = (
  any-snoc q.token_hex q.receipt_type rs r h (same_receipt_sym r q (ground arith)),
  Distinct-snoc rs r hs (ground arith),
)

-- A redelivery or a second view never queues the same receipt twice.
pub queue_receipt-Distinct :
    (to : String) (token_id : Bytes) (type : ReceiptType) (now sample : ℕ) (d : Device)
    → Distinct d.receipt_outbox
    → Distinct (queue_receipt to token_id type now sample d).receipt_outbox
queue_receipt-Distinct to token_id type now sample d h =
    elim (queue_receipt-IsQueued to token_id type now sample d) [
      | inl same ↦ rw same.0 h
      | inr (r, q, e) ↦
          rw e (Distinct-snoc d.receipt_outbox r h (rw q.is_token (rw q.is_type q.is_new)))
    ]
