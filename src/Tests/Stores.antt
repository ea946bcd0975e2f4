-- ===== src/Tests/Stores.antt =====
-- Contacts, sessions, receipts and the outbox, at one device.
use privex.Prelude.{
  ◌≡◌, refl, ◌⊎◌, true, false, none, some, [], ◌∷◌, any, All, nat_eq, string_eq, bytes_eq,
}
use privex.Crypto.Hex.{to_hex}
use privex.Db.Table
use privex.Db.Table.{get-put, get-empty}
use privex.Db.Rows.{ContactRow, accepted, blocked, ReceiptRow, ReceiptType, OutboxRow, is_accepted}
use privex.Db.Contacts as ContactStore
use privex.Db.Contacts.{status_of, status_of-add, status_of-set_status, when_known, final_status}
use privex.Device.{Device, Reply, with_store}
use privex.Exec.{done}
use privex.Outbox.{flush_outbox, Send}
use privex.Outbox.Flush.{SendOf, flush_outbox-SendOf}
use privex.Receipts.{apply_incoming_receipt, queue_receipt, same_receipt, SendReceipt}
use privex.Receipts.Apply.{Upgrade, apply_incoming_receipt-Upgrade}
use privex.Receipts.Queue.{IsQueued, queue_receipt-IsQueued}
use privex.Data.Contacts.{contact_status, restore_contact, remove_contact}
use privex.Data.Contacts.Laws.{IsPurged, blocked_sticky, remove_contact-IsPurged}
use privex.Tests.Demo

apply_incoming_receipt-Upgrade_example :
    Upgrade "bob" (to_hex (5 ∷ [])) ReceiptType.delivered (Table.get Demo.device.messages "m0") (
      Table.get
        (apply_incoming_receipt "bob" (5 ∷ []) ReceiptType.delivered Demo.device).1.messages
        "m0")
apply_incoming_receipt-Upgrade_example =
    apply_incoming_receipt-Upgrade "bob" (5 ∷ []) ReceiptType.delivered Demo.device "m0"

abbrev parked : OutboxRow
parked = record {
  id = 1;
  peer_id = "bob";
  sealed_b64 = 1 ∷ [];
  local_msg_id = "m0";
  created_at = 900000;
  attempts = 0;
  ttl_seconds = some 500;
}

abbrev parked_device : Device
parked_device = with_store (λ s. record s { outbox = parked ∷ [] }) Demo.device

abbrev online : Send
online to content ttl = Reply.message_id "m7"

flush_outbox-SendOf_example :
    All
      (SendOf (λ r. 1000000) parked_device)
      (flush_outbox online (λ r. 1000000) parked_device).posts
flush_outbox-SendOf_example = flush_outbox-SendOf online (λ r. 1000000) parked_device

remove_contact-IsPurged_example : IsPurged "bob" Demo.device (remove_contact "bob" Demo.device)
remove_contact-IsPurged_example = remove_contact-IsPurged "bob" Demo.device

queue_receipt-IsQueued_example :
    ((queue_receipt "bob" (5 ∷ []) ReceiptType.read 1000 0 Demo.device ≡ Demo.device)
      × ((is_accepted (contact_status Demo.device "bob") ≡ false)
          ⊎ (any (same_receipt (to_hex (5 ∷ [])) ReceiptType.read) [] ≡ true)))
    ⊎ ((r : ReceiptRow) × IsQueued "bob" (to_hex (5 ∷ [])) ReceiptType.read 1000 Demo.device r
        × ((queue_receipt "bob" (5 ∷ []) ReceiptType.read 1000 0 Demo.device).receipt_outbox
            ≡ r ∷ []))
queue_receipt-IsQueued_example =
    queue_receipt-IsQueued "bob" (5 ∷ []) ReceiptType.read 1000 0 Demo.device

abbrev due_receipt : ReceiptRow
due_receipt = record {
  id = 0;
  to = "bob";
  token_hex = 48 ∷ 53 ∷ [];
  receipt_type = ReceiptType.delivered;
  queued_at = 1;
  not_before = 5001;
}

abbrev receipt_device : Device
receipt_device = with_store (λ s. record s { receipt_outbox = due_receipt ∷ [] }) Demo.device

abbrev quiet_sender : SendReceipt
quiet_sender to token type d = (done tt, d)

-- nobody is a contact
abbrev lonely : Device
lonely = with_store (λ s. record s { contacts = Table.empty }) receipt_device

lonely_status : is_accepted (contact_status lonely "bob") ≡ false
unfolding status_of
lonely_status = rw get-empty refl

abbrev blocked_device : Device
blocked_device =
    with_store (λ s. record s { contacts = ContactStore.add Table.empty "bob" [] [] blocked 1 })
      Demo.device

bob_is_blocked : contact_status blocked_device "bob" ≡ some blocked
unfolding status_of
bob_is_blocked = rw status_of-add (rw get-empty refl)

blocked_sticky_example :
    contact_status (restore_contact "bob" [] [] accepted 2 blocked_device) "bob" ≡ some blocked
blocked_sticky_example = blocked_sticky "bob" "bob" [] [] accepted 2 blocked_device bob_is_blocked

abbrev bob_row : ContactRow
bob_row = record {
  px_id = "bob";
  ik_ed25519_pub = some (7 ∷ []);
  ik_x25519_pub = none;
  display_name = none;
  verified_fingerprint = none;
  status = some accepted;
  added_at = 1;
}

abbrev keyed_device : Device
keyed_device =
    with_store (λ s. record s { contacts = Table.put Table.empty "bob" bob_row }) Demo.device

status_of-set_status_example :
    status_of (ContactStore.set_status Demo.device.contacts "bob" blocked) "bob"
    ≡ when_known (status_of Demo.device.contacts "bob") blocked
status_of-set_status_example = status_of-set_status Demo.device.contacts "bob" blocked "bob"
