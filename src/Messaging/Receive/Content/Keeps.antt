-- ===== src/Messaging/Receive/Content/Keeps.antt =====
-- What a decrypted message does to the contacts and the messages: only the writes that `Writes` names.
use privex.Prelude.{
  ℕ, String, ◌≡◌, true, ◌&&◌, ◌||◌, Option, none, some, arith, is_some, nat_eq, string_eq, bytes_eq,
}
use privex.Crypto.Hex.{Bytes}
use privex.Db.Table
use privex.Db.Table.{Table}
use privex.Db.Rows.{Kind, accepted, pending_inbound, pending_outbound, ReceiptType}
use privex.Db.Contacts as ContactStore
use privex.Wire.{DecodedContent, DecodedReceipt, DecodedText, FileFields, ReceiptRequestWire}
use privex.Files.{FileMeta}
use privex.Data.Contacts.{VerifiedBundle, accept_contact}
use privex.Receipts.{apply_incoming_receipt, queue_delivery_receipt, queue_receipt}
use privex.Device.{Device}
use privex.Exec.{modify}
use privex.Exec.Keeps.{
  Keeps, keeps_rules, Keeps-modify, Keeps-bind, Keeps-pure, Keeps-if, Keeps-catch,
}
use privex.Messaging
use privex.Messaging.{Env, on_store, signal, crypto_fault, notice, ack_delivered}
use privex.Messaging.Keeps.{
  Messages, OnTables, signal-Keeps, ack_delivered-Keeps, add_message-Keeps,
  note_undecryptable-Keeps,
}
use privex.Messaging.Send.{accept_contact_request, send_contact_accept}
use privex.Messaging.Send.Keeps.{send_contact_accept-Keeps}
use privex.Messaging.Receive.Context.{Delivery, id_of, sender_of}
use privex.Messaging.Receive.Content.{
  is_pending_outbound, is_accepted_prior, row_of, queue_delivered, store_message, store_file,
  visible, accept_by_message, on_hello, on_accept, on_receipt, on_message, route, routed,
  handle_content,
}

-- The writes that a delivery may make to the contacts and the messages, each of which keeps `R`.
pub record Writes (env : Env) (R : ContactStore.Contacts → Messages → Type 0) (x : Delivery)
    : Type 0 where
  pub start :
      (c : ContactStore.Contacts) (m : Messages) (v : VerifiedBundle)
      → R c m
      → R (ContactStore.add c v.user_id v.ik_ed25519 v.ik_x25519 pending_outbound env.now) m
  pub inbound :
      (c : ContactStore.Contacts) (m : Messages) (ed ix : Bytes)
      → R c m
      → R (ContactStore.add c (sender_of x) ed ix pending_inbound env.now) m
  pub accept :
      (c : ContactStore.Contacts) (m : Messages)
      → is_pending_outbound x.prior_status ≡ true
      → R c m
      → R (ContactStore.set_status c (sender_of x) accepted) m
  pub noted :
      (c : ContactStore.Contacts) (m : Messages)
      → R c m
      → R c (Table.put m (id_of x) (notice env (sender_of x) (id_of x) x.time.anchor))
  pub stored :
      (c : ContactStore.Contacts) (m : Messages) (content : String) (kind : Kind) (sent_at : ℕ)
      (rr : Option ReceiptRequestWire)
      → R c m
      → R c (Table.put m (id_of x) (row_of env x content kind sent_at rr))
  pub receipt :
      (d : Device) (token : Bytes) (type : ReceiptType)
      → R d.contacts d.messages
      → R
          (apply_incoming_receipt (sender_of x) token type d).1.contacts
          (apply_incoming_receipt (sender_of x) token type d).1.messages

module _ (env : Env) {R : ContactStore.Contacts → Messages → Type 0} (x : Delivery)
    (w : Writes env R x) where
  pub acked : Keeps (OnTables R) (ack_delivered env (id_of x))
  acked = ack_delivered-Keeps env (id_of x)

  pub noted_Keeps :
      Keeps (OnTables R) (Messaging.note_undecryptable env (sender_of x) (id_of x) x.time.anchor)
  noted_Keeps = note_undecryptable-Keeps env _ _ _ (λ c m a. w.noted c m)

  accepts :
      is_pending_outbound x.prior_status ≡ true
      → Keeps (OnTables R) (modify (accept_contact (sender_of x)))
  unfolding accept_contact
  accepts p = Keeps-modify _ (λ d h. record { holds = w.accept d.contacts d.messages p h.holds })

  queued :
      (token : Bytes) (now sample : ℕ)
      → Keeps (OnTables R) (modify (queue_delivery_receipt (sender_of x) token now sample))
  unfolding queue_delivery_receipt queue_receipt
  queued token now sample = Keeps-modify _ (λ d h. record { holds = ground (arith, h.holds) })

  queue_delivered-Keeps :
      (rr : Option ReceiptRequestWire) → Keeps (OnTables R) (queue_delivered env x rr)
  unfolding queue_delivered
  queue_delivered-Keeps none = Keeps-pure tt
  queue_delivered-Keeps (some rr) = search (keeps_rules, queued)

  store_message-Keeps :
      (content : String) (kind : Kind) (sent_at : ℕ) (rr : Option ReceiptRequestWire)
      → Keeps (OnTables R) (store_message env x content kind sent_at rr)
  unfolding store_message row_of
  store_message-Keeps content kind sent_at rr =
      Keeps-bind _ _
        (add_message-Keeps env (row_of env x content kind sent_at rr)
          (λ c m a. w.stored c m content kind sent_at rr))
        λ _. Keeps-bind _ _ (signal-Keeps env _) λ _.
          Keeps-bind _ _ (queue_delivered-Keeps rr)
            λ _. Keeps-bind _ _ acked λ _. signal-Keeps env _

  store_file-Keeps :
      (f : FileFields) (rr : Option ReceiptRequestWire) (o : Option FileMeta)
      → Keeps (OnTables R) (store_file env x f rr o)
  unfolding store_file
  store_file-Keeps f rr none = Keeps-bind _ _ noted_Keeps λ _. acked
  store_file-Keeps f rr (some meta) = store_message-Keeps _ _ _ rr

  visible-Keeps :
      (f : Option FileFields) (t : Option DecodedText) (rr : Option ReceiptRequestWire)
      → Keeps (OnTables R) (visible env x f t rr)
  unfolding visible
  visible-Keeps (some f) t rr = store_file-Keeps f rr _
  visible-Keeps none (some t) rr = store_message-Keeps _ _ _ rr
  visible-Keeps none none rr = acked

  on_message-Keeps : (c : DecodedContent) → Keeps (OnTables R) (on_message env x c)
  unfolding on_message accept_by_message
  on_message-Keeps c =
      Keeps-bind _ _
        (Keeps-if
          ((is_some c.file || is_some c.text) && is_pending_outbound x.prior_status && x.verified) _
          _ (λ p. accepts (ground arith)) (λ _. Keeps-pure tt))
        λ _. visible-Keeps c.file c.text c.receipt_request

  confirms : Keeps (OnTables R) (send_contact_accept env (sender_of x))
  confirms = send_contact_accept-Keeps env (λ c m a. w.start c m) (sender_of x)

  on_hello-Keeps : Keeps (OnTables R) (on_hello env x)
  unfolding on_hello accept_contact_request
  on_hello-Keeps =
      Keeps-bind _ _
        (Keeps-if (is_pending_outbound x.prior_status) _ _
          (λ p. Keeps-bind _ _ (accepts p) λ _. Keeps-catch tt _ confirms)
          (λ _.
            Keeps-if (is_accepted_prior x.prior_status && x.verified) _ _
              (λ _. Keeps-catch tt _ confirms) (λ _. Keeps-pure tt)))
        λ _. Keeps-bind _ _ acked λ _. signal-Keeps env _

  on_accept-Keeps : Keeps (OnTables R) (on_accept env x)
  unfolding on_accept
  on_accept-Keeps =
      Keeps-bind _ _
        (Keeps-if (is_pending_outbound x.prior_status) _ _ (λ p. accepts p) (λ _. Keeps-pure tt))
        λ _. Keeps-bind _ _ acked λ _. signal-Keeps env _

  on_receipt-Keeps : (r : DecodedReceipt) → Keeps (OnTables R) (on_receipt env x r)
  unfolding on_receipt
  on_receipt-Keeps r =
      Keeps-bind _ _
        (Keeps-modify _ (λ d h. record { holds = w.receipt d r.token_id r.receipt_type h.holds }))
        λ _. acked

  by_receipt-Keeps :
      (c : DecodedContent) (o : Option DecodedReceipt)
      → Keeps (OnTables R) (elim o [ some r ↦ on_receipt env x r | none ↦ on_message env x c ])
  by_receipt-Keeps c none = on_message-Keeps c
  by_receipt-Keeps c (some r) = on_receipt-Keeps r

  routed-Keeps : (o : Option DecodedContent) → Keeps (OnTables R) (routed env x o)
  unfolding routed route
  routed-Keeps none = Keeps-bind _ _ noted_Keeps λ _. acked
  routed-Keeps (some c) =
      Keeps-if c.contact_hello _ _ (λ _. on_hello-Keeps)
        (λ _.
          Keeps-if c.contact_accept _ _ (λ _. on_accept-Keeps) (λ _. by_receipt-Keeps c c.receipt))

  pub handle_content-Keeps : (bytes : Bytes) → Keeps (OnTables R) (handle_content env x bytes)
  unfolding handle_content
  handle_content-Keeps bytes = routed-Keeps _
