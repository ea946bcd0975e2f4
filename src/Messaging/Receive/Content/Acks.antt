-- ===== src/Messaging/Receive/Content/Acks.antt =====
-- A decrypted message is acknowledged once, or its handling throws.
use privex.Prelude.{
  ℕ, String, ◌&&◌, ◌||◌, Option, none, some, List, arith, is_some, nat_eq, string_eq, bytes_eq,
}
use privex.Crypto.Hex.{Bytes}
use privex.Db.Rows.{Kind}
use privex.Wire.{DecodedContent, DecodedReceipt, DecodedText, FileFields, ReceiptRequestWire}
use privex.Files.{FileMeta}
use privex.Data.Contacts.{accept_contact}
use privex.Receipts.{queue_delivery_receipt, queue_receipt}
use privex.Receipts.Apply.{apply_incoming_receipt-acks}
use privex.Exec.{Exec, Done, modify, catch, ◌>>=◌}
use privex.Exec.Keeps.{Keeps, Keeps-modify, Keeps-bind, Keeps-pure, Keeps-if, Keeps-catch}
use privex.Messaging.{Env, ack_delivered, note_undecryptable}
use privex.Messaging.Keeps.{signal-Keeps, add_message-Keeps, note_undecryptable-Keeps}
use privex.Messaging.Send.{send_contact_accept, accept_contact_request}
use privex.Messaging.Send.Keeps.{send_contact_accept-Keeps}
use privex.Messaging.Acks.{Quiet, Acks, Acks-if, Acks-bind, Acks-signal, ack_delivered-Acks}
use privex.Messaging.Receive.Context.{Delivery, id_of, sender_of}
use privex.Messaging.Receive.Content.{
  is_pending_outbound, is_accepted_prior, queue_delivered, store_message, store_file, visible,
  accept_by_message, on_hello, on_accept, on_receipt, on_message, route, routed, handle_content,
}

module _ (env : Env) (S : Type 0) (x : Delivery) where
  abbrev pub Once : Exec Done → Type 0
  Once m = Acks (λ d. Unit) (id_of x) S m

  -- what acknowledges nothing, then the rest
  pub and_then :
      {A : Type 0} (m : Exec A) (k : A → Exec Done)
      → ((a : List String) → Keeps (Quiet a) m)
      → ((v : A) → Once (k v))
      → Once (m >>= k)
  and_then m k = Acks-bind m k (record { at = λ d p. tt })

  pub acks : Once (ack_delivered env (id_of x))
  acks = ack_delivered-Acks env (id_of x)

  pub notes-Quiet :
      (a : List String)
      → Keeps (Quiet a) (note_undecryptable env (sender_of x) (id_of x) x.time.anchor)
  notes-Quiet a = note_undecryptable-Keeps env _ _ _ (λ c m b h. h)

  accepts-Quiet : (a : List String) → Keeps (Quiet a) (modify (accept_contact (sender_of x)))
  unfolding accept_contact
  accepts-Quiet a = Keeps-modify _ (λ d h. record { holds = h.holds })

  confirms-Quiet :
      (a : List String) → Keeps (Quiet a) (catch tt (send_contact_accept env (sender_of x)))
  confirms-Quiet a = Keeps-catch tt _ (send_contact_accept-Keeps env (λ c m b v h. h) (sender_of x))

  queue_delivered-Quiet :
      (rr : Option ReceiptRequestWire) (a : List String)
      → Keeps (Quiet a) (queue_delivered env x rr)
  unfolding queue_delivered queue_delivery_receipt queue_receipt
  queue_delivered-Quiet none a = Keeps-pure tt
  queue_delivered-Quiet (some rr) a =
      Keeps-if rr.request_delivery _ _
        (λ _. Keeps-modify _ (λ d h. record { holds = ground (arith, h.holds) }))
        (λ _. Keeps-pure tt)

  store_message-Acks :
      (content : String) (kind : Kind) (sent_at : ℕ) (rr : Option ReceiptRequestWire)
      → Once (store_message env x content kind sent_at rr)
  unfolding store_message
  store_message-Acks content kind sent_at rr =
      and_then _ _ (λ a. add_message-Keeps env _ (λ c m b h. h))
        λ _.
          and_then _ _ (λ a. signal-Keeps env _)
            λ _. and_then _ _ (queue_delivered-Quiet rr) λ _. Acks-signal _ _ acks

  store_file-Acks :
      (f : FileFields) (rr : Option ReceiptRequestWire) (o : Option FileMeta)
      → Once (store_file env x f rr o)
  unfolding store_file
  store_file-Acks f rr none = and_then _ _ notes-Quiet λ _. acks
  store_file-Acks f rr (some meta) = store_message-Acks _ _ _ rr

  visible-Acks :
      (f : Option FileFields) (t : Option DecodedText) (rr : Option ReceiptRequestWire)
      → Once (visible env x f t rr)
  unfolding visible
  visible-Acks (some f) t rr = store_file-Acks f rr _
  visible-Acks none (some t) rr = store_message-Acks _ _ _ rr
  visible-Acks none none rr = acks

  on_message-Acks : (c : DecodedContent) → Once (on_message env x c)
  unfolding on_message accept_by_message
  on_message-Acks c =
      and_then _ _
        (λ a.
          Keeps-if
            ((is_some c.file || is_some c.text) && is_pending_outbound x.prior_status && x.verified)
            _ _ (λ _. accepts-Quiet a) (λ _. Keeps-pure tt))
        λ _. visible-Acks c.file c.text c.receipt_request

  on_hello-Acks : Once (on_hello env x)
  unfolding on_hello accept_contact_request
  on_hello-Acks =
      and_then _ _
        (λ a.
          Keeps-if (is_pending_outbound x.prior_status) _ _
            (λ _. Keeps-bind _ _ (accepts-Quiet a) λ _. confirms-Quiet a)
            (λ _.
              Keeps-if (is_accepted_prior x.prior_status && x.verified) _ _ (λ _. confirms-Quiet a)
                (λ _. Keeps-pure tt)))
        λ _. Acks-signal _ _ acks

  on_accept-Acks : Once (on_accept env x)
  unfolding on_accept
  on_accept-Acks =
      and_then _ _
        (λ a.
          Keeps-if (is_pending_outbound x.prior_status) _ _ (λ _. accepts-Quiet a)
            (λ _. Keeps-pure tt))
        λ _. Acks-signal _ _ acks

  on_receipt-Acks : (r : DecodedReceipt) → Once (on_receipt env x r)
  unfolding on_receipt
  on_receipt-Acks r =
      and_then _ _
        (λ a. Keeps-modify _ (λ d h. record { holds = rw apply_incoming_receipt-acks h.holds }))
        λ _. acks

  by_receipt-Acks :
      (c : DecodedContent) (o : Option DecodedReceipt)
      → Once (elim o [ some r ↦ on_receipt env x r | none ↦ on_message env x c ])
  by_receipt-Acks c none = on_message-Acks c
  by_receipt-Acks c (some r) = on_receipt-Acks r

  routed-Acks : (o : Option DecodedContent) → Once (routed env x o)
  unfolding routed route
  routed-Acks none = and_then _ _ notes-Quiet λ _. acks
  routed-Acks (some c) =
      Acks-if c.contact_hello _ _ (λ _. on_hello-Acks)
        (λ _. Acks-if c.contact_accept _ _ (λ _. on_accept-Acks) (λ _. by_receipt-Acks c c.receipt))

  pub handle_content-Acks : (bytes : Bytes) → Once (handle_content env x bytes)
  unfolding handle_content
  handle_content-Acks bytes = routed-Acks _
