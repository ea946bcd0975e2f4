-- ===== src/Messaging/Receive/Safety.antt =====
-- What a delivery, whatever it holds, may do to the contacts.
use privex.Prelude.{
  ℕ, String, ◌≡◌, refl, sym, ◌∙◌, ◌≢◌, ◌⊎◌, inl, true, Option, none, some, arith, nat_eq, string_eq,
  bytes_eq,
}
use text.Mathlib.TextEquality.{eq_iff}
use privex.Crypto.Hex.{Bytes}
use privex.Db.Rows.{ContactStatus, accepted, pending_inbound, pending_outbound, blocked}
use privex.Db.Contacts as ContactStore
use privex.Db.Contacts.{status_of-add, status_of-set_status, status_of, final_status}
use privex.Receipts.Apply.{apply_incoming_receipt-contacts}
use privex.DeviceSync.{apply_sync_record}
use privex.Device.{Device}
use privex.Messaging.{Env}
use privex.Messaging.Receive.Context.{WsMessage}
use privex.Messaging.Receive.Content.{is_pending_outbound}
use privex.Messaging.Receive.Known.{receive_message-On}
use privex.Messaging.Receive.{receive_message}

-- No contact becomes accepted that we neither had accepted nor asked, and one that was blocked or
-- accepted stays so.
pub record IsContactSafe (old new : ContactStore.Contacts) : Type 0 where
  pub accepted_before :
      (j : String)
      → status_of new j ≡ some accepted
      → (status_of old j ≡ some accepted) ⊎ (status_of old j ≡ some pending_outbound)
  pub blocked_after : (j : String) → status_of old j ≡ some blocked → status_of new j ≡ some blocked
  pub accepted_after :
      (j : String) → status_of old j ≡ some accepted → status_of new j ≡ some accepted

is_pending_outbound_eq :
    (o : Option ContactStatus) → is_pending_outbound o ≡ true → o ≡ some pending_outbound
is_pending_outbound_eq none h = cc
is_pending_outbound_eq (some pending_outbound) h = refl
is_pending_outbound_eq (some accepted) h = cc
is_pending_outbound_eq (some pending_inbound) h = cc
is_pending_outbound_eq (some blocked) h = cc

-- an `add` that asks for less than acceptance
add-IsContactSafe :
    (old t : ContactStore.Contacts) (px_id : String) (ed ix : Bytes) (status : ContactStatus)
    (now : ℕ)
    → status ≢ accepted
    → IsContactSafe old t
    → IsContactSafe old (ContactStore.add t px_id ed ix status now)
add-IsContactSafe old t px_id ed ix status now ne h = record {
  accepted_before = λ j e.
      ground (arith, status_of-add t px_id ed ix status now j, eq_iff px_id j, h.accepted_before j);
  blocked_after = λ j e.
      ground (arith, status_of-add t px_id ed ix status now j, eq_iff px_id j, h.blocked_after j);
  accepted_after = λ j e.
      ground (arith, status_of-add t px_id ed ix status now j, eq_iff px_id j, h.accepted_after j);
}

accept-IsContactSafe :
    (old t : ContactStore.Contacts) (px_id : String)
    → status_of old px_id ≡ some pending_outbound
    → IsContactSafe old t
    → IsContactSafe old (ContactStore.set_status t px_id accepted)
accept-IsContactSafe old t px_id asked h = record {
  accepted_before = λ j e.
      ground (arith, status_of-set_status t px_id accepted j, eq_iff px_id j, h.accepted_before j);
  blocked_after = λ j e.
      ground (arith, status_of-set_status t px_id accepted j, eq_iff px_id j, h.blocked_after j);
  accepted_after = λ j e.
      ground (arith, status_of-set_status t px_id accepted j, eq_iff px_id j, h.accepted_after j);
}

-- Whatever a delivery holds and whether its handling returns or throws: no contact becomes accepted
-- that was not accepted or asked by us, and the blocked and the accepted ones stay so.
pub receive_message-IsContactSafe :
    (env : Env) (ws : WsMessage) (d : Device)
    → IsContactSafe d.contacts (receive_message env ws d).1.contacts
unfolding apply_sync_record
receive_message-IsContactSafe env ws d =
    (receive_message-On env {R = λ c m. IsContactSafe d.contacts c} ws d
      (record {
        accepted_before = λ j e. inl e;
        blocked_after = λ j e. e;
        accepted_after = λ j e. e;
      })
      (λ x k. record {
        start = λ c m v h. add-IsContactSafe d.contacts c _ _ _ pending_outbound _ (λ e. cc) h;
        inbound = λ c m ed ix h. add-IsContactSafe d.contacts c _ _ _ pending_inbound _ (λ e. cc) h;
        accept = λ c m p h.
            accept-IsContactSafe d.contacts c _ (sym k.prior ∙ is_pending_outbound_eq _ p) h;
        noted = λ c m h. h;
        stored = λ c m content kind sent_at rr h. h;
        receipt = λ e token type h. rw apply_incoming_receipt-contacts h;
      })
      (λ r now e h. h)).holds
