-- ===== src/Receipts.antt =====
-- Delivery and read receipts (apps/web/src/services/receipts.ts). Times are whole milliseconds; the
-- sample of the privacy delay is the argument `sample`, and the fresh token of a request `random`.
pub mod Queue
pub mod Apply
use privex.Prelude.{
  ℕ, ◌+◌, min, max, String, Bool, true, false, not, ◌&&◌, ◌||◌, Option, none, some, List, [], ◌∷◌,
  ◌++◌, leb, if◌then◌else◌, or_else, filter, any, ◌==◌, nat_eq, string_eq, bytes_eq,
}
use privex.Crypto.Hex.{Bytes, Text, to_hex, from_hex}
use privex.Db.Table
use privex.Db.Table.{Table}
use privex.Db.Rows.{
  MessageStatus, MessageRow, Direction, inbound, outbound, ReceiptRow, ReceiptType,
  receipt_type_beq, is_accepted,
}
use privex.Wire.{ReceiptRequestWire}
use privex.Device.{Device, Event, Fault, with_store, emit}
use privex.Exec.{Exec, Done, Outcome, done, thrown}
use privex.Data.Contacts.{contact_status}

abbrev pub delivery_key : String
delivery_key = "receipts_delivery"

abbrev pub read_key : String
read_key = "receipts_read"

abbrev pub delay_key : String
delay_key = "receipts_privacy_delay"

unfoldable pub flag : Device → String → Bool → Bool
flag d key dflt = or_else (Table.get d.flags key) dflt

abbrev pub delivery_receipts_enabled : Device → Bool
delivery_receipts_enabled d = flag d delivery_key false

abbrev pub read_receipts_enabled : Device → Bool
read_receipts_enabled d = flag d read_key false

abbrev pub receipt_privacy_delay_enabled : Device → Bool
receipt_privacy_delay_enabled d = flag d delay_key false

abbrev pub privacy_delay_max_ms : ℕ
privacy_delay_max_ms = 1200000

abbrev pub min_receipt_delay_ms : ℕ
min_receipt_delay_ms = 5000

pub record ReceiptRequest : Type 0 where
  pub wire : ReceiptRequestWire
  pub token : Bytes

unfoldable pub build_receipt_request : Device → Bytes → Option ReceiptRequest
build_receipt_request d random =
    if not (delivery_receipts_enabled d) && not (read_receipts_enabled d)
    then none
    else some (record {
      wire = record {
        token_id = random;
        request_delivery = delivery_receipts_enabled d;
        request_read = read_receipts_enabled d;
      };
      token = random;
    })

-- the rows of one token and type
abbrev pub same_receipt : Text → ReceiptType → ReceiptRow → Bool
same_receipt token type r = r.token_hex == token && receipt_type_beq r.receipt_type type

extra_delay : Device → ℕ → ℕ
extra_delay d sample =
    if receipt_privacy_delay_enabled d then min sample privacy_delay_max_ms else 0

-- `receipt_outbox.add`: the key is the next number
add_receipt : String → Text → ReceiptType → ℕ → ℕ → Device → Device
add_receipt to token type now delay = with_store λ s. record s {
  receipt_outbox =
      s.receipt_outbox
      ++ record {
        id = s.receipt_next;
        to = to;
        token_hex = token;
        receipt_type = type;
        queued_at = now;
        not_before = now + max min_receipt_delay_ms delay;
      }
        ∷ [];
  receipt_next = s.receipt_next + 1;
}

unfoldable pub queue_receipt : String → Bytes → ReceiptType → ℕ → ℕ → Device → Device
unfolding extra_delay add_receipt
queue_receipt to token_id type now sample d =
    if is_accepted (contact_status d to)
    then if any (same_receipt (to_hex token_id) type) d.receipt_outbox
      then d
      else add_receipt to (to_hex token_id) type now (extra_delay d sample) d
    else d

unfoldable pub queue_delivery_receipt : String → Bytes → ℕ → ℕ → Device → Device
queue_delivery_receipt sender_id token_id now sample d =
    if delivery_receipts_enabled d
    then queue_receipt sender_id token_id ReceiptType.delivered now sample d
    else d

abbrev is_inbound : Direction → Bool
is_inbound inbound = true
is_inbound outbound = false

abbrev pub is_outbound : Direction → Bool
is_outbound inbound = false
is_outbound outbound = true

-- the token of a row, if it has one that is not empty
abbrev wanted_token : Option Bytes → Option Bytes
wanted_token none = none
wanted_token (some []) = none
wanted_token (some (b ∷ bs)) = some (b ∷ bs)

mark_read_done : String → Device → Device
mark_read_done msg_id = with_store λ s. record s {
  messages =
      Table.update s.messages msg_id
        (λ (m : MessageRow). record m { receipt_read_done = some true });
}

-- the message as the chat shows it, and not as it stands in the database by now
unfoldable pub queue_read_receipt : MessageRow → ℕ → ℕ → Device → Device
unfolding mark_read_done
queue_read_receipt msg now sample d =
    if is_inbound msg.direction
      && or_else msg.receipt_read_wanted false
      && not (or_else msg.receipt_read_done false)
    then elim (wanted_token msg.receipt_token) [
      | none ↦ d
      | some token ↦
          if read_receipts_enabled d
          then queue_receipt msg.session_id token ReceiptType.read now sample
              (mark_read_done msg.msg_id d)
          else d
    ]
    else d

abbrev pub SendReceipt : Type 0
SendReceipt = String → Bytes → ReceiptType → Exec Done

unfoldable pub drop_receipt : ReceiptRow → Device → Device
drop_receipt r =
    with_store λ s. record s { receipt_outbox = filter (λ q. not (q.id == r.id)) s.receipt_outbox }

-- 429 and the server's errors are retried at the next tick
abbrev pub retry_later : Fault → Bool
retry_later (Fault.api_error status) = status == 429 || leb 500 status
retry_later _ = false

-- one round of the loop; `true` stops it
abbrev settle_receipt : ReceiptRow → Outcome Done × Device → Bool × Device
settle_receipt r (done _, d) = (false, drop_receipt r d)
settle_receipt r (thrown f, d) = if retry_later f then (true, d) else (false, drop_receipt r d)

drain_one : SendReceipt → ReceiptRow → Device → Bool × Device
drain_one send r d =
    if is_accepted (contact_status d r.to)
    then settle_receipt r (send r.to (from_hex r.token_hex) r.receipt_type d)
    else (false, drop_receipt r d)

unfoldable pub drain_loop : SendReceipt → List ReceiptRow → Device → Device
unfolding drain_one
drain_loop send [] d = d
drain_loop send (r ∷ rs) d =
    let (stop, d') = drain_one send r d in
    let rest = drain_loop send rs d' in if stop then d' else rest

abbrev pub is_due : ℕ → ReceiptRow → Bool
is_due now r = leb r.not_before now

unfoldable pub drain_receipts : SendReceipt → ℕ → Device → Device
drain_receipts send now d =
    if d.draining
    then d
    else record (drain_loop send (filter (is_due now) d.receipt_outbox)
        (record d { draining = true })) { draining = false }

-- STATUS_RANK, 0 for a status that it does not name
abbrev pub rank : MessageStatus → ℕ
rank MessageStatus.delivered = 1
rank MessageStatus.read = 2
rank _ = 0

abbrev pub receipt_status : ReceiptType → MessageStatus
receipt_status ReceiptType.delivered = MessageStatus.delivered
receipt_status ReceiptType.read = MessageStatus.read

abbrev pub has_token : Text → Option Bytes → Bool
has_token token none = false
has_token token (some t) = to_hex t == token

-- the rows of one conversation that we sent with a token
abbrev pub matches : String → Text → MessageRow → Bool
matches sender_id token m =
    m.session_id == sender_id && is_outbound m.direction && has_token token m.receipt_token

abbrev receipt_enabled : ReceiptType → Device → Bool
receipt_enabled ReceiptType.read d = read_receipts_enabled d
receipt_enabled ReceiptType.delivered d = delivery_receipts_enabled d

set_message_status : String → MessageStatus → Device → Device
set_message_status msg_id status = with_store λ s. record s {
  messages = Table.update s.messages msg_id (λ (m : MessageRow). record m { status = status });
}

upgrade : Option (String × MessageRow) → String → ReceiptType → Device → Bool × Device
unfolding set_message_status
upgrade none sender_id type d = (false, d)
upgrade (some (msg_id, m)) sender_id type d =
    if leb (rank (receipt_status type)) (rank m.status)
    then (true, d)
    else (true, emit (Event.message sender_id) (set_message_status msg_id (receipt_status type) d))

unfoldable pub apply_incoming_receipt : String → Bytes → ReceiptType → Device → Bool × Device
unfolding upgrade
apply_incoming_receipt sender_id token_id type d =
    if receipt_enabled type d
    then upgrade (Table.find_row (matches sender_id (to_hex token_id)) (Table.rows d.messages))
        sender_id type d
    else (false, d)
