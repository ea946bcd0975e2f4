-- ===== src/HistoryRecords/Import.antt =====
-- What an import changes (apps/web/src/services/history-records.ts).
use privex.Prelude.{
  ◌≡◌, ◌≢◌, beq_refl, sym, refl, ap, eq_of_beq, ◌∙◌, ℕ, ◌*◌, String, Option, none, some, Bool-cases,
  inl, inr, or_else, if◌then◌else◌, ◌==◌, string_eq, nat_eq, bytes_eq,
}
use mathlib.Core.Option
use privex.Db.Table
use privex.Db.Table.{get-put, get-update}
use privex.Db.Rows.{
  accepted, blocked, pending_inbound, pending_outbound, ContactStatus, MessageRow, ContactRow, Kind,
}
use privex.Db.Contacts as ContactStore
use privex.Db.Contacts.{status_of, status_of-add, final_status, set_name, set_verified, prev_status}
use privex.Device.{Device}
use privex.Data.Contacts.{restore_contact}
use privex.HistoryRecords.{
  ContactRecord, contact, message, message_record, import_record, name_contact, verify_contact,
}

-- what a record carries of a message
abbrev pub portable : MessageRow → MessageRow
portable m = record m {
  kind = some (or_else m.kind Kind.text);
  receipt_token = none;
  receipt_read_wanted = none;
  receipt_read_done = none;
  server_anchor = none;
  created_at = some (or_else m.created_at (m.timestamp * 1000));
}

-- The import of an exported message puts it back under its id, with its conversation, text, times,
-- status, direction and kind and without its receipt state, and leaves every other message as it is.
pub import_record-message_record :
    (m : MessageRow) (legacy : ContactStatus) (now : ℕ) (d : Device) (j : String)
    → Table.get (import_record (message (message_record m)) legacy now d).messages j
      ≡ (if m.msg_id == j then some (portable m) else Table.get d.messages j)
unfolding import_record
import_record-message_record m legacy now d j = get-put d.messages m.msg_id _ j

kept_prev :
    (f : ContactRow → ContactRow)
    → ((r : ContactRow) → (f r).status ≡ r.status)
    → (o : Option ContactRow) → prev_status (Option.map f o) ≡ prev_status o
kept_prev f h none = refl
kept_prev f h (some r) = ap (λ s. some (or_else s accepted)) (h r)

-- an update that leaves the status
kept_status :
    (f : ContactRow → ContactRow)
    → ((r : ContactRow) → (f r).status ≡ r.status)
    → (t : ContactStore.Contacts) (k j : String) → status_of (Table.update t k f) j ≡ status_of t j
unfolding status_of
kept_status f h t k j = elim (Bool-cases (k == j)) [
  | inl q ↦
      rw (get-update, q)
        (kept_prev f h (Table.get t k) ∙ ap (λ i. prev_status (Table.get t i)) (eq_of_beq k j q))
  | inr q ↦ rw (get-update, q) refl
]

named_status :
    (px_id name : String) (d : Device) (j : String)
    → status_of (name_contact px_id name d).contacts j ≡ status_of d.contacts j
unfolding set_name
named_status px_id name d j = elim (Bool-cases (name == "")) [
  | inl q ↦ rw q refl
  | inr q ↦ rw q (kept_status _ (λ r. refl) d.contacts px_id j)
]

verified_status :
    (px_id : String) (code : Option String) (d : Device) (j : String)
    → status_of (verify_contact px_id code d).contacts j ≡ status_of d.contacts j
unfolding set_verified
verified_status px_id none d j = refl
verified_status px_id (some code) d j = elim (Bool-cases (code == "")) [
  | inl q ↦ rw q refl
  | inr q ↦ rw q (kept_status _ (λ r. refl) d.contacts px_id j)
]

-- the status of every contact after the import of a contact record
pub status_of-import_record :
    (r : ContactRecord) (legacy : ContactStatus) (now : ℕ) (d : Device) (j : String)
    → status_of (import_record (contact r) legacy now d).contacts j ≡ (
        if r.px_id == j
        then some (final_status (status_of d.contacts r.px_id) (or_else r.status legacy))
        else status_of d.contacts j)
unfolding import_record restore_contact
status_of-import_record r legacy now d j =
    verified_status r.px_id r.verified _ j
    ∙ named_status r.px_id r.name _ j
    ∙ status_of-add d.contacts r.px_id _ _ (or_else r.status legacy) now j

-- the status before, the status that the record or the default gives, the status after
pub data Settled : Option ContactStatus → ContactStatus → Option ContactStatus → Type 0 where
  stays_accepted : (given : ContactStatus) → Settled (some accepted) given (some accepted)
  stays_blocked : (given : ContactStatus) → Settled (some blocked) given (some blocked)
  is_new : (given : ContactStatus) → Settled none given (some given)
  was_inbound : (given : ContactStatus) → Settled (some pending_inbound) given (some given)
  was_outbound : (given : ContactStatus) → Settled (some pending_outbound) given (some given)

final_status-Settled :
    (old : Option ContactStatus) (given : ContactStatus)
    → Settled old given (some (final_status old given))
final_status-Settled none given = is_new given
final_status-Settled (some accepted) given = stays_accepted given
final_status-Settled (some blocked) given = stays_blocked given
final_status-Settled (some pending_inbound) given = was_inbound given
final_status-Settled (some pending_outbound) given = was_outbound given

own_status :
    (r : ContactRecord) (legacy : ContactStatus) (now : ℕ) (d : Device)
    → some (final_status (status_of d.contacts r.px_id) (or_else r.status legacy))
      ≡ status_of (import_record (contact r) legacy now d).contacts r.px_id
own_status r legacy now d =
    sym (status_of-import_record r legacy now d r.px_id ∙ rw (beq_refl r.px_id) refl)

-- The import of a contact record leaves an accepted contact accepted and a blocked one blocked, gives
-- a new or pending contact the status of the record, or the default if it has none, and leaves the
-- status of every other contact as it is.
pub import_record-Settled :
    (r : ContactRecord) (legacy : ContactStatus) (now : ℕ) (d : Device)
    → Settled
        (status_of d.contacts r.px_id)
        (or_else r.status legacy)
        (status_of (import_record (contact r) legacy now d).contacts r.px_id)
      × ((j : String)
          → r.px_id ≢ j
          → status_of (import_record (contact r) legacy now d).contacts j ≡ status_of d.contacts j)
import_record-Settled r legacy now d = (
  rw (← own_status r legacy now d) (final_status-Settled (status_of d.contacts r.px_id) _),
  λ j ne. elim (Bool-cases (r.px_id == j)) [
    | inl q ↦ absurd (ne (eq_of_beq r.px_id j q))
    | inr q ↦ status_of-import_record r legacy now d j ∙ rw q refl
  ],
)
