-- ===== src/HistoryRecords.antt =====
-- History records, of a backup or a device transfer (apps/web/src/services/history-records.ts).
pub mod Import
use privex.Prelude.{
  ℕ, ◌*◌, String, Bool, true, false, not, Option, none, some, List, [], ◌∷◌, ◌++◌, map,
  if◌then◌else◌, or_else, ◌==◌, nat_eq, string_eq, bytes_eq,
}
use mathlib.Core.Option
use privex.Crypto.Hex.{Bytes, Text, to_hex, from_hex}
use privex.Db.Table
use privex.Db.Rows.{
  ContactStatus, accepted, MessageStatus, Direction, Kind, MessageRow, ContactRow, Store,
}
use privex.Db.Contacts as ContactStore
use privex.Data.Contacts.{restore_contact, on_contacts}
use privex.Device.{Device, with_store}

pub record MsgRecord : Type 0 where
  pub msg_id : String
  pub peer_id : String
  pub direction : Direction
  pub kind : Kind
  pub content : String
  pub timestamp : ℕ
  pub status : MessageStatus
  pub created_at : Option ℕ

pub record ContactRecord : Type 0 where
  pub px_id : String
  pub name : String
  pub ik_ed25519 : Text
  pub ik_x25519 : Text
  pub verified : Option String
  pub status : Option ContactStatus

pub data HistoryRecord : Type 0 where
  message : MsgRecord → HistoryRecord
  contact : ContactRecord → HistoryRecord

abbrev hex_or_empty : Option Bytes → Text
hex_or_empty none = []
hex_or_empty (some b) = to_hex b

abbrev pub contact_record : ContactRow → ContactRecord
contact_record c = record {
  px_id = c.px_id;
  name = or_else c.display_name "";
  ik_ed25519 = hex_or_empty c.ik_ed25519_pub;
  ik_x25519 = hex_or_empty c.ik_x25519_pub;
  verified = c.verified_fingerprint;
  status = some (or_else c.status accepted);
}

unfoldable pub contact_record_for : Store → String → Option ContactRecord
contact_record_for s px_id = Option.map contact_record (Table.get s.contacts px_id)

abbrev pub message_record : MessageRow → MsgRecord
message_record r = record {
  msg_id = r.msg_id;
  peer_id = r.session_id;
  direction = r.direction;
  kind = or_else r.kind Kind.text;
  content = r.content;
  timestamp = r.timestamp;
  status = r.status;
  created_at = r.created_at;
}

contacts_of : Store → List (String × ContactRow) → List HistoryRecord
contacts_of s [] = []
contacts_of s ((k, c) ∷ rest) =
    let others = contacts_of s rest in
    elim (contact_record_for s c.px_id) [ none ↦ others | some r ↦ contact r ∷ others ]

unfoldable pub collect_local_records : Store → List HistoryRecord
unfolding contacts_of
collect_local_records s =
    map (λ (r : String × MessageRow). message (message_record r.1)) (Table.rows s.messages)
    ++ contacts_of s (Table.rows s.contacts)

abbrev bytes_or_empty : Text → Bytes
bytes_or_empty [] = []
bytes_or_empty (c ∷ t) = from_hex (c ∷ t)

abbrev pub name_contact : String → String → Device → Device
name_contact px_id name d =
    if name == "" then d else on_contacts (λ t. ContactStore.set_name t px_id name) d

abbrev pub verify_contact : String → Option String → Device → Device
verify_contact px_id none d = d
verify_contact px_id (some code) d =
    if code == "" then d else on_contacts (λ t. ContactStore.set_verified t px_id code) d

abbrev pub imported_row : MsgRecord → MessageRow
imported_row r = record {
  msg_id = r.msg_id;
  session_id = r.peer_id;
  content = r.content;
  timestamp = r.timestamp;
  status = r.status;
  direction = r.direction;
  kind = some r.kind;
  receipt_token = none;
  receipt_read_wanted = none;
  receipt_read_done = none;
  server_anchor = none;
  created_at = some (or_else r.created_at (r.timestamp * 1000));
}

-- a contact record without a status gets `legacy_status`
unfoldable pub import_record : HistoryRecord → ContactStatus → ℕ → Device → Device
import_record (contact r) legacy_status now d = verify_contact r.px_id r.verified (
    name_contact r.px_id r.name (
      restore_contact r.px_id (bytes_or_empty r.ik_ed25519) (bytes_or_empty r.ik_x25519)
        (or_else r.status legacy_status) now d))
import_record (message r) legacy_status now d =
    with_store (λ s. record s { messages = Table.put s.messages r.msg_id (imported_row r) }) d
