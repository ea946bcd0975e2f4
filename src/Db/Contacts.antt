-- ===== src/Db/Contacts.antt =====
-- The contact store, `EncryptedContacts` of apps/web/src/db/encrypted-db.ts.
use privex.Prelude.{
  ℕ, ◌≡◌, Bool, true, false, String, Option, none, some, [], ◌∷◌, arith, ◌==◌, if◌then◌else◌,
  or_else, string_eq,
}
use privex.Crypto.Hex.{Bytes}
use privex.Db.Table
use privex.Db.Table.{Table, get-put, get-update}
use privex.Db.Rows.{ContactStatus, accepted, blocked, ContactRow}
use mathlib.Core.Option

abbrev pub Contacts : Type 0
Contacts = Table String ContactRow

pub record PlainContact : Type 0 where
  pub px_id : String
  pub name : String
  pub verified : Bool
  pub status : ContactStatus
  pub ik_ed25519 : Bytes
  pub ik_x25519 : Bytes
  pub added_at : ℕ

-- `!!fingerprint`: the empty text is false
has_text : Option String → Bool
has_text none = false
has_text (some s) = if s == "" then false else true

unfoldable pub to_plain : ContactRow → PlainContact
unfolding has_text
to_plain row = record {
  px_id = row.px_id;
  name = or_else row.display_name "";
  verified = has_text row.verified_fingerprint;
  status = or_else row.status accepted;
  ik_ed25519 = or_else row.ik_ed25519_pub [];
  ik_x25519 = or_else row.ik_x25519_pub [];
  added_at = row.added_at;
}

unfoldable pub get : Contacts → String → Option PlainContact
get t px_id = Option.map to_plain (Table.get t px_id)

-- a row written before the status field counts as accepted
abbrev pub prev_status : Option ContactRow → Option ContactStatus
prev_status none = none
prev_status (some row) = some (or_else row.status accepted)

-- "blocked" and "accepted" are sticky
abbrev pub final_status : Option ContactStatus → ContactStatus → ContactStatus
final_status (some blocked) status = blocked
final_status (some accepted) status = accepted
final_status _ status = status

-- `bytes.length > 0 ? bytes : existing`
non_empty_or : Bytes → Option Bytes → Option Bytes
non_empty_or [] old = old
non_empty_or (b ∷ bs) old = some (b ∷ bs)

abbrev field : {A : Type 0} → (ContactRow → Option A) → Option ContactRow → Option A
field f none = none
field f (some row) = f row

abbrev added : Option ContactRow → ℕ → ℕ
added none now = now
added (some row) now = row.added_at

merged : Option ContactRow → String → Bytes → Bytes → ContactStatus → ℕ → ContactRow
unfolding non_empty_or
merged existing px_id ik_ed ik_x status now = record {
  px_id = px_id;
  ik_ed25519_pub = non_empty_or ik_ed (field (λ r. r.ik_ed25519_pub) existing);
  ik_x25519_pub = non_empty_or ik_x (field (λ r. r.ik_x25519_pub) existing);
  display_name = field (λ r. r.display_name) existing;
  verified_fingerprint = field (λ r. r.verified_fingerprint) existing;
  status = some (final_status (prev_status existing) status);
  added_at = added existing now;
}

-- the transaction of `add`
unfoldable pub add : Contacts → String → Bytes → Bytes → ContactStatus → ℕ → Contacts
unfolding merged
add t px_id ik_ed ik_x status now =
    Table.put t px_id (merged (Table.get t px_id) px_id ik_ed ik_x status now)

unfoldable pub set_status : Contacts → String → ContactStatus → Contacts
set_status t px_id status = Table.update t px_id (λ row. record row { status = some status })

unfoldable pub set_name : Contacts → String → String → Contacts
set_name t px_id name = Table.update t px_id (λ row. record row { display_name = some name })

unfoldable pub set_verified : Contacts → String → String → Contacts
set_verified t px_id safety_code =
    Table.update t px_id (λ row. record row { verified_fingerprint = some safety_code })

unfoldable pub remove : Contacts → String → Contacts
remove t px_id = Table.delete t px_id

-- What the program reads of a contact's status.
unfoldable pub status_of : Contacts → String → Option ContactStatus
status_of t px_id = prev_status (Table.get t px_id)

-- The status after `add` of one contact, for every contact: a blocked or accepted one stays so, any
-- other takes the status of the call, and other contacts keep theirs.
pub status_of-add :
    (t : Contacts) (px_id : String) (ik_ed ik_x : Bytes) (status : ContactStatus) (now : ℕ)
    (j : String)
    → status_of (add t px_id ik_ed ik_x status now) j
      ≡ (if px_id == j then some (final_status (status_of t px_id) status) else status_of t j)
unfolding status_of add
status_of-add t px_id ik_ed ik_x status now j =
    ground (arith, get-put t px_id (merged (Table.get t px_id) px_id ik_ed ik_x status now) j)

abbrev pub when_known : Option ContactStatus → ContactStatus → Option ContactStatus
when_known none status = none
when_known (some old) status = some status

pub status_of-set_status :
    (t : Contacts) (px_id : String) (status : ContactStatus) (j : String)
    → status_of (set_status t px_id status) j
      ≡ (if px_id == j then when_known (status_of t px_id) status else status_of t j)
unfolding status_of set_status
status_of-set_status t px_id status j =
    ground (arith, get-update t px_id (λ (row : ContactRow). record row { status = some status }) j)
