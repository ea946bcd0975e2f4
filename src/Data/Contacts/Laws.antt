-- ===== src/Data/Contacts/Laws.antt =====
-- Laws of the contact operations (apps/web/src/data/contacts.ts).
use privex.Prelude.{
  ℕ, String, ◌≡◌, ap, ◌≢◌, ◌↔◌, inl, inr, Bool, true, not, none, some, List, [], ◌∷◌, arith,
  Bool-cases, Option-cases, filter, All, In, ◌∙◌, eq_of_beq, ◌==◌, list_beq_iff, nat_eq, string_eq,
  bytes_eq,
}
use privex.Crypto.Hex.{Bytes, IsBytes, to_hex, to_hex-injective}
use privex.Db.Table
use privex.Db.Rows.{ContactStatus, blocked, ContactRow, MessageRow, OutboxRow}
use privex.Db.Contacts.{status_of-add}
use privex.Device.{Device}
use privex.Data.Contacts.{restore_contact, contact_status, remove_contact, is_key_changed}
use text.Mathlib.TextEquality.{eq_iff}

-- A contact that a backup restores does not change the status of a blocked contact.
pub blocked_sticky :
    (px_id j : String) (ik_ed ik_x : Bytes) (status : ContactStatus) (now : ℕ) (d : Device)
    → contact_status d j ≡ some blocked
    → contact_status (restore_contact px_id ik_ed ik_x status now d) j ≡ some blocked
unfolding restore_contact
blocked_sticky px_id j ik_ed ik_x status now d h =
    ground (arith, status_of-add d.contacts px_id ik_ed ik_x status now j, eq_iff px_id j)

-- Removing a contact leaves no contact, session, stored message or queued send of it behind, and
-- keeps everything of the others.
pub record IsPurged (px_id : String) (d d' : Device) : Type 0 where
  pub no_contact : Table.get d'.contacts px_id ≡ none
  pub no_session : Table.get d'.sessions px_id ≡ none
  pub no_message :
      (k : String) (m : MessageRow) → Table.get d'.messages k ≡ some m → m.session_id ≢ px_id
  pub no_send : All (λ r. r.peer_id ≢ px_id) d'.outbox
  pub others_contact : (j : String) → px_id ≢ j → Table.get d'.contacts j ≡ Table.get d.contacts j
  pub others_session : (j : String) → px_id ≢ j → Table.get d'.sessions j ≡ Table.get d.sessions j
  pub others_message :
      (k : String) (m : MessageRow)
      → Table.get d.messages k ≡ some m
      → m.session_id ≢ px_id
      → Table.get d'.messages k ≡ some m
  pub others_send : (r : OutboxRow) → r.peer_id ≢ px_id → In r d.outbox → In r d'.outbox

kept_outbox :
    (px_id : String) (r : OutboxRow) (rs : List OutboxRow)
    → r.peer_id ≢ px_id
    → In r rs
    → In r (filter (λ r. not (r.peer_id == px_id)) rs)
kept_outbox px_id r [] ne i = absurd i
kept_outbox px_id r (s ∷ rs) ne (inl e) = elim (Bool-cases (s.peer_id == px_id)) [
  | inl q ↦ absurd (ne (ap (λ (x : OutboxRow). x.peer_id) e ∙ eq_of_beq s.peer_id px_id q))
  | inr q ↦ rw q (inl e)
]
kept_outbox px_id r (s ∷ rs) ne (inr i) = elim (Bool-cases (s.peer_id == px_id)) [
  | inl q ↦ rw q (kept_outbox px_id r rs ne i)
  | inr q ↦ rw q (inr (kept_outbox px_id r rs ne i))
]

filter_outbox :
    (px_id : String) (rs : List OutboxRow)
    → All (λ r. r.peer_id ≢ px_id) (filter (λ r. not (r.peer_id == px_id)) rs)
filter_outbox px_id [] = tt
filter_outbox px_id (r ∷ rs) = elim (Bool-cases (r.peer_id == px_id)) [
  | inl q ↦ rw q (filter_outbox px_id rs)
  | inr q ↦ rw q (ground (arith, eq_iff r.peer_id px_id), filter_outbox px_id rs)
]

pub remove_contact-IsPurged :
    (px_id : String) (d : Device) → IsPurged px_id d (remove_contact px_id d)
unfolding remove_contact
remove_contact-IsPurged px_id d =
    let in_chat : MessageRow → Bool = λ m. m.session_id == px_id in
    record {
      no_contact = ground (arith, Table.get-delete d.contacts px_id px_id, eq_iff px_id px_id);
      no_session = ground (arith, Table.get-delete d.sessions px_id px_id, eq_iff px_id px_id);
      no_message = λ k m h. ground (
        arith,
        Table.get-delete_where in_chat d.messages k,
        eq_iff m.session_id px_id,
        Option-cases (Table.get d.messages k),
      );
      no_send = filter_outbox px_id d.outbox;
      others_contact = λ j ne. ground (arith, Table.get-delete d.contacts px_id j, eq_iff px_id j);
      others_session = λ j ne. ground (arith, Table.get-delete d.sessions px_id j, eq_iff px_id j);
      others_send = λ r ne i. kept_outbox px_id r d.outbox ne i;
      others_message = λ k m h ne.
          ground (arith, Table.get-delete_where in_chat d.messages k, eq_iff m.session_id px_id);
    }

-- A fetched identity key counts as changed exactly if one is stored for that contact and it is
-- another byte string.
pub is_key_changed_iff :
    (d : Device) (px_id : String) (row : ContactRow) (key ik_ed : Bytes)
    → Table.get d.contacts px_id ≡ some row
    → row.ik_ed25519_pub ≡ some key
    → IsBytes key
    → IsBytes ik_ed
    → (is_key_changed d px_id ik_ed ≡ true) ↔ (key ≢ ik_ed)
unfolding is_key_changed
is_key_changed_iff d px_id row key ik_ed g k hk hi = (
  λ h e. ground (arith, list_beq_iff (to_hex key) (to_hex ik_ed), ap to_hex e),
  λ ne. elim (Bool-cases (to_hex key == to_hex ik_ed)) [
    | inl q ↦ absurd (ne (to_hex-injective key ik_ed hk hi ((list_beq_iff _ _).0 q)))
    | inr q ↦ rw (g, is_key_changed) (rw k (rw q))
  ],
)
