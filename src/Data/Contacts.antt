-- ===== src/Data/Contacts.antt =====
-- Contact persistence (apps/web/src/data/contacts.ts), over the whole local database.
pub mod Laws
use privex.Prelude.{
  ℕ, String, Bool, false, not, Option, none, some, filter, ◌==◌, nat_eq, string_eq, bytes_eq,
}
use privex.Crypto.Hex.{Bytes, to_hex}
use privex.Db.Table
use privex.Db.Rows.{
  ContactStatus, accepted, pending_inbound, pending_outbound, blocked, ContactRow, PqxdhInitStash,
  SessionRow, MessageRow, is_blocked,
}
use privex.Db.Contacts as ContactStore
use privex.Device.{Device, Event, with_store, emit}

-- a peer's key bundle that passed verification
pub record VerifiedBundle : Type 0 where
  pub user_id : String
  pub ik_ed25519 : Bytes
  pub ik_x25519 : Bytes
  pub spk_x25519 : Bytes
  pub opk : Option Bytes
  pub opk_id : Option ℕ
  pub kyber1024_pub : Bytes

pub record PqxdhInit : Type 0 where
  pub shared_secret : Bytes
  pub alice_ik_pub : Bytes
  pub alice_ek_pub : Bytes
  pub kyber_ciphertext : Bytes
  pub opk_used : Bool

abbrev pub on_contacts : (ContactStore.Contacts → ContactStore.Contacts) → Device → Device
on_contacts f = with_store λ s. record s { contacts = f s.contacts }

build_init_stash : VerifiedBundle → PqxdhInit → PqxdhInitStash
build_init_stash bundle pqx = record {
  alice_ik_pub = to_hex pqx.alice_ik_pub;
  alice_ek_pub = to_hex pqx.alice_ek_pub;
  kyber_ciphertext = to_hex pqx.kyber_ciphertext;
  opk_id = bundle.opk_id;
  opk_used = pqx.opk_used;
}

initiator_row : VerifiedBundle → PqxdhInit → Bytes → ℕ → SessionRow
unfolding build_init_stash
initiator_row bundle pqx ratchet_state now = record {
  session_id = bundle.user_id;
  peer_id = bundle.user_id;
  ratchet_state = to_hex ratchet_state;
  pqxdh_init = some (build_init_stash bundle pqx);
  created_at = now;
  received_ok = some false;
}

unfoldable pub add_verified_contact : VerifiedBundle → PqxdhInit → Bytes → ℕ → Device → Device
unfolding initiator_row
add_verified_contact bundle pqx ratchet_state now d = emit Event.contacts (
    with_store
      (λ s. record s {
        contacts =
            ContactStore.add s.contacts bundle.user_id bundle.ik_ed25519 bundle.ik_x25519
              pending_outbound now;
        sessions = Table.put s.sessions bundle.user_id (initiator_row bundle pqx ratchet_state now);
      })
      d)

unfoldable pub upsert_inbound_contact : String → Bytes → Bytes → ℕ → Device → Device
upsert_inbound_contact sender_id ik_ed ik_x now =
    on_contacts λ t. ContactStore.add t sender_id ik_ed ik_x pending_inbound now

unfoldable pub restore_contact : String → Bytes → Bytes → ContactStatus → ℕ → Device → Device
restore_contact px_id ik_ed ik_x status now =
    on_contacts λ t. ContactStore.add t px_id ik_ed ik_x status now

unfoldable pub accept_contact : String → Device → Device
accept_contact px_id d =
    emit Event.contacts (on_contacts (λ t. ContactStore.set_status t px_id accepted) d)

unfoldable pub block_contact : String → Device → Device
block_contact px_id d =
    emit Event.contacts (on_contacts (λ t. ContactStore.set_status t px_id blocked) d)

unfoldable pub unblock_contact : String → Device → Device
unblock_contact px_id d =
    emit Event.contacts (on_contacts (λ t. ContactStore.set_status t px_id accepted) d)

-- `getContact(id)?.status`
abbrev pub contact_status : Device → String → Option ContactStatus
contact_status d px_id = ContactStore.status_of d.contacts px_id

unfoldable pub is_blocked_contact : Device → String → Bool
is_blocked_contact d px_id = is_blocked (contact_status d px_id)

unfoldable pub remove_contact : String → Device → Device
remove_contact px_id d = emit Event.contacts (
    with_store
      (λ s. record s {
        contacts = Table.delete s.contacts px_id;
        sessions = Table.delete s.sessions px_id;
        messages = Table.delete_where (λ (m : MessageRow). m.session_id == px_id) s.messages;
        outbox = filter (λ r. not (r.peer_id == px_id)) s.outbox;
      })
      d)

-- the stored identity key of a contact differs from the one at hand
differs : Option ContactRow → Bytes → Bool
differs none ik_ed = false
differs (some row) ik_ed = elim row.ik_ed25519_pub [
  | none ↦ false
  | some key ↦ not (to_hex key == to_hex ik_ed)
]

unfoldable pub is_key_changed : Device → String → Bytes → Bool
unfolding differs
is_key_changed d px_id ik_ed = differs (Table.get d.contacts px_id) ik_ed
