-- ===== src/Messaging/Keeps.antt =====
-- Actions of the message service that leave the contacts alone: whatever holds of the contact table
-- holds after them, whether they return or throw.
use privex.Prelude.{ℕ, String, Option, none, some, List, nat_eq, string_eq, bytes_eq}
use privex.Crypto.Hex.{Bytes}
use privex.Db.Table
use privex.Db.Table.{Table}
use privex.Db.Rows.{Store, MessageRow}
use privex.Db.Contacts as ContactStore
use privex.Wire.{IdentityBundle}
use privex.Device.{Device, Event, Fault}
use privex.Exec.{Exec}
use privex.Exec.Keeps.{
  Keeps, keeps_rules, Keeps-modify, Keeps-bind, Keeps-gets, Keeps-await, Keeps-pure, Keeps-if,
}
use privex.Messaging.{
  Env, stored_as, save_bundle, on_store, signal, my_bundle, or_loaded, my_cert, session_token,
  ack_message, acknowledged, ack_delivered, add_message, note_undecryptable, crypto_engine_healthy,
  cached_or, is_notice, notice,
}

abbrev pub Messages : Type 0
Messages = Table String MessageRow

-- a statement of the contacts, the messages and the acknowledgements alone
pub record On (R : ContactStore.Contacts → Messages → List String → Type 0) (d : Device)
    : Type 0 where
  pub holds : R d.contacts d.messages d.acks

abbrev pub OnTables : (ContactStore.Contacts → Messages → Type 0) → Device → Type 0
OnTables R = On λ c m a. R c m

module _ (env : Env) {R : ContactStore.Contacts → Messages → List String → Type 0} where
  -- a write of the database that leaves the contacts and the messages alone
  pub aside :
      (f : Store → Store)
      → ((s : Store) (a : List String)
          → R s.contacts s.messages a
          → R (f s).contacts (f s).messages a)
      → Keeps (On R) (on_store f)
  aside f h = Keeps-modify _ (λ d k. record { holds = h d.store d.acks k.holds })

  pub session_token-Keeps : Keeps (On R) (session_token env)
  unfolding session_token
  session_token-Keeps = search (keeps_rules)

  pub signal-Keeps : (e : Event) → Keeps (On R) (signal e)
  signal-Keeps e = Keeps-modify _ (λ d h. record { holds = h.holds })

  stored_as-Keeps : (f : Option Fault) (me : IdentityBundle) → Keeps (On R) (stored_as env f me)
  unfolding stored_as
  stored_as-Keeps none me = Keeps-modify _ (λ d h. record { holds = h.holds })
  stored_as-Keeps (some fault) me = search keeps_rules

  pub save_bundle-Keeps : (me : IdentityBundle) → Keeps (On R) (save_bundle env me)
  unfolding save_bundle
  save_bundle-Keeps me = stored_as-Keeps (env.save me) me

  cached_or-Keeps :
      (o : Option Bytes) (m : Exec Bytes) → Keeps (On R) m → Keeps (On R) (cached_or env o m)
  cached_or-Keeps none m k = k
  cached_or-Keeps (some cert) m k = Keeps-pure cert

  pub my_cert-Keeps : (me : IdentityBundle) → Keeps (On R) (my_cert env me)
  unfolding my_cert
  my_cert-Keeps me = Keeps-bind _ _ (Keeps-gets _) λ cache. cached_or-Keeps _ _ (
      Keeps-bind _ _ (Keeps-await _ _) λ cert.
        Keeps-bind _ _ (Keeps-modify _ (λ d h. record { holds = h.holds })) λ _. Keeps-pure cert)

  or_loaded-Keeps : (o : Option IdentityBundle) → Keeps (On R) (or_loaded env o)
  or_loaded-Keeps (some me) = Keeps-pure me
  or_loaded-Keeps none = Keeps-bind _ _ (Keeps-gets _) λ stored.
      Keeps-bind _ _ (Keeps-await _ _)
        λ me. Keeps-bind _ _ (Keeps-modify _ (λ d h. record { holds = h.holds })) λ _. Keeps-pure me

  pub my_bundle-Keeps : Keeps (On R) (my_bundle env)
  unfolding my_bundle
  my_bundle-Keeps = Keeps-bind _ _ (Keeps-gets _) (λ cache. or_loaded-Keeps cache)

  pub crypto_engine_healthy-Keeps :
      (me : IdentityBundle) → Keeps (On R) (crypto_engine_healthy env me)
  unfolding crypto_engine_healthy
  crypto_engine_healthy-Keeps me = search (keeps_rules, my_cert-Keeps)

  pub add_message-Keeps :
      (row : MessageRow)
      → ((c : ContactStore.Contacts) (m : Messages) (a : List String)
          → R c m a
          → R c (Table.put m row.msg_id row) a)
      → Keeps (On R) (add_message env row)
  unfolding add_message
  add_message-Keeps row h = aside _ (λ s a r. h s.contacts s.messages a r)

  -- the notice is the one message row that a failed decryption writes
  pub note_undecryptable-Keeps :
      (peer_id message_id : String) (anchor : Option ℕ)
      → ((c : ContactStore.Contacts) (m : Messages) (a : List String)
          → R c m a
          → R c (Table.put m message_id (notice env peer_id message_id anchor)) a)
      → Keeps (On R) (note_undecryptable env peer_id message_id anchor)
  unfolding note_undecryptable
  note_undecryptable-Keeps peer_id message_id anchor h = Keeps-bind _ _ (Keeps-gets _) λ last.
      Keeps-if (is_notice env last) _ _ (λ _. Keeps-pure tt)
        (λ _. Keeps-bind _ _ (add_message-Keeps _ h) (λ _. signal-Keeps (Event.message peer_id)))

-- an acknowledgement leaves the contacts and the messages alone
module _ (env : Env) {R : ContactStore.Contacts → Messages → Type 0} where
  acknowledged-Keeps : (id : String) (f : Option Fault) → Keeps (OnTables R) (acknowledged env id f)
  unfolding acknowledged
  acknowledged-Keeps id none = Keeps-modify _ (λ d h. record { holds = h.holds })
  acknowledged-Keeps id (some f) = search keeps_rules

  pub ack_message-Keeps : (id : String) → Keeps (OnTables R) (ack_message env id)
  unfolding ack_message
  ack_message-Keeps id = search (keeps_rules, acknowledged-Keeps, session_token-Keeps env)

  pub ack_delivered-Keeps : (id : String) → Keeps (OnTables R) (ack_delivered env id)
  unfolding ack_delivered
  ack_delivered-Keeps id = Keeps-bind _ _ (aside env _ (λ s a r. r)) (λ _. ack_message-Keeps id)
