-- ===== src/Messaging/Send/Keeps.antt =====
-- What a control message does to the contacts and the messages: nothing, but for the contact that a
-- fresh session adds.
use privex.Prelude.{
  ℕ, String, Option, none, some, List, if◌then◌else◌, is_some, nat_eq, string_eq, bytes_eq,
}
use privex.Crypto.Hex.{Bytes, Text}
use privex.Db.Rows.{pending_outbound}
use privex.Db.Contacts as ContactStore
use privex.Wire.{IdentityBundle}
use privex.Data.Contacts.{VerifiedBundle, PqxdhInit, add_verified_contact}
use privex.Data.Sessions.{LoadedSession}
use privex.Handshake.{start_session, loaded_identity}
use privex.Outbox.{enqueue}
use privex.Device.{Device, Reply}
use privex.Exec.{modify}
use privex.Exec.Keeps.{
  Keeps, keeps_rules, Keeps-modify, Keeps-bind, Keeps-gets, Keeps-await, Keeps-pure, Keeps-if,
}
use privex.Messaging.{Env}
use privex.Messaging.Keeps.{Messages, On, aside, signal-Keeps, my_cert-Keeps, my_bundle-Keeps}
use privex.Messaging.Send.{
  LocalCopy, check_visible, or_start, open_session, clear_stash, park, after_post, post, keep_copy,
  reply_of, seal_and_send, send_control, send_contact_accept,
}

module _ (env : Env) {R : ContactStore.Contacts → Messages → List String → Type 0}
    (start : (c : ContactStore.Contacts) (m : Messages) (a : List String) (v : VerifiedBundle)
      → R c m a
      → R
          (ContactStore.add c v.user_id v.ik_ed25519 v.ik_x25519 pending_outbound env.now)
          m
          a) where
  loaded_identity-Keeps : (o : Option IdentityBundle) → Keeps (On R) (loaded_identity o)
  unfolding loaded_identity
  loaded_identity-Keeps none = search keeps_rules
  loaded_identity-Keeps (some me) = search keeps_rules

  add_verified_contact-Keeps :
      (v : VerifiedBundle) (pqx : PqxdhInit) (state : Bytes)
      → Keeps (On R) (modify (add_verified_contact v pqx state env.now))
  unfolding add_verified_contact
  add_verified_contact-Keeps v pqx state =
      Keeps-modify _ (λ d h. record { holds = start d.contacts d.messages d.acks v h.holds })

  start_session-Keeps : (px_id : String) → Keeps (On R) (start_session env.contact px_id env.now)
  unfolding start_session
  start_session-Keeps px_id =
      search (keeps_rules, loaded_identity-Keeps, add_verified_contact-Keeps) depth 12

  or_start-Keeps : (px_id : String) (o : Option LoadedSession) → Keeps (On R) (or_start env px_id o)
  or_start-Keeps px_id none = search (keeps_rules, start_session-Keeps)
  or_start-Keeps px_id (some s) = search keeps_rules

  open_session-Keeps : (px_id : String) → Keeps (On R) (open_session env px_id)
  unfolding open_session
  open_session-Keeps px_id = search (keeps_rules, or_start-Keeps)

  park-Keeps :
      (peer_id : String) (sealed : Text) (copy : Option LocalCopy) (ttl : ℕ)
      → Keeps (On R) (park env peer_id sealed copy ttl)
  unfolding park enqueue
  park-Keeps peer_id sealed copy ttl = Keeps-modify _ (λ d h. record { holds = h.holds })

  after_post-Keeps :
      (peer_id : String) (sealed : Text) (copy : Option LocalCopy) (ttl : ℕ) (reply : Reply)
      → Keeps (On R) (after_post env peer_id sealed copy ttl reply)
  unfolding after_post
  after_post-Keeps peer_id sealed copy ttl (Reply.message_id id) = search keeps_rules
  after_post-Keeps peer_id sealed copy ttl (Reply.api_error status) =
      search (keeps_rules, park-Keeps, signal-Keeps) depth 8
  after_post-Keeps peer_id sealed copy ttl Reply.offline = search (keeps_rules, park-Keeps)

  if_some :
      {A : Type 0} (o : Option A) (d d' : Device)
      → On R d
      → On R d'
      → On R (if is_some o then d' else d)
  if_some none d d' h h' = h
  if_some (some a) d d' h h' = h'

  post-Keeps :
      (peer_id : String) (sealed : Text) (copy : Option LocalCopy) (ttl : ℕ)
      → Keeps (On R) (post env peer_id sealed copy ttl)
  unfolding post
  post-Keeps peer_id sealed copy ttl = Keeps-bind _ _ (Keeps-gets _) λ token.
      Keeps-bind _ _ (Keeps-modify _ (λ d h. if_some token d _ h (record { holds = h.holds })))
        λ _. after_post-Keeps peer_id sealed copy ttl (reply_of env token peer_id sealed ttl)

  clear_stash-Keeps :
      (peer_id : String) (s : LoadedSession) → Keeps (On R) (clear_stash env peer_id s)
  unfolding clear_stash
  clear_stash-Keeps peer_id s =
      Keeps-if (is_some s.pqxdh_init) _ _ (λ _. aside env _ (λ s a r. r)) (λ _. Keeps-pure tt)

  control-Keeps :
      (peer_id : String) (content : Bytes) (ttl : ℕ)
      → Keeps (On R) (seal_and_send env peer_id content none ttl)
  unfolding seal_and_send check_visible keep_copy
  control-Keeps peer_id content ttl = Keeps-bind _ _ (my_bundle-Keeps env) λ me.
      Keeps-bind _ _ (Keeps-gets _) λ contact. Keeps-bind _ _ (Keeps-await _ _) λ ik.
        Keeps-bind _ _ (Keeps-pure tt) λ _. Keeps-bind _ _ (open_session-Keeps peer_id) λ session.
          Keeps-bind _ _ (Keeps-await _ _) λ enc. Keeps-bind _ _ (my_cert-Keeps env me) λ cert.
            Keeps-bind _ _ (Keeps-await _ _) λ sealed.
              Keeps-bind _ _ (aside env _ (λ s a r. r)) λ _.
                Keeps-bind _ _ (clear_stash-Keeps peer_id session) λ _.
                  Keeps-bind _ _ (post-Keeps peer_id _ none ttl)
                    λ sent. Keeps-bind _ _ (Keeps-pure tt) λ _. Keeps-pure _

  pub send_control-Keeps :
      (peer_id : String) (content : Bytes) → Keeps (On R) (send_control env peer_id content)
  unfolding send_control
  send_control-Keeps peer_id content = search (keeps_rules, control-Keeps)

  pub send_contact_accept-Keeps :
      (peer_id : String) → Keeps (On R) (send_contact_accept env peer_id)
  unfolding send_contact_accept
  send_contact_accept-Keeps peer_id = search (send_control-Keeps)
