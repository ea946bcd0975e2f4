-- ===== src/Messaging/Receive/Keeps.antt =====
-- What one delivery from a peer does to the contacts and the messages: only the writes that the
-- section names.
use privex.Prelude.{
  not, ◌&&◌, Option, none, some, ltb, is_some, length, filter, any, ◌==◌, nat_eq, string_eq,
  bytes_eq,
}
use privex.Crypto.Hex.{Text}
use privex.Db.Contacts as ContactStore
use privex.Wire.{IdentityBundle, PqxdhInitWire, RatchetDecrypted}
use privex.Data.Contacts.{upsert_inbound_contact}
use privex.Data.Sessions.{LoadedSession}
use privex.Exec.{Exec, Done}
use privex.Exec.Keeps.{
  Keeps, Keeps-modify, Keeps-catch, Keeps-bind, Keeps-gets, Keeps-pure, Keeps-throw, Keeps-if,
}
use privex.Messaging.{Env}
use privex.Messaging.Keeps.{
  Messages, OnTables, aside, signal-Keeps, save_bundle-Keeps, crypto_engine_healthy-Keeps,
}
use privex.Messaging.Receive.Context.{Delivery, sender_of, adopts_at_once}
use privex.Messaging.Receive.Content.Keeps.{Writes, acked, noted_Keeps, handle_content-Keeps}
use privex.Messaging.Receive.{
  consume_opk, or_engine_failure, adopt_with, adopt_or_drop, adopt_handshake, not_decrypted,
  decrypted, on_session, choose_session, receive_from_peer, opk_low_water,
}

module _ (env : Env) {R : ContactStore.Contacts → Messages → Type 0} where
  pub or_engine_failure-Keeps :
      (me : IdentityBundle) (next : Exec Done)
      → Keeps (OnTables R) next
      → Keeps (OnTables R) (or_engine_failure env me next)
  unfolding or_engine_failure
  or_engine_failure-Keeps me next k =
      Keeps-bind _ _ (crypto_engine_healthy-Keeps env me)
        λ healthy. Keeps-if healthy _ _ (λ _. k) (λ _. Keeps-throw _)

module _ (env : Env) {R : ContactStore.Contacts → Messages → Type 0} (x : Delivery)
    (w : Writes env R x) where
  consume_opk-Keeps :
      (me : IdentityBundle) (pq : PqxdhInitWire) → Keeps (OnTables R) (consume_opk env me pq)
  unfolding consume_opk
  consume_opk-Keeps me pq =
      Keeps-if (pq.opk_used && any (λ o. o.id == pq.opk_id) me.opks) _ _
        (λ _. Keeps-bind _ _ (Keeps-modify _ (λ d h. record { holds = h.holds })) λ _.
          Keeps-bind _ _ (Keeps-catch _ _ (save_bundle-Keeps env _)) λ _.
            Keeps-if (ltb (length (filter (λ o. not (o.id == pq.opk_id)) me.opks)) opk_low_water) _
              _ (λ _. signal-Keeps env _) (λ _. Keeps-pure tt))
        (λ _. Keeps-pure tt)

  adopt_with-Keeps :
      (pq : PqxdhInitWire) (ek : Text) (dec : RatchetDecrypted)
      → Keeps (OnTables R) (adopt_with env x pq ek dec)
  unfolding adopt_with upsert_inbound_contact
  adopt_with-Keeps pq ek dec = Keeps-bind _ _ (aside env _ (λ s a r. r)) λ _.
      Keeps-bind _ _
        (Keeps-modify _ (λ d h. record { holds = w.inbound d.contacts d.messages _ _ h.holds }))
        λ _. Keeps-bind _ _ (signal-Keeps env _) λ _. Keeps-bind _ _ (aside env _ (λ s a r. r)) λ _.
          Keeps-bind _ _ (consume_opk-Keeps x.me pq) λ _. handle_content-Keeps env x w dec.plaintext

  adopt_or_drop-Keeps :
      (pq : PqxdhInitWire) (ek : Text) (o : Option RatchetDecrypted)
      → Keeps (OnTables R) (adopt_or_drop env x pq ek o)
  unfolding adopt_or_drop
  adopt_or_drop-Keeps pq ek none = or_engine_failure-Keeps env x.me _ (
      Keeps-bind _ _
        (Keeps-if (is_some x.prior_status) _ _ (λ _. noted_Keeps env x w) (λ _. Keeps-pure tt))
        λ _. acked env x w)
  adopt_or_drop-Keeps pq ek (some dec) = adopt_with-Keeps pq ek dec

  adopt_handshake-Keeps : (pq : PqxdhInitWire) → Keeps (OnTables R) (adopt_handshake env x pq)
  unfolding adopt_handshake
  adopt_handshake-Keeps pq =
      Keeps-bind _ _ (Keeps-gets _)
        λ replayed. Keeps-if replayed _ _ (λ _. acked env x w) (λ _. adopt_or_drop-Keeps pq _ _)

  decrypted-Keeps :
      (s : LoadedSession) (o : Option RatchetDecrypted) → Keeps (OnTables R) (decrypted env x s o)
  unfolding decrypted
  decrypted-Keeps s none = by_handshake x.envelope.pqxdh
    where
      by_handshake : (o : Option PqxdhInitWire) → Keeps (OnTables R) (not_decrypted env x s o)
      by_handshake none = or_engine_failure-Keeps env x.me _ (
          Keeps-bind _ _ (Keeps-if x.verified _ _ (λ _. noted_Keeps env x w) (λ _. Keeps-pure tt))
            λ _. acked env x w)
      by_handshake (some pq) =
          Keeps-if s.received_ok _ _ (λ _. adopt_handshake-Keeps pq) (λ _. acked env x w)
  decrypted-Keeps s (some dec) = Keeps-bind _ _ (aside env _ (λ st a r. r)) λ _.
      Keeps-bind _ _
        (Keeps-if s.received_ok _ _ (λ _. Keeps-pure tt) (λ _. aside env _ (λ st a r. r)))
        λ _. handle_content-Keeps env x w dec.plaintext

  on_session-Keeps : (o : Option LoadedSession) → Keeps (OnTables R) (on_session env x o)
  unfolding on_session
  on_session-Keeps none = acked env x w
  on_session-Keeps (some s) = decrypted-Keeps s _

  choose_session-Keeps :
      (existing : Option LoadedSession) (o : Option PqxdhInitWire)
      → Keeps (OnTables R) (choose_session env x existing o)
  unfolding choose_session
  choose_session-Keeps existing none = on_session-Keeps existing
  choose_session-Keeps existing (some pq) =
      Keeps-if (adopts_at_once existing (sender_of x) x.me.user_id) _ _
        (λ _. adopt_handshake-Keeps pq) (λ _. on_session-Keeps existing)

  -- A delivery from a peer keeps what its writes keep.
  pub receive_from_peer-Keeps : Keeps (OnTables R) (receive_from_peer env x)
  unfolding receive_from_peer
  receive_from_peer-Keeps =
      Keeps-bind _ _ (Keeps-gets _) λ existing. choose_session-Keeps existing x.envelope.pqxdh
