-- ===== src/Messaging/Receive/Acks.antt =====
-- The acknowledgements of the stages that a delivery from a peer runs through.
use privex.Prelude.{
  String, Bool, not, ◌&&◌, ◌||◌, Option, none, some, List, ltb, if◌then◌else◌, is_some, length,
  filter, any, ◌==◌, nat_eq, string_eq, bytes_eq,
}
use privex.Crypto.Hex.{Text}
use privex.Wire.{IdentityBundle, PqxdhInitWire, RatchetDecrypted}
use privex.Data.Contacts.{upsert_inbound_contact}
use privex.Data.Sessions.{LoadedSession}
use privex.Exec.{Exec, Done, pure, ◌>>=◌}
use privex.Exec.Keeps.{
  Keeps, Keeps-modify, Keeps-catch, Keeps-bind, Keeps-gets, Keeps-pure, Keeps-if,
}
use privex.Messaging.{Env, ack_delivered, note_undecryptable}
use privex.Messaging.Keeps.{aside, signal-Keeps, save_bundle-Keeps, crypto_engine_healthy-Keeps}
use privex.Messaging.Acks.{Quiet, Acks, Acks-throw, Acks-if, Acks-bind}
use privex.Messaging.Receive.Context.{Delivery, id_of, sender_of, bound, adopts_at_once}
use privex.Messaging.Receive.Content.Acks.{Once, and_then, acks, notes-Quiet, handle_content-Acks}
use privex.Messaging.Receive.{
  consume_opk, or_engine_failure, adopt_with, adopt_or_drop, adopt_handshake, not_decrypted,
  decrypted, on_session, choose_session, receive_from_peer, opk_low_water, screened,
}

module _ (env : Env) (S : Type 0) where
  pub or_engine_failure-Acks :
      (id : String) (me : IdentityBundle) (next : Exec Done)
      → Acks (λ d. Unit) id S next
      → Acks (λ d. Unit) id S (or_engine_failure env me next)
  unfolding or_engine_failure
  or_engine_failure-Acks id me next k =
      Acks-bind _ _ (record { at = λ d p. tt }) (λ a. crypto_engine_healthy-Keeps env me)
        λ healthy. Acks-if healthy _ _ (λ _. k) (λ _. Acks-throw _)

module _ (env : Env) (S : Type 0) (x : Delivery) where
  consume_opk-Quiet :
      (me : IdentityBundle) (pq : PqxdhInitWire) (a : List String)
      → Keeps (Quiet a) (consume_opk env me pq)
  unfolding consume_opk
  consume_opk-Quiet me pq a =
      Keeps-if (pq.opk_used && any (λ o. o.id == pq.opk_id) me.opks) _ _
        (λ _. Keeps-bind _ _ (Keeps-modify _ (λ d h. record { holds = h.holds })) λ _.
          Keeps-bind _ _ (Keeps-catch _ _ (save_bundle-Keeps env _)) λ _.
            Keeps-if (ltb (length (filter (λ o. not (o.id == pq.opk_id)) me.opks)) opk_low_water) _
              _ (λ _. signal-Keeps env _) (λ _. Keeps-pure tt))
        (λ _. Keeps-pure tt)

  tell_if : Bool → Exec Done
  tell_if b = if b then note_undecryptable env (sender_of x) (id_of x) x.time.anchor else pure tt

  told : (b : Bool) → Once env S x (tell_if b >>= λ _. ack_delivered env (id_of x))
  unfolding tell_if
  told b =
      and_then env S x _ _ (λ a. Keeps-if b _ _ (λ _. notes-Quiet env S x a) (λ _. Keeps-pure tt))
        λ _. acks env S x

  adopt_with-Acks :
      (pq : PqxdhInitWire) (ek : Text) (dec : RatchetDecrypted)
      → Once env S x (adopt_with env x pq ek dec)
  unfolding adopt_with upsert_inbound_contact
  adopt_with-Acks pq ek dec =
      and_then env S x _ _ (λ a. aside env _ (λ s b r. r))
        λ _.
          and_then env S x _ _ (λ a. Keeps-modify _ (λ d h. record { holds = h.holds }))
            λ _.
              and_then env S x _ _ (λ a. signal-Keeps env _)
                λ _.
                  and_then env S x _ _ (λ a. aside env _ (λ s b r. r))
                    λ _.
                      and_then env S x _ _ (consume_opk-Quiet x.me pq)
                        λ _. handle_content-Acks env S x dec.plaintext

  adopt_or_drop-Acks :
      (pq : PqxdhInitWire) (ek : Text) (o : Option RatchetDecrypted)
      → Once env S x (adopt_or_drop env x pq ek o)
  unfolding adopt_or_drop tell_if
  adopt_or_drop-Acks pq ek none =
      or_engine_failure-Acks env S (id_of x) x.me _ (told (is_some x.prior_status))
  adopt_or_drop-Acks pq ek (some dec) = adopt_with-Acks pq ek dec

  adopt_handshake-Acks : (pq : PqxdhInitWire) → Once env S x (adopt_handshake env x pq)
  unfolding adopt_handshake
  adopt_handshake-Acks pq =
      and_then env S x _ _ (λ a. Keeps-gets _)
        λ replayed. Acks-if replayed _ _ (λ _. acks env S x) (λ _. adopt_or_drop-Acks pq _ _)

  not_decrypted-Acks :
      (s : LoadedSession) (o : Option PqxdhInitWire) → Once env S x (not_decrypted env x s o)
  unfolding not_decrypted tell_if
  not_decrypted-Acks s none = or_engine_failure-Acks env S (id_of x) x.me _ (told x.verified)
  not_decrypted-Acks s (some pq) =
      Acks-if s.received_ok _ _ (λ _. adopt_handshake-Acks pq) (λ _. acks env S x)

  decrypted-Acks :
      (s : LoadedSession) (o : Option RatchetDecrypted) → Once env S x (decrypted env x s o)
  unfolding decrypted
  decrypted-Acks s none = not_decrypted-Acks s _
  decrypted-Acks s (some dec) =
      and_then env S x _ _ (λ a. aside env _ (λ st b r. r))
        λ _.
          and_then env S x _ _
            (λ a. Keeps-if s.received_ok _ _ (λ _. Keeps-pure tt) (λ _. aside env _ (λ st b r. r)))
            λ _. handle_content-Acks env S x dec.plaintext

  on_session-Acks : (o : Option LoadedSession) → Once env S x (on_session env x o)
  unfolding on_session
  on_session-Acks none = acks env S x
  on_session-Acks (some s) = decrypted-Acks s _

  choose_session-Acks :
      (existing : Option LoadedSession) (o : Option PqxdhInitWire)
      → Once env S x (choose_session env x existing o)
  unfolding choose_session
  choose_session-Acks existing none = on_session-Acks existing
  choose_session-Acks existing (some pq) =
      Acks-if (adopts_at_once existing (sender_of x) x.me.user_id) _ _
        (λ _. adopt_handshake-Acks pq) (λ _. on_session-Acks existing)

  receive_from_peer-Acks : Once env S x (receive_from_peer env x)
  unfolding receive_from_peer
  receive_from_peer-Acks =
      and_then env S x _ _ (λ a. Keeps-gets _)
        λ existing. choose_session-Acks existing x.envelope.pqxdh

module _ (env : Env) (S : Type 0) (x : Delivery) where
  pub screened-Acks : Once env S x (screened env x)
  unfolding screened
  screened-Acks =
      and_then env S x _ _ (λ a. Keeps-gets _)
        λ blocked.
          Acks-if (blocked || not (bound x)) _ _ (λ _. acks env S x)
            (λ _.
              and_then env S x _ _ (λ a. Keeps-gets _)
                λ prior. receive_from_peer-Acks env S (record x { prior_status = prior }))
