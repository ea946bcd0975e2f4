-- ===== src/Messaging/Receive.antt =====
-- Receiving one delivery (apps/web/src/services/messaging.ts, `receiveMessage`), stage by stage; the
-- last stage stands first. An early return of the source is a stage that does not call the next.
pub mod Context
pub mod Content
pub mod Keeps
pub mod Known
pub mod Safety
pub mod Labels
pub mod Acks
pub mod Answered
use privex.Prelude.{
  ℕ, not, ◌&&◌, ◌||◌, Option, none, some, List, [], ◌∷◌, map, ltb, if◌then◌else◌, or_else, is_some,
  length, filter, find, any, ◌==◌, nat_eq, string_eq, bytes_eq,
}
use privex.Crypto.Hex.{Bytes, Text, to_hex}
use privex.Db.Table
use privex.Wire.{
  IdentityBundle, PreKey, KeyPair, RetiredSpk, RatchetDecrypted, SealedOpened, PqxdhInitWire,
  DeviceSyncWire, DecodedEnvelope,
}
use privex.Envelope.{decode_envelope}
use privex.TimeSync.{TimeVerifyResult, check_delivery_time}
use privex.DeviceSync.{my_device_id, open_sync_blob, apply_sync_record}
use privex.Data.Contacts.{
  contact_status, upsert_inbound_contact, is_blocked_contact, is_key_changed,
}
use privex.Data.Sessions.{
  LoadedSession, load_session, save_ratchet_state, mark_session_received, create_inbound_session,
}
use privex.Device.{Event, Fault}
use privex.Exec.{catch, Exec, Done, pure, throw, gets, await, modify, ◌>>=◌, ◌>>◌}
use privex.Messaging.{
  save_bundle, Env, crypto_fault, on_store, signal, my_bundle, ack_message, ack_delivered,
  crypto_engine_healthy, note_undecryptable,
}
use Context.{WsMessage, Delivery, id_of, sender_of, time_fields, bound, adopts_at_once}
use Content.{handle_content}

abbrev pub opk_low_water : ℕ
opk_low_water = 20

-- the current signed prekey, then the retired ones
abbrev pub spk_candidates : IdentityBundle → List KeyPair
spk_candidates me =
    me.spk
    ∷ map (λ (r : RetiredSpk). record { pub_key = r.pub_key; priv = r.priv })
        (or_else me.prev_spks [])

priv_of : Option PreKey → Bytes
priv_of none = []
priv_of (some o) = o.priv

-- the private half of the one-time prekey that a handshake names
unfoldable pub opk_priv : IdentityBundle → PqxdhInitWire → Bytes
unfolding priv_of
opk_priv me pq =
    if pq.opk_used && not (pq.opk_id == 0)
    then priv_of (find (λ (o : PreKey). o.id == pq.opk_id) me.opks)
    else []

module _ (env : Env) where
  respond_with :
      IdentityBundle → DecodedEnvelope → PqxdhInitWire → KeyPair → Option RatchetDecrypted
  respond_with me e pq spk =
      elim (env.crypto.pqxdh_respond
        (record {
          alice_ik_pub = pq.alice_ik_pub;
          alice_ek_pub = pq.alice_ek_pub;
          kyber_ciphertext = pq.kyber_ciphertext;
          opk_used = pq.opk_used;
        })
        me.identity.x25519_priv spk.priv (opk_priv me pq) me.identity.kyber1024_priv) [
          | none ↦ none
          | some shared ↦ elim (env.crypto.ratchet_init_bob shared spk.priv spk.pub_key) [
            | none ↦ none
            | some state ↦ env.crypto.ratchet_decrypt state e.ciphertext e.header
          ]
        ]

  -- the first prekey under which the handshake completes
  unfoldable pub try_prekeys :
      IdentityBundle → DecodedEnvelope → PqxdhInitWire → List KeyPair → Option RatchetDecrypted
  unfolding respond_with
  try_prekeys me e pq [] = none
  try_prekeys me e pq (spk ∷ rest) = elim (respond_with me e pq spk) [
    | some dec ↦ some dec
    | none ↦ try_prekeys me e pq rest
  ]

  -- forget the private half of a used one-time prekey
  unfoldable pub consume_opk : IdentityBundle → PqxdhInitWire → Exec Done
  consume_opk me pq =
      if pq.opk_used && any (λ (o : PreKey). o.id == pq.opk_id) me.opks
      then (do
        let opks = filter (λ (o : PreKey). not (o.id == pq.opk_id)) me.opks
        let me' = record me { opks = opks }
        modify (λ d. record d { bundle = some me' })
        catch tt (save_bundle env me')
        if ltb (length opks) opk_low_water then signal Event.prekey_upkeep else pure tt)
      else pure tt

  -- a message that no key opens: thrown if the crypto engine itself fails, so that it stays queued
  unfoldable pub or_engine_failure : IdentityBundle → Exec Done → Exec Done
  or_engine_failure me next = do
    healthy ← crypto_engine_healthy env me
    if healthy then next else throw crypto_fault

  unfoldable pub adopt_with : Delivery → PqxdhInitWire → Text → RatchetDecrypted → Exec Done
  adopt_with x pq ek dec = do
    on_store (λ s. record s {
      sessions = create_inbound_session s.sessions (sender_of x) dec.new_state env.now;
    })
    modify (
        upsert_inbound_contact (sender_of x) (if x.key_changed then [] else x.opened.sender_ed_pub)
          pq.alice_ik_pub env.now)
    signal Event.contacts
    on_store (λ s. record s { handshakes = Table.put s.handshakes ek env.now })
    consume_opk x.me pq
    handle_content env x dec.plaintext

  abbrev tell_if_known : Delivery → Exec Done
  tell_if_known x =
      if is_some x.prior_status
      then note_undecryptable env (sender_of x) (id_of x) x.time.anchor
      else pure tt

  adopt_or_drop : Delivery → PqxdhInitWire → Text → Option RatchetDecrypted → Exec Done
  adopt_or_drop x pq ek (some dec) = adopt_with x pq ek dec
  adopt_or_drop x pq ek none =
      or_engine_failure x.me (do tell_if_known x; ack_delivered env (id_of x))

  -- a handshake that was adopted before is a replay
  unfoldable pub adopt_handshake : Delivery → PqxdhInitWire → Exec Done
  unfolding adopt_or_drop
  adopt_handshake x pq = do
    let ek = to_hex pq.alice_ek_pub
    replayed ← gets (λ d. is_some (Table.get d.handshakes ek))
    if replayed
        then ack_delivered env (id_of x)
        else adopt_or_drop x pq ek (try_prekeys x.me x.envelope pq (spk_candidates x.me))

  abbrev tell_if_verified : Delivery → Exec Done
  tell_if_verified x =
      if x.verified then note_undecryptable env (sender_of x) (id_of x) x.time.anchor else pure tt

  -- the message does not open on our session: a reset, glare, or lost
  not_decrypted : Delivery → LoadedSession → Option PqxdhInitWire → Exec Done
  not_decrypted x s (some pq) =
      if s.received_ok then adopt_handshake x pq else ack_delivered env (id_of x)
  not_decrypted x s none =
      or_engine_failure x.me (do tell_if_verified x; ack_delivered env (id_of x))

  decrypted : Delivery → LoadedSession → Option RatchetDecrypted → Exec Done
  unfolding not_decrypted
  decrypted x s none = not_decrypted x s x.envelope.pqxdh
  decrypted x s (some dec) = do
    on_store
        (λ st. record st { sessions = save_ratchet_state st.sessions (sender_of x) dec.new_state })
    if s.received_ok
        then pure tt
        else on_store
            (λ st. record st { sessions = mark_session_received st.sessions (sender_of x) })
    handle_content env x dec.plaintext

  -- a first message with no handshake and no session can never be opened
  unfoldable pub on_session : Delivery → Option LoadedSession → Exec Done
  unfolding decrypted
  on_session x none = ack_delivered env (id_of x)
  on_session x (some s) =
      decrypted x s
        (env.crypto.ratchet_decrypt s.ratchet_state x.envelope.ciphertext x.envelope.header)

  choose_session : Delivery → Option LoadedSession → Option PqxdhInitWire → Exec Done
  choose_session x existing none = on_session x existing
  choose_session x existing (some pq) =
      if adopts_at_once existing (sender_of x) x.me.user_id
      then adopt_handshake x pq
      else on_session x existing

  -- a sender who is not blocked, with a handshake that is theirs if there is one
  unfoldable pub receive_from_peer : Delivery → Exec Done
  unfolding choose_session
  receive_from_peer x = do
    existing ← gets (λ d. load_session d.sessions (sender_of x))
    choose_session x existing x.envelope.pqxdh

  apply_sync : DeviceSyncWire → Exec Done
  apply_sync sync = modify (λ d.
      elim (open_sync_blob env.sync (to_hex sync.from_device) sync.blob d) [
        | none ↦ d
        | some r ↦ apply_sync_record r env.now_ms d
      ])

  -- only our own other device may add to what we sent
  unfoldable pub receive_sync : Delivery → DeviceSyncWire → Exec Done
  unfolding apply_sync
  receive_sync x sync =
      if not (sender_of x == x.me.user_id) || not x.opened.sender_verified
      then ack_delivered env (id_of x)
      else (do
        own ← gets (λ d. (my_device_id env.sync d).0)
        modify (λ d. (my_device_id env.sync d).1)
        if not (to_hex sync.to_device == own)
            then pure tt
            else do apply_sync sync; ack_delivered env (id_of x))

  pub screened : Delivery → Exec Done
  screened x = do
    blocked ← gets (λ d. is_blocked_contact d (sender_of x))
    if blocked || not (bound x) then ack_delivered env (id_of x) else do
      prior ← gets (λ d. contact_status d (sender_of x))
      receive_from_peer (record x { prior_status = prior })

  by_kind : Delivery → Option DeviceSyncWire → Exec Done
  by_kind x (some sync) = receive_sync x sync
  by_kind x none = screened x

  -- the delivery once it is unsealed; the prior status is read later
  unfoldable pub unsealed :
      WsMessage → IdentityBundle → TimeVerifyResult → SealedOpened → DecodedEnvelope → Exec Done
  unfolding screened by_kind
  unsealed ws me time opened e = do
    changed ← gets (λ d. is_key_changed d opened.sender_id opened.sender_ed_pub)
    by_kind
        (record {
          ws = ws;
          me = me;
          time = time;
          opened = opened;
          envelope = e;
          key_changed = changed;
          verified = opened.sender_verified && not changed;
          prior_status = none;
        })
        e.device_sync

  and_envelope :
      WsMessage
      → IdentityBundle
      → TimeVerifyResult
      → SealedOpened
      → Option DecodedEnvelope
      → Exec Done
  and_envelope ws me time opened none = or_engine_failure me (ack_delivered env ws.message_id)
  and_envelope ws me time opened (some e) = unsealed ws me time opened e

  and_opened : WsMessage → IdentityBundle → TimeVerifyResult → Option SealedOpened → Exec Done
  unfolding and_envelope
  and_opened ws me time none = or_engine_failure me (ack_delivered env ws.message_id)
  and_opened ws me time (some opened) =
      and_envelope ws me time opened (decode_envelope env.codec opened.plaintext)

  -- a delivery that we have not finished with
  unfoldable pub process : WsMessage → Exec Done
  unfolding and_opened
  process ws = do
    time ← gets (λ d. (check_delivery_time env.time (time_fields ws) d.clock).0)
    modify (λ d. record d { clock = (check_delivery_time env.time (time_fields ws) d.clock).1 })
    me ← my_bundle env
    blob ← await (Fault.error "base64") (env.atob ws.content)
    and_opened ws me time (
        env.crypto.sealed_sender_decrypt blob me.identity.x25519_priv (or_else time.anchor env.now))

  unfoldable pub receive_message : WsMessage → Exec Done
  receive_message ws = do
    finished ← gets (λ d. is_some (Table.get d.received ws.message_id))
    if finished then ack_message env ws.message_id else process ws
