-- ===== src/Messaging/Receive/Answered.antt =====
-- The acknowledgements of `receiveMessage` (apps/web/src/services/messaging.ts).
use privex.Prelude.{
  String, ◌≡◌, refl, sym, ◌∙◌, ◌≢◌, inl, inr, true, not, ◌||◌, Option, none, some, List, arith,
  if◌then◌else◌, Option-cases, ap, or_else, eq_of_beq, is_some, ◌==◌, list_beq_iff, nat_eq,
  string_eq, bytes_eq,
}
use privex.Crypto.Hex.{Text, to_hex}
use privex.Db.Table
use privex.Wire.{IdentityBundle, SealedOpened, DecodedEnvelope, DeviceSyncWire}
use privex.Envelope.{decode_envelope}
use privex.TimeSync.{TimeVerifyResult, check_delivery_time}
use privex.DeviceSync.{my_device_id, apply_sync_record, open_sync_blob}
use privex.Device.{Device}
use privex.Exec.{Exec, Done, pure, ◌>>=◌, ◌>>◌}
use privex.Exec.Keeps.{Keeps, Keeps-modify}
use privex.Messaging.{Env, my_bundle, ack_delivered}
use privex.Messaging.Bundle.{own_bundle, Acks-my_bundle}
use privex.Messaging.Acks.{
  Quiet, AckOf, Acks, Acks-skip, Acks-if, Acks-any, Acks-bind, Acks-gets, Acks-await,
  ack_message-Acks, ack_delivered-Acks,
}
use privex.Messaging.Receive.Context.{WsMessage, Delivery, sender_of, time_fields}
use privex.Messaging.Receive.Known.{Opens}
use privex.Messaging.Receive.Acks.{or_engine_failure-Acks, screened-Acks}
use privex.Messaging.Receive.{
  or_engine_failure, receive_sync, apply_sync, by_kind, unsealed, and_envelope, and_opened, process,
  receive_message,
}

-- The delivery is a copy that our own account sent to another device than this.
pub record IsForAnotherDevice (env : Env) (ws : WsMessage) (d : Device) : Type 0 where
  pub cert : SealedOpened
  pub opens : Opens env d ws cert
  pub me : IdentityBundle
  pub mine : own_bundle d ≡ some me
  pub from_us : cert.sender_id ≡ me.user_id
  pub verified : cert.sender_verified ≡ true
  pub envelope : DecodedEnvelope
  pub decoded : decode_envelope env.codec cert.plaintext ≡ some envelope
  pub sync : DeviceSyncWire
  pub is_sync : envelope.device_sync ≡ some sync
  pub elsewhere : to_hex sync.to_device ≢ (my_device_id env.sync d).0

-- a device with the id and the identity of another
record SameId (d₀ d : Device) : Type 0 where
  id_eq : d.device_id ≡ d₀.device_id
  own_eq : own_bundle d ≡ own_bundle d₀

-- and with its clock
record Fresh (d₀ d : Device) : Type 0 where
  same : SameId d₀ d
  clock_eq : d.clock ≡ d₀.clock

Acks-Fresh :
    {A : Type 0} {id : String} {S : Type 0} (d₀ : Device) (m : Exec A)
    → Acks (SameId d₀) id S m
    → Acks (Fresh d₀) id S m
Acks-Fresh d₀ m h = record { at = λ d p. h.at d p.same }

my_device_id-SameId :
    (env : Env) (d₀ d : Device)
    → SameId d₀ d
    → (my_device_id env.sync d).0 ≡ (my_device_id env.sync d₀).0
unfolding my_device_id
my_device_id-SameId env d₀ d s = ground arith

module _ (env : Env) (ws : WsMessage) (d₀ : Device) where
  abbrev Elsewhere : Type 0
  Elsewhere = IsForAnotherDevice env ws d₀

  -- an action that acknowledges this delivery once, from a device with the same id
  abbrev Answers : Exec Done → Type 0
  Answers m = Acks (SameId d₀) ws.message_id Elsewhere m

  answers : {P : Device → Type 0} → Acks P ws.message_id Elsewhere (ack_delivered env ws.message_id)
  answers = Acks-any _ (ack_delivered-Acks env ws.message_id)

  apply_sync-Quiet :
      (sync : DeviceSyncWire) (a : List String) → Keeps (Quiet a) (apply_sync env sync)
  unfolding apply_sync apply_sync_record
  apply_sync-Quiet sync a = Keeps-modify _ λ d h.
      elim (Option-cases (open_sync_blob env.sync (to_hex sync.from_device) sync.blob d)) [
        | inl q ↦ rw q h
        | inr (r, q) ↦ rw q (record { holds = h.holds })
      ]

  my_device_id-Quiet :
      (a : List String) (d : Device) → Quiet a d → Quiet a (my_device_id env.sync d).1
  unfolding my_device_id
  my_device_id-Quiet a d h = record { holds = ground (arith, h.holds) }

  for_this_device :
      (sync : DeviceSyncWire) (own : Text)
      → (to_hex sync.to_device ≢ own → Elsewhere)
      → Acks
          (λ d. Unit)
          ws.message_id
          Elsewhere
          (if not (to_hex sync.to_device == own)
            then pure tt
            else (do apply_sync env sync; ack_delivered env ws.message_id))
  for_this_device sync own h =
      Acks-if (not (to_hex sync.to_device == own)) _ _
        (λ p. Acks-skip (h (λ e. ground (arith, list_beq_iff (to_hex sync.to_device) own))) tt)
        (λ p. Acks-bind _ _ (record { at = λ d q. tt }) (apply_sync-Quiet sync) λ _. answers)

module _ (env : Env) (d₀ : Device) where
  receive_sync-Acks :
      (x : Delivery) (sync : DeviceSyncWire)
      → own_bundle d₀ ≡ some x.me
      → Opens env d₀ x.ws x.opened
      → decode_envelope env.codec x.opened.plaintext ≡ some x.envelope
      → x.envelope.device_sync ≡ some sync
      → Answers env x.ws d₀ (receive_sync env x sync)
  unfolding receive_sync
  receive_sync-Acks x sync own o dec is =
      Acks-if (not (sender_of x == x.me.user_id) || not x.opened.sender_verified) _ _
        (λ _. answers env x.ws d₀)
        (λ p. Acks-gets _ _ λ d s. Acks-any _ (
          Acks-bind _ _ (record { at = λ e q. tt })
            (λ a. Keeps-modify _ (my_device_id-Quiet env x.ws d₀ a))
            λ _. for_this_device env x.ws d₀ sync _ (λ ne. record {
              cert = x.opened;
              opens = o;
              me = x.me;
              mine = own;
              from_us = eq_of_beq (sender_of x) x.me.user_id (ground arith);
              verified = ground arith;
              envelope = x.envelope;
              decoded = dec;
              sync = sync;
              is_sync = is;
              elsewhere = λ e. ne (e ∙ sym (my_device_id-SameId env d₀ d s));
            })))

  by_kind-Acks :
      (x : Delivery) (o : Option DeviceSyncWire)
      → own_bundle d₀ ≡ some x.me
      → Opens env d₀ x.ws x.opened
      → decode_envelope env.codec x.opened.plaintext ≡ some x.envelope
      → x.envelope.device_sync ≡ o
      → Answers env x.ws d₀ (by_kind env x o)
  unfolding by_kind
  by_kind-Acks x none own o dec is = Acks-any _ (screened-Acks env _ x)
  by_kind-Acks x (some sync) own o dec is = receive_sync-Acks x sync own o dec is

module _ (env : Env) (ws : WsMessage) (d₀ : Device) where
  unsealed-Acks :
      (me : IdentityBundle) (time : TimeVerifyResult) (o : SealedOpened) (e : DecodedEnvelope)
      → own_bundle d₀ ≡ some me
      → Opens env d₀ ws o
      → decode_envelope env.codec o.plaintext ≡ some e
      → Answers env ws d₀ (unsealed env ws me time o e)
  unfolding unsealed
  unsealed-Acks me time o e own h dec =
      Acks-gets _ _ λ d s. by_kind-Acks env d₀ _ e.device_sync own h dec refl

  healthy-Answers :
      (me : IdentityBundle)
      → Answers env ws d₀ (or_engine_failure env me (ack_delivered env ws.message_id))
  healthy-Answers me = Acks-any _ (or_engine_failure-Acks env _ _ me _ (answers env ws d₀))

  and_envelope-Acks :
      (me : IdentityBundle) (time : TimeVerifyResult) (o : SealedOpened)
      (e : Option DecodedEnvelope)
      → own_bundle d₀ ≡ some me
      → Opens env d₀ ws o
      → decode_envelope env.codec o.plaintext ≡ e
      → Answers env ws d₀ (and_envelope env ws me time o e)
  unfolding and_envelope
  and_envelope-Acks me time o none own h dec = healthy-Answers me
  and_envelope-Acks me time o (some e) own h dec = unsealed-Acks me time o e own h dec

  and_opened-Acks :
      (me : IdentityBundle) (time : TimeVerifyResult) (o : Option SealedOpened)
      → own_bundle d₀ ≡ some me
      → ((s : SealedOpened) → o ≡ some s → Opens env d₀ ws s)
      → Answers env ws d₀ (and_opened env ws me time o)
  unfolding and_opened
  and_opened-Acks me time none own h = healthy-Answers me
  and_opened-Acks me time (some o) own h = and_envelope-Acks me time o _ own (h o refl) refl

  checked : Device → Device
  checked d = record d { clock = (check_delivery_time env.time (time_fields ws) d.clock).1 }

  clock_SameId : (d : Device) → SameId d₀ d → SameId d₀ (checked d)
  unfolding checked
  clock_SameId d s = record { id_eq = s.id_eq; own_eq = s.own_eq }

  clock_Quiet : (a : List String) (d : Device) → Quiet a d → Quiet a (checked d)
  unfolding checked
  clock_Quiet a d s = record { holds = s.holds }

  -- the identity as it is read, from the cache or into it
  bundle_Acks :
      (k : IdentityBundle → Exec Done)
      → ((me : IdentityBundle) → own_bundle d₀ ≡ some me → Answers env ws d₀ (k me))
      → Answers env ws d₀ (my_bundle env >>= k)
  bundle_Acks k h =
      Acks-my_bundle env (own_bundle d₀)
        (λ d me s a b. record { id_eq = s.id_eq; own_eq = ground (arith, s.own_eq) })
        (λ d s. s.own_eq) k h

  process-Acks : Acks (Fresh d₀) ws.message_id (Elsewhere env ws d₀) (process env ws)
  unfolding process checked
  process-Acks = Acks-gets _ _ λ d f. Acks-Fresh d₀ _ (
      Acks-bind _ _ (Keeps-modify _ clock_SameId) (λ a. Keeps-modify _ (clock_Quiet a))
        λ _. bundle_Acks _ λ me mine. Acks-await _ _ _ λ blob b. and_opened-Acks me _ _ mine (λ o e.
          record {
            blob = blob;
            me = me;
            mine = mine;
            decoded = b;
            opens =
                ap
                  (λ (t : TimeVerifyResult).
                    env.crypto.sealed_sender_decrypt blob me.identity.x25519_priv
                      (or_else t.anchor env.now))
                  (sym (time_eq d f))
                ∙ e;
          }))
    where
      time_eq :
          (d : Device)
          → Fresh d₀ d
          → (check_delivery_time env.time (time_fields ws) d.clock).0
            ≡ (check_delivery_time env.time (time_fields ws) d₀.clock).0
      time_eq d f = ap (λ c. (check_delivery_time env.time (time_fields ws) c).0) f.clock_eq

  received_once : Acks (Fresh d₀) ws.message_id (Elsewhere env ws d₀) (receive_message env ws)
  unfolding receive_message
  received_once = Acks-gets _ _ λ e t.
      Acks-if (is_some (Table.get e.received ws.message_id)) _ _
        (λ _. Acks-any _ (ack_message-Acks env _)) (λ _. process-Acks)

-- Handling a delivery that returns has acknowledged it to the server exactly once, unless the
-- delivery is a copy to another device than this, with a verified certificate of our own account; one
-- that throws has acknowledged nothing, so that the server keeps the message and delivers it again.
pub receive_message-AckOf :
    (env : Env) (ws : WsMessage) (d : Device)
    → AckOf ws.message_id
        (IsForAnotherDevice env ws d)
        d.acks
        (receive_message env ws d).0
        (receive_message env ws d).1.acks
receive_message-AckOf env ws d =
    (received_once env ws d).at d
      (record { same = record { id_eq = refl; own_eq = refl }; clock_eq = refl })
