-- ===== src/Messaging/Receive/Known.antt =====
-- What the stages of `receiveMessage` have established once a delivery from a peer is acted on, and
-- how a statement of the contacts and the messages is carried through the whole handler.
use privex.Prelude.{
  ℕ, String, ◌≡◌, refl, ap, sym, ◌∙◌, inl, inr, true, false, not, ◌&&◌, ◌||◌, Option, none, some,
  arith, Option-cases, or_else, is_some, ◌==◌, nat_eq, string_eq, bytes_eq,
}
use privex.Crypto.Hex.{Bytes, to_hex}
use privex.Db.Table
use privex.Db.Contacts as ContactStore
use privex.Wire.{IdentityBundle, SealedOpened, DecodedEnvelope, DeviceSyncWire}
use privex.TimeSync.{TimeVerifyResult, check_delivery_time}
use privex.Data.Contacts.{contact_status, is_blocked_contact, is_key_changed}
use privex.DeviceSync.{SyncRecord, apply_sync_record, my_device_id, open_sync_blob}
use privex.Device.{Device}
use privex.Exec.{Exec, Done, ◌>>=◌}
use privex.Exec.Keeps.{Keeps, Keeps-modify, Keeps-bind, Keeps-gets, Keeps-pure, Keeps-if}
use privex.Exec.Leads.{Leads, Leads-await, Leads-Keeps, Leads-if, Leads-gets, Leads-bind}
use privex.Messaging.{Env, my_bundle}
use privex.Messaging.Bundle.{own_bundle, Leads-my_bundle}
use privex.Messaging.Keeps.{Messages, OnTables, ack_message-Keeps, ack_delivered-Keeps}
use privex.Messaging.Receive.Context.{WsMessage, Delivery, time_fields, sender_of, bound}
use privex.Messaging.Receive.Content.Keeps.{Writes}
use privex.Messaging.Receive.Keeps.{receive_from_peer-Keeps, or_engine_failure-Keeps}
use privex.Messaging.Receive.{
  receive_sync, apply_sync, screened, by_kind, unsealed, and_envelope, and_opened, process,
  receive_message,
}

-- The crypto worker opens the content of the delivery so, with our own key, and at the time that the
-- server's stamp gives, or else at the time of the clock.
pub record Opens (env : Env) (d : Device) (ws : WsMessage) (o : SealedOpened) : Type 0 where
  pub blob : Bytes
  pub me : IdentityBundle
  pub mine : own_bundle d ≡ some me
  pub decoded : env.atob ws.content ≡ some blob
  pub opens :
      env.crypto.sealed_sender_decrypt blob me.identity.x25519_priv
        (or_else (check_delivery_time env.time (time_fields ws) d.clock).0.anchor env.now)
      ≡ some o

pub record Known (env : Env) (d : Device) (ws : WsMessage) (x : Delivery) : Type 0 where
  pub ws_eq : x.ws ≡ ws
  pub opens : Opens env d ws x.opened
  pub prior : x.prior_status ≡ contact_status d (sender_of x)
  pub changed : x.key_changed ≡ is_key_changed d (sender_of x) x.opened.sender_ed_pub
  pub verified : x.verified ≡ (x.opened.sender_verified && not x.key_changed)
  pub unblocked : is_blocked_contact d (sender_of x) ≡ false
  pub bound_ok : bound x ≡ true

-- a device with the contacts, the messages and the identity of another
pub record Same (d₀ d : Device) : Type 0 where
  pub contacts_eq : d.contacts ≡ d₀.contacts
  pub messages_eq : d.messages ≡ d₀.messages
  pub own_eq : own_bundle d ≡ own_bundle d₀

-- and with its clock
record Fresh (d₀ d : Device) : Type 0 where
  same : Same d₀ d
  clock_eq : d.clock ≡ d₀.clock

Leads-Fresh :
    {A : Type 0} {Q : Device → Type 0} (d₀ : Device) (m : Exec A)
    → Leads (Same d₀) Q m
    → Leads (Fresh d₀) Q m
Leads-Fresh d₀ m h = record { at = λ d p. h.at d p.same }

is_key_changed-Same :
    (d₀ d : Device) (px_id : String) (key : Bytes)
    → Same d₀ d
    → is_key_changed d px_id key ≡ is_key_changed d₀ px_id key
unfolding is_key_changed
is_key_changed-Same d₀ d px_id key s = rw s.contacts_eq refl

is_blocked_contact-Same :
    (d₀ d : Device) (px_id : String)
    → Same d₀ d
    → is_blocked_contact d px_id ≡ is_blocked_contact d₀ px_id
unfolding is_blocked_contact
is_blocked_contact-Same d₀ d px_id s = rw s.contacts_eq refl

module _ (env : Env) {R : ContactStore.Contacts → Messages → Type 0} (ws : WsMessage) (d₀ : Device)
    (start : R d₀.contacts d₀.messages) (peer : (x : Delivery) → Known env d₀ ws x → Writes env R x)
    (synced : (r : SyncRecord) (now : ℕ) (d : Device)
      → R d.contacts d.messages
      → R (apply_sync_record r now d).contacts (apply_sync_record r now d).messages) where
  begun : (d : Device) → Same d₀ d → OnTables R d
  begun d s = record { holds = rw s.contacts_eq (rw s.messages_eq start) }

  -- a delivery of which all but the screening is known
  record IsRead (x : Delivery) : Type 0 where
    read_ws : x.ws ≡ ws
    read_opens : Opens env d₀ ws x.opened
    read_changed : x.key_changed ≡ is_key_changed d₀ (sender_of x) x.opened.sender_ed_pub
    read_verified : x.verified ≡ (x.opened.sender_verified && not x.key_changed)

  Known-after :
      (x : Delivery) (d e : Device)
      → IsRead x
      → Same d₀ d
      → Same d₀ e
      → (is_blocked_contact d (sender_of x) || not (bound x)) ≡ false
      → Known env d₀ ws (record x { prior_status = contact_status e (sender_of x) })
  unfolding bound
  Known-after x d e k s t p = record {
    ws_eq = k.read_ws;
    opens = k.read_opens;
    prior = rw t.contacts_eq refl;
    changed = k.read_changed;
    verified = k.read_verified;
    unblocked = sym (is_blocked_contact-Same d₀ d (sender_of x) s) ∙ ground arith;
    bound_ok = ground arith;
  }

  screened-Leads : (x : Delivery) → IsRead x → Leads (Same d₀) (OnTables R) (screened env x)
  unfolding screened
  screened-Leads x k = Leads-gets _ _ λ d s.
      Leads-if (is_blocked_contact d (sender_of x) || not (bound x)) _ _
        (λ _. Leads-Keeps _ begun (ack_delivered-Keeps env _))
        (λ p. Leads-gets _ _ λ e t.
          Leads-Keeps _ begun (receive_from_peer-Keeps env _ (peer _ (Known-after x d e k s t p))))

  my_device_id-On : (d : Device) → OnTables R d → OnTables R (my_device_id env.sync d).1
  unfolding my_device_id
  my_device_id-On d h = record { holds = ground (arith, h.holds) }

  apply_sync-Keeps : (sync : DeviceSyncWire) → Keeps (OnTables R) (apply_sync env sync)
  unfolding apply_sync
  apply_sync-Keeps sync = Keeps-modify _ λ d h.
      elim (Option-cases (open_sync_blob env.sync (to_hex sync.from_device) sync.blob d)) [
        | inl q ↦ rw q h
        | inr (r, q) ↦ rw q (record { holds = synced r env.now_ms d h.holds })
      ]

  receive_sync-Keeps :
      (x : Delivery) (sync : DeviceSyncWire) → Keeps (OnTables R) (receive_sync env x sync)
  unfolding receive_sync
  receive_sync-Keeps x sync =
      Keeps-if (not (sender_of x == x.me.user_id) || not x.opened.sender_verified) _ _
        (λ _. ack_delivered-Keeps env _)
        (λ _. Keeps-bind _ _ (Keeps-gets _) λ own.
          Keeps-bind _ _ (Keeps-modify _ my_device_id-On) λ _.
            Keeps-if (not (to_hex sync.to_device == own)) _ _ (λ _. Keeps-pure tt)
              (λ _. Keeps-bind _ _ (apply_sync-Keeps sync) λ _. ack_delivered-Keeps env _))

  by_kind-Leads :
      (x : Delivery) (o : Option DeviceSyncWire)
      → IsRead x
      → Leads (Same d₀) (OnTables R) (by_kind env x o)
  unfolding by_kind
  by_kind-Leads x none k = screened-Leads x k
  by_kind-Leads x (some sync) k = Leads-Keeps _ begun (receive_sync-Keeps x sync)

  unsealed-Leads :
      (me : IdentityBundle) (time : TimeVerifyResult) (o : SealedOpened) (e : DecodedEnvelope)
      → Opens env d₀ ws o
      → Leads (Same d₀) (OnTables R) (unsealed env ws me time o e)
  unfolding unsealed
  unsealed-Leads me time o e h = Leads-gets _ _ λ d s. by_kind-Leads _ e.device_sync (record {
    read_ws = refl;
    read_opens = h;
    read_changed = is_key_changed-Same d₀ d _ _ s;
    read_verified = refl;
  })

  and_opened-Leads :
      (me : IdentityBundle) (time : TimeVerifyResult) (o : Option SealedOpened)
      → ((s : SealedOpened) → o ≡ some s → Opens env d₀ ws s)
      → Leads (Same d₀) (OnTables R) (and_opened env ws me time o)
  unfolding and_opened and_envelope
  and_opened-Leads me time none h =
      Leads-Keeps _ begun (or_engine_failure-Keeps env me _ (ack_delivered-Keeps env _))
  and_opened-Leads me time (some o) h = in_envelope _
    where
      in_envelope :
          (e : Option DecodedEnvelope)
          → Leads (Same d₀) (OnTables R) (and_envelope env ws me time o e)
      in_envelope none =
          Leads-Keeps _ begun (or_engine_failure-Keeps env me _ (ack_delivered-Keeps env _))
      in_envelope (some e) = unsealed-Leads me time o e (h o refl)

  clock_Same :
      (d : Device)
      → Same d₀ d
      → Same d₀ (record d { clock = (check_delivery_time env.time (time_fields ws) d.clock).1 })
  clock_Same d s = record {
    contacts_eq = s.contacts_eq;
    messages_eq = s.messages_eq;
    own_eq = s.own_eq;
  }

  -- the identity as it is read, from the cache or into it
  bundle_Leads :
      (k : IdentityBundle → Exec Done)
      → ((me : IdentityBundle) → own_bundle d₀ ≡ some me → Leads (Same d₀) (OnTables R) (k me))
      → Leads (Same d₀) (OnTables R) (my_bundle env >>= k)
  bundle_Leads k h =
      Leads-my_bundle env (own_bundle d₀)
        (λ d me s a b. record {
          contacts_eq = s.contacts_eq;
          messages_eq = s.messages_eq;
          own_eq = ground (arith, s.own_eq);
        })
        (λ d s. s.own_eq) k begun h

  process-Leads : Leads (Fresh d₀) (OnTables R) (process env ws)
  unfolding process
  process-Leads = Leads-gets _ _ λ d f. Leads-Fresh d₀ _ (
      Leads-bind _ _ begun (Keeps-modify _ clock_Same) λ _. bundle_Leads _ λ me mine.
        Leads-await _ _ _ begun λ blob b. and_opened-Leads me _ _ (λ o e. record {
          blob = blob;
          me = me;
          mine = mine;
          decoded = b;
          opens =
              ap
                (λ (t : TimeVerifyResult).
                  env.crypto.sealed_sender_decrypt blob me.identity.x25519_priv
                    (or_else t.anchor env.now))
                (sym (time_eq d f))
              ∙ e;
        }))
    where
      time_eq :
          (d : Device)
          → Fresh d₀ d
          → (check_delivery_time env.time (time_fields ws) d.clock).0
            ≡ (check_delivery_time env.time (time_fields ws) d₀.clock).0
      time_eq d f = ap (λ c. (check_delivery_time env.time (time_fields ws) c).0) f.clock_eq

  -- A statement of the contacts and the messages that holds before a delivery holds after it, if the
  -- writes that a known delivery from a peer may make keep it, and a synced copy of our own does.
  pub receive_message-On : OnTables R (receive_message env ws d₀).1
  unfolding receive_message
  receive_message-On = all.at d₀ (record {
    same = record { contacts_eq = refl; messages_eq = refl; own_eq = refl };
    clock_eq = refl;
  })
    where
      all : Leads (Fresh d₀) (OnTables R) (receive_message env ws)
      all = Leads-gets _ _ λ e t.
          Leads-if (is_some (Table.get e.received ws.message_id)) _ _
            (λ _. Leads-Fresh d₀ _ (Leads-Keeps _ begun (ack_message-Keeps env _)))
            (λ _. process-Leads)
