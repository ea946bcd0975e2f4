-- ===== src/Messaging/Send/Gate.antt =====
-- Who a visible message may go to (apps/web/src/services/messaging.ts, `sealAndSend`).
use privex.Prelude.{◌≡◌, refl, String, Option, none, some, ℕ, nat_eq, string_eq, bytes_eq}
use privex.Crypto.Hex.{Bytes}
use privex.Db.Rows.{ContactStatus, accepted, pending_inbound, pending_outbound, blocked, Kind}
use privex.Db.Contacts as ContactStore
use privex.Db.Contacts.{PlainContact}
use privex.Wire.{IdentityBundle}
use privex.Device.{Device, Fault}
use privex.Exec
use privex.Exec.{Exec, Outcome, Done, thrown, await, ◌>>=◌}
use privex.Messaging.{Env, my_bundle}
use privex.Messaging.Bundle.{Loaded, missing, cached, filled, my_bundle-Loaded}
use privex.Messaging.Send.{
  LocalCopy, check_visible, check_status, recipient_key, seal_and_send, send_message,
}

module _ {A : Type 0} where
  -- the action throws, and has written nothing
  abbrev IsRefused : Exec A → Device → Type 0
  IsRefused m d = (f : Fault) × (m d ≡ (thrown f, d))

  at_status :
      (s : ContactStatus) (k : Done → Exec A) (d : Device)
      → ¬ (s ≡ accepted)
      → IsRefused (check_status s >>= k) d
  unfolding check_status ◌>>=◌
  at_status accepted k d h = absurd (h refl)
  at_status pending_inbound k d h = (_, refl)
  at_status pending_outbound k d h = (_, refl)
  at_status blocked k d h = (_, refl)

  at_key :
      (o : Option Bytes) (copy : LocalCopy) (c : PlainContact) (k : Bytes → Done → Exec A)
      (d : Device)
      → ¬ (c.status ≡ accepted)
      → IsRefused
          (do
            ik ← await (Fault.error "no recipient key - add this contact first") o
            u ← check_visible (some copy) (some c)
            k ik u)
          d
  unfolding check_visible ◌>>=◌
  at_key none copy c k d h = (_, refl)
  at_key (some ik) copy c k d h = at_status c.status (k ik) d h

  at_contact :
      (o : Option PlainContact) (copy : LocalCopy) (k : Bytes → Done → Exec A) (d : Device)
      → ((c : PlainContact) → o ≡ some c → ¬ (c.status ≡ accepted))
      → IsRefused
          (do
            ik ← await (Fault.error "no recipient key - add this contact first") (recipient_key o)
            u ← check_visible (some copy) o
            k ik u)
          d
  unfolding ◌>>=◌
  at_contact none copy k d h = (_, refl)
  at_contact (some c) copy k d h = at_key _ copy c k d (h c refl)

-- the device as it was, or with the stored identity in an empty cache
pub data IsUnwritten (d : Device) : Device → Type 0 where
  unchanged : IsUnwritten d d
  cache_filled :
      (me : IdentityBundle)
      → d.bundle ≡ none
      → d.saved ≡ some me
      → IsUnwritten d (record d { bundle = some me })

-- the action throws, and has written nothing but the cache of the identity
pub record IsStopped {A : Type 0} (d : Device) (r : Outcome A × Device) : Type 0 where
  pub fault : Fault
  pub after : Device
  pub throws : r ≡ (thrown fault, after)
  pub unwritten : IsUnwritten d after

module _ {A : Type 0} where
  at_loaded :
      (d : Device) (k : IdentityBundle → Exec A) (r : Outcome IdentityBundle × Device)
      → Loaded d r
      → ((me : IdentityBundle) → IsRefused (k me) d)
      → ((me : IdentityBundle) → IsRefused (k me) (record d { bundle = some me }))
      → IsStopped d (Exec.resume r.0 k r.1)
  at_loaded d k _ (missing f a b) h g = record {
    fault = f;
    after = d;
    throws = refl;
    unwritten = unchanged;
  }
  at_loaded d k _ (cached me a) h g =
      let (f, q) = h me in record { fault = f; after = d; throws = q; unwritten = unchanged }
  at_loaded d k _ (filled me a b) h g =
      let (f, q) = g me in
      record { fault = f; after = _; throws = q; unwritten = cache_filled me a b }

  at_bundle :
      (env : Env) (k : IdentityBundle → Exec A) (d : Device)
      → ((me : IdentityBundle) → IsRefused (k me) d)
      → ((me : IdentityBundle) → IsRefused (k me) (record d { bundle = some me }))
      → IsStopped d ((my_bundle env >>= k) d)
  unfolding ◌>>=◌
  at_bundle env k d h g = at_loaded d k (my_bundle env d) (my_bundle-Loaded env d) h g

-- A visible message to a contact that is not accepted, or to somebody who is not a contact, is not
-- sent: the call throws, and the device is as it was, but for an empty cache of the identity, which
-- may now hold the stored one.
pub send_message-IsStopped :
    (env : Env) (peer_id text : String) (ttl : Option ℕ) (d : Device)
    → ((c : PlainContact) → ContactStore.get d.contacts peer_id ≡ some c → ¬ (c.status ≡ accepted))
    → IsStopped d (send_message env peer_id text ttl d)
unfolding send_message seal_and_send ◌>>=◌
send_message-IsStopped env peer_id text ttl d h =
    let copy : LocalCopy = record { content = text; kind = Kind.text; receipt_token = none } in
    at_bundle env _ d (λ me. at_contact (ContactStore.get d.contacts peer_id) copy _ d h)
      (λ me.
        at_contact (ContactStore.get d.contacts peer_id) copy _ (record d { bundle = some me }) h)
