-- ===== src/Messaging/Send/Returns.antt =====
-- When a visible send returns (apps/web/src/services/messaging.ts, `sealAndSend`).
use privex.Prelude.{
  ◌≡◌, ◌⊎◌, inl, inr, refl, ◌≢◌, String, Bool, true, false, Option, none, some, [], ◌∷◌, ℕ, or_else,
  if◌then◌else◌, is_some, ◌==◌, nat_eq, string_eq, bytes_eq,
}
use privex.Crypto.Hex.{Bytes, Text}
use privex.Db.Rows.{MessageStatus, accepted}
use privex.Db.Contacts as ContactStore
use privex.Db.Contacts.{PlainContact}
use privex.Wire.{IdentityBundle, RatchetEncrypted}
use privex.Data.Sessions.{LoadedSession, load_session}
use privex.Device.{Device, Fault, Reply}
use privex.Exec.{Exec, Done, Outcome, done, thrown, pure, gets, modify, await, throw, ◌>>=◌, ◌>>◌}
use privex.Exec.Ends.{After, Ends, Ends-bind, Ends-if}
use privex.Messaging.Bundle.{my_bundle-cached}
use privex.Envelope.{encode_envelope, encode_text}
use privex.Receipts.{build_receipt_request}
use privex.Messaging.{
  Env, my_bundle, my_cert, add_message, usable, cached_or, cert_valid_seconds, crypto_fault,
}
use privex.Messaging.Send.{
  LocalCopy, check_visible, check_status, non_empty_key, or_start, open_session, clear_stash, post,
  after_post, park, keep_copy, is_refused, reply_of, seal_and_send, send_message,
  default_ttl_seconds, wire_of,
}

-- the action returns
abbrev Returns : {A : Type 0} → Exec A → Device → Type 0
Returns m d = Ends (λ a e. Unit {0}) (λ e. ⊥) m d

an_outcome :
    {A : Type 0} (r : Outcome A) (d : Device)
    → After (λ a e. Unit {0}) (λ e. ⊥) r d
    → (a : A) × (r ≡ done a)
an_outcome (done a) d h = (a, refl)
an_outcome (thrown f) d h = absurd h

returned : {A : Type 0} (m : Exec A) (d : Device) → Returns m d → (a : A) × ((m d).0 ≡ done a)
returned m d h = an_outcome (m d).0 (m d).1 h.ends

here :
    {A B : Type 0} (f : Fault) (b a : A) (k : A → Exec B) (d : Device)
    → some b ≡ some a
    → Returns (k a) d
    → Returns (k b) d
here f b a k d q h = let e : b ≡ a = cc in rw e h

module _ {A B : Type 0} where
  then_ :
      (m : Exec A) (k : A → Exec B) (d : Device)
      → Returns m d
      → ((a : A) (e : Device) → Returns (k a) e)
      → Returns (m >>= k) d
  then_ m k d h n = Ends-bind m k d h (λ a e t. n a e)

  given :
      (f : Fault) (o : Option A) (k : A → Exec B) (d : Device) (a : A)
      → o ≡ some a
      → Returns (k a) d
      → Returns (await f o >>= k) d
  unfolding await ◌>>=◌
  given f none k d a q h = cc
  given f (some b) k d a q h = record { ends = (here f b a k d q h).ends }

  read :
      (f : Device → A) (k : A → Exec B) (d : Device)
      → Returns (k (f d)) d
      → Returns (gets f >>= k) d
  unfolding gets ◌>>=◌
  read f k d h = record { ends = h.ends }

quiet : (f : Device → Device) (d : Device) → Returns (modify f) d
unfolding modify
quiet f d = record { ends = tt }

value : {A : Type 0} (a : A) (d : Device) → Returns (pure a) d
unfolding pure
value a d = record { ends = tt }

-- The crypto worker encrypts this content on the session, has or makes a certificate and seals, and the
-- server takes what was sealed or fails in a way that a retry can mend.
pub record CanSend (env : Env) (peer_id : String) (ttl : ℕ) (content : Bytes) (d : Device)
    (me : IdentityBundle) (c : PlainContact) (s : LoadedSession) : Type 0 where
  pub enc : RatchetEncrypted
  pub encrypts : env.crypto.ratchet_encrypt s.ratchet_state content ≡ some enc
  pub cert : Bytes
  pub certifies :
      (usable env d.cert_cache ≡ some cert)
      ⊎ ((usable env d.cert_cache ≡ none)
          × (env.crypto.generate_sender_cert me.user_id me.identity env.now cert_valid_seconds
              ≡ some cert))
  pub sealed : Bytes
  pub seals :
      env.crypto.sealed_sender_encrypt
        (encode_envelope env.codec enc.header enc.ciphertext s.pqxdh_init)
        cert
        c.ik_x25519
      ≡ some sealed
  pub answers :
      (status : ℕ)
      → env.send peer_id (env.btoa sealed) (some ttl) ≡ Reply.api_error status
      → is_refused status ≡ false

module _ {A B : Type 0} where
  -- an action that returns a value and leaves the device
  exactly :
      (m : Exec A) (k : A → Exec B) (d : Device) (a : A)
      → m d ≡ (done a, d)
      → Returns (k a) d
      → Returns (m >>= k) d
  unfolding ◌>>=◌
  exactly m k d a q h = record { ends = rw q h.ends }

  valued :
      (m : Exec A) (k : A → Exec B) (d : Device) (a : A)
      → (m d).0 ≡ done a
      → ((e : Device) → Returns (k a) e)
      → Returns (m >>= k) d
  unfolding ◌>>=◌
  valued m k d a q h = record { ends = rw q (h (m d).1).ends }

module _ (env : Env) (peer_id : String) (ttl : ℕ) where
  made_cert :
      (o made : Option Bytes) (cert : Bytes) (f : Bytes → Device → Device) (d : Device)
      → (o ≡ some cert) ⊎ ((o ≡ none) × (made ≡ some cert))
      → (cached_or env o (do c ← await crypto_fault made; modify (f c); pure c) d).0 ≡ done cert
  unfolding await modify pure ◌>>=◌
  made_cert (some c) made cert f d (inl q) = cc
  made_cert (some c) made cert f d (inr (q, r)) = absurd cc
  made_cert none made cert f d (inl q) = absurd cc
  made_cert none made cert f d (inr (q, r)) = rw r refl

  my_cert-done :
      (me : IdentityBundle) (cert : Bytes) (d : Device)
      → (usable env d.cert_cache ≡ some cert)
        ⊎ ((usable env d.cert_cache ≡ none)
            × (env.crypto.generate_sender_cert me.user_id me.identity env.now cert_valid_seconds
                ≡ some cert))
      → (my_cert env me d).0 ≡ done cert
  unfolding my_cert gets ◌>>=◌
  my_cert-done me cert d h = made_cert (usable env d.cert_cache) _ cert _ d h

  on_error :
      (refused : Bool) (status : ℕ) (m : Exec (String × MessageStatus)) (d : Device)
      → refused ≡ false
      → Returns m d
      → Returns (if refused then throw (Fault.api_error status) else m) d
  on_error true status m d q h = cc
  on_error false status m d q h = h

  after_post-Returns :
      (sealed : Text) (copy : Option LocalCopy) (r : Reply) (d : Device)
      → ((status : ℕ) → r ≡ Reply.api_error status → is_refused status ≡ false)
      → Returns (after_post env peer_id sealed copy ttl r) d
  unfolding after_post park
  after_post-Returns sealed copy (Reply.message_id id) d h = value _ d
  after_post-Returns sealed copy Reply.offline d h = then_ _ _ d (quiet _ d) (λ u e. value _ e)
  after_post-Returns sealed copy (Reply.api_error status) d h =
      on_error _ status _ d (h status refl) (
        then_ _ _ d (quiet _ d) λ u e.
          then_ _ _ e (Ends-if (status == 401) _ _ e (λ t. quiet _ e) (λ t. value _ e))
            (λ u e. value _ e))

  reply-Fine :
      (sealed : Text) (token : Option String)
      → ((status : ℕ)
          → env.send peer_id sealed (some ttl) ≡ Reply.api_error status
          → is_refused status ≡ false)
      → (status : ℕ) → reply_of env token peer_id sealed ttl ≡ Reply.api_error status
      → is_refused status ≡ false
  reply-Fine sealed none h status q = cc
  reply-Fine sealed (some t) h status q = h status q

  post-Returns :
      (sealed : Text) (copy : Option LocalCopy) (d : Device)
      → ((status : ℕ)
          → env.send peer_id sealed (some ttl) ≡ Reply.api_error status
          → is_refused status ≡ false)
      → Returns (post env peer_id sealed copy ttl) d
  unfolding post
  post-Returns sealed copy d h = read _ _ d (
      then_ _ _ d (quiet _ d)
        λ u e. after_post-Returns sealed copy _ e (reply-Fine sealed d.session_token h))

  keep_copy-Returns :
      (s : String × MessageStatus) (copy : LocalCopy) (d : Device)
      → Returns (keep_copy env peer_id s (some copy)) d
  unfolding keep_copy add_message
  keep_copy-Returns (id, status) copy d =
      then_ _ _ d (quiet _ d)
        λ u e. then_ _ _ e (quiet _ e) λ u e. then_ _ _ e (quiet _ e) λ u e. quiet _ e

  clear_stash-Returns : (s : LoadedSession) (d : Device) → Returns (clear_stash env peer_id s) d
  unfolding clear_stash
  clear_stash-Returns s d = Ends-if (is_some s.pqxdh_init) _ _ d (λ t. quiet _ d) (λ t. value tt d)

  opened :
      (o : Option LoadedSession) (s : LoadedSession) (d : Device)
      → o ≡ some s
      → (do
        session ← or_start env peer_id o
        await (Fault.error "no session - add this contact first") session)
          d
        ≡ (done s, d)
  unfolding pure await ◌>>=◌
  opened none s d q = absurd cc
  opened (some t) s d q = let e : t ≡ s = cc in rw e refl

  open_session-done :
      (s : LoadedSession) (d : Device)
      → load_session d.sessions peer_id ≡ some s
      → open_session env peer_id d ≡ (done s, d)
  unfolding open_session gets ◌>>=◌
  open_session-done s d q = opened (load_session d.sessions peer_id) s d q

  with_bundle :
      {A : Type 0} (k : IdentityBundle → Exec A) (d : Device) (me : IdentityBundle)
      → d.bundle ≡ some me
      → Returns (k me) d
      → Returns (my_bundle env >>= k) d
  unfolding ◌>>=◌
  with_bundle k d me q h = record { ends = rw (my_bundle-cached env d me q) h.ends }

  has_key : (ik : Bytes) → ik ≢ [] → non_empty_key ik ≡ some ik
  has_key [] h = absurd (h refl)
  has_key (b ∷ bs) h = refl

  passes :
      {A : Type 0} (o : Option PlainContact) (c : PlainContact) (copy : LocalCopy)
      (k : Done → Exec A) (d : Device)
      → o ≡ some c
      → c.status ≡ accepted
      → Returns (k tt) d
      → Returns (check_visible (some copy) o >>= k) d
  unfolding check_visible check_status ◌>>=◌
  passes o c copy k d q h n = rw (q, h) (record { ends = n.ends })

  seal_and_send-Returns :
      (content : Bytes) (copy : LocalCopy) (d : Device) (me : IdentityBundle) (c : PlainContact)
      (s : LoadedSession)
      → CanSend env peer_id ttl content d me c s
      → d.bundle ≡ some me
      → ContactStore.get d.contacts peer_id ≡ some c
      → c.ik_x25519 ≢ []
      → c.status ≡ accepted
      → load_session d.sessions peer_id ≡ some s
      → Returns (seal_and_send env peer_id content (some copy) ttl) d
  unfolding seal_and_send
  seal_and_send-Returns content copy d me c s w q₁ q₂ h₃ q₄ q₅ = with_bundle _ d me q₁ (
      read _ _ d (
        given _ _ _ d c.ik_x25519 (rw q₂ (has_key c.ik_x25519 h₃)) (
          passes _ c copy _ d q₂ q₄ (
            exactly _ _ d s (open_session-done s d q₅) (
              given _ _ _ d w.enc w.encrypts (
                valued _ _ d w.cert (my_cert-done me w.cert d w.certifies) λ e.
                  given _ _ _ e w.sealed w.seals (
                    then_ _ _ e (quiet _ e) λ u e. then_ _ _ e (clear_stash-Returns s e) λ u e.
                      then_ _ _ e (post-Returns (env.btoa w.sealed) (some copy) e w.answers)
                        λ sent e.
                          then_ _ _ e (keep_copy-Returns sent copy e) λ u e. value _ e)))))))

-- the content of a text, with the request for a receipt that the settings of the device give
abbrev pub content_of : Env → String → Device → Bytes
content_of env text d =
    encode_text env.codec text env.now (wire_of env (build_receipt_request d env.random))

pub send_message-Returns :
    (env : Env) (peer_id text : String) (ttl : Option ℕ) (d : Device) (me : IdentityBundle)
    (c : PlainContact) (s : LoadedSession)
    → CanSend env peer_id (or_else ttl default_ttl_seconds) (content_of env text d) d me c s
    → d.bundle ≡ some me
    → ContactStore.get d.contacts peer_id ≡ some c
    → c.ik_x25519 ≢ []
    → c.status ≡ accepted
    → load_session d.sessions peer_id ≡ some s
    → (id : String) × ((send_message env peer_id text ttl d).0 ≡ done id)
unfolding send_message
send_message-Returns env peer_id text ttl d me c s w q₁ q₂ h₃ q₄ q₅ = returned _ d (
    read _ _ d (
      seal_and_send-Returns env peer_id (or_else ttl default_ttl_seconds) _ _ d me c s w q₁ q₂ h₃ q₄
        q₅))
