-- ===== src/Messaging/Send/Kept.antt =====
-- What a visible send that returns leaves behind (apps/web/src/services/messaging.ts, `sealAndSend`).
use privex.Prelude.{
  ◌≡◌, ◌≢◌, refl, sym, String, Option, none, some, [], ◌∷◌, ◌++◌, ℕ, arith, Bool, true, false, In,
  In-right, inl, inr, ◌⊎◌, or_else, if◌then◌else◌, is_some, ◌==◌, nat_eq, string_eq, bytes_eq,
}
use privex.Crypto.Hex.{Bytes, Text}
use privex.Db.Table
use privex.Db.Table.{get-put}
use privex.Db.Rows.{MessageRow, MessageStatus, OutboxRow, outbound}
use privex.Device.{Device, Post, Reply, Event, Fault, emit}
use privex.Outbox.{enqueue}
use privex.Exec.{Exec, Outcome, done, pure, throw, ◌>>=◌, ◌>>◌}
use privex.Exec.Yields.{Yields, Yields-bind, Yields-then}
use privex.Db.Rows.{accepted}
use privex.Db.Contacts as ContactStore
use privex.Db.Contacts.{PlainContact}
use privex.Wire.{IdentityBundle}
use privex.Data.Sessions.{LoadedSession, load_session}
use privex.Messaging.Send.Returns.{CanSend, content_of, send_message-Returns}
use privex.Messaging.{Env, add_message, signal}
use privex.Messaging.Send.{
  LocalCopy, after_post, post, park, keep_copy, copy_row, seal_and_send, send_message, is_refused,
  reply_of, default_ttl_seconds,
}

module _ (env : Env) (peer_id : String) (ttl : ℕ) where
  -- the message went out to the peer, and the server gave it its id
  pub record IsPosted (id : String) (p : Post) : Type 0 where
    pub to : p.peer_id ≡ peer_id
    pub expires : p.ttl_seconds ≡ some ttl
    pub answered : env.send peer_id p.content_b64 (some ttl) ≡ Reply.message_id id

  -- the message waits in the outbox, under the id of its row
  pub record IsParked (id : String) (r : OutboxRow) : Type 0 where
    pub to : r.peer_id ≡ peer_id
    pub expires : r.ttl_seconds ≡ some ttl
    pub answers : r.local_msg_id ≡ id

  abbrev pub Fate : String → MessageStatus → Device → Type 0
  Fate id status d =
      ((status ≡ MessageStatus.sent) × ((p : Post) × In p d.posts × IsPosted id p))
      ⊎ ((status ≡ MessageStatus.queued) × ((r : OutboxRow) × In r d.outbox × IsParked id r))

  -- the visible row of the message, and its fate
  pub record IsKept (content : String) (id : String) (d : Device) : Type 0 where
    pub row : MessageRow
    pub stored : Table.get d.messages id ≡ some row
    pub session : row.session_id ≡ peer_id
    pub text : row.content ≡ content
    pub sent_by_us : row.direction ≡ outbound
    pub fate : Fate id row.status d

  module _ (copy : LocalCopy) where
    abbrev Sent : String × MessageStatus → Device → Type 0
    Sent s d = Fate s.0 s.1 d

    parked :
        (sealed : Text) (d : Device)
        → Sent
            (env.uuid, MessageStatus.queued)
            (enqueue peer_id sealed env.uuid (some ttl) env.now_ms d)
    unfolding enqueue
    parked sealed d = inr (
      refl,
      (_, In-right _ d.outbox _ (inl refl), record { to = refl; expires = refl; answers = refl }),
    )

    returned :
        (s₀ : String × MessageStatus) (e : Device)
        → Sent s₀ e
        → (s : String × MessageStatus)
        → ◌≡◌ {A = Outcome (String × MessageStatus)} (done s₀) (done s)
        → Sent s e
    returned s₀ e h s q = let e₁ : s ≡ s₀ = cc in rw e₁ h

    kept :
        (id : String) (status : MessageStatus) (d : Device)
        → Fate id status d
        → (b : String) → ◌≡◌ {A = Outcome String} (done id) (done b)
        → IsKept copy.content b (keep_copy env peer_id (id, status) (some copy) d).1
    unfolding keep_copy add_message ◌>>=◌
    kept id status d f b q =
        let e₁ : b ≡ id = cc in
        rw e₁ (record {
          row = copy_row env peer_id id status copy;
          stored = rw get-put (ground (arith, string_eq.same_iff id id));
          session = refl;
          text = refl;
          sent_by_us = refl;
          fate = f;
        })

    keep_copy-Yields :
        (s : String × MessageStatus) (d : Device)
        → Sent s d
        → (b : String) → ((keep_copy env peer_id s (some copy) >> pure (s.0)) d).0 ≡ done b
        → IsKept copy.content b ((keep_copy env peer_id s (some copy) >> pure (s.0)) d).1
    unfolding ◌>>=◌ keep_copy add_message
    keep_copy-Yields (id, status) d f b q = kept id status d f b q

    -- an answer with an error status
    abbrev on_error : Bool → Bool → Text → ℕ → Exec (String × MessageStatus)
    on_error refused expired sealed status = if refused then throw (Fault.api_error status) else (do
      park env peer_id sealed (some copy) ttl
      if expired then signal Event.reauthenticate else pure tt
      pure (env.uuid, MessageStatus.queued))

    answered :
        (refused expired : Bool) (sealed : Text) (status : ℕ) (d : Device)
        (s : String × MessageStatus)
        → (on_error refused expired sealed status d).0 ≡ done s
        → Sent s (on_error refused expired sealed status d).1
    unfolding park ◌>>=◌
    answered true expired sealed status d s q = absurd cc
    answered false true sealed status d s q =
        returned (env.uuid, MessageStatus.queued)
          (emit Event.reauthenticate (enqueue peer_id sealed env.uuid (some ttl) env.now_ms d))
          (parked sealed d) s q
    answered false false sealed status d s q =
        returned (env.uuid, MessageStatus.queued)
          (enqueue peer_id sealed env.uuid (some ttl) env.now_ms d) (parked sealed d) s q

    after_post-Yields :
        (sealed : Text) (token : Option String) (d : Device)
        → ((t : String)
            → token ≡ some t
            → In
                (record { peer_id = peer_id; content_b64 = sealed; ttl_seconds = some ttl })
                d.posts)
        → (r : Reply) → r ≡ reply_of env token peer_id sealed ttl
        → (s : String × MessageStatus)
        → (after_post env peer_id sealed (some copy) ttl r d).0 ≡ done s
        → Sent s (after_post env peer_id sealed (some copy) ttl r d).1
    unfolding after_post ◌>>=◌
    after_post-Yields sealed none d h (Reply.message_id id) e s q = cc
    after_post-Yields sealed (some t) d h (Reply.message_id id) e s q =
        returned (id, MessageStatus.sent) d
          (inl (refl, (_, h t refl, record { to = refl; expires = refl; answered = sym e }))) s q
    after_post-Yields sealed token d h Reply.offline e s q =
        returned (env.uuid, MessageStatus.queued)
          (enqueue peer_id sealed env.uuid (some ttl) env.now_ms d) (parked sealed d) s q
    after_post-Yields sealed token d h (Reply.api_error status) e s q =
        answered (is_refused status) (status == 401) sealed status d s q

    abbrev posted : Text → Post
    posted sealed = record { peer_id = peer_id; content_b64 = sealed; ttl_seconds = some ttl }

    went :
        (sealed : Text) (token : Option String) (d : Device) (s : String × MessageStatus)
        → let e = if is_some token then record d { posts = d.posts ++ posted sealed ∷ [] } else d in
          (after_post env peer_id sealed
              (some copy)
              ttl
              (reply_of env token peer_id sealed ttl)
              e).0
            ≡ done s
          → Sent s
              (after_post env peer_id sealed
                (some copy)
                ttl
                (reply_of env token peer_id sealed ttl)
                e).1
    went sealed none d s q = after_post-Yields sealed none d (λ t h. absurd cc) _ refl s q
    went sealed (some t) d s q =
        after_post-Yields sealed (some t) (record d { posts = d.posts ++ posted sealed ∷ [] })
          (λ u h. In-right (posted sealed) d.posts _ (inl refl)) _ refl s q

    post-Yields : (sealed : Text) → Yields Sent (post env peer_id sealed (some copy) ttl)
    unfolding post ◌>>=◌
    post-Yields sealed = record { at = λ d. went sealed d.session_token d }

    send-Yields :
        (content : Bytes)
        → Yields (IsKept copy.content) (seal_and_send env peer_id content (some copy) ttl)
    unfolding seal_and_send
    send-Yields content = Yields-bind _ _ _ λ me. Yields-bind _ _ _ λ contact.
        Yields-bind _ _ _ λ ik. Yields-bind _ _ _ λ _. Yields-bind _ _ _ λ session.
          Yields-bind _ _ _ λ enc. Yields-bind _ _ _ λ cert. Yields-bind _ _ _ λ sealed.
            Yields-bind _ _ _ λ _.
              Yields-bind _ _ _
                λ _. Yields-then Sent _ _ _ (post-Yields (env.btoa sealed)) keep_copy-Yields

row_of_send :
    (env : Env) (peer_id text : String) (ttl : Option ℕ) (d : Device) (id : String)
    → (send_message env peer_id text ttl d).0 ≡ done id
    → IsKept env peer_id
        (or_else ttl default_ttl_seconds)
        text
        id
        (send_message env peer_id text ttl d).1
unfolding send_message
row_of_send env peer_id text ttl d id q =
    (Yields-bind _ _ _ λ receipt. send-Yields env peer_id (or_else ttl default_ttl_seconds) _ _).at
      d id q

-- A visible send returns an id, if the identity is loaded, the peer is an accepted contact with a key
-- and a session, the crypto worker encrypts the text on that session and seals it under a certificate,
-- cached or made, and the server does not refuse what was sealed. Then the table
-- of messages holds a row of our own under that id, with the peer's conversation and the text that was
-- typed; and either the row is marked sent and a post to that peer, with the time to live, was
-- answered with that id, or the row is marked queued and a row of the outbox carries that id, that
-- peer and that time to live.
pub send_message-IsKept :
    (env : Env) (peer_id text : String) (ttl : Option ℕ) (d : Device) (me : IdentityBundle)
    (c : PlainContact) (s : LoadedSession)
    → CanSend env peer_id (or_else ttl default_ttl_seconds) (content_of env text d) d me c s
    → d.bundle ≡ some me
    → ContactStore.get d.contacts peer_id ≡ some c
    → c.ik_x25519 ≢ []
    → c.status ≡ accepted
    → load_session d.sessions peer_id ≡ some s
    → (id : String) × ((send_message env peer_id text ttl d).0 ≡ done id)
      × IsKept env peer_id
          (or_else ttl default_ttl_seconds)
          text
          id
          (send_message env peer_id text ttl d).1
send_message-IsKept env peer_id text ttl d me c s w q₁ q₂ h₃ q₄ q₅ =
    let (id, q) = send_message-Returns env peer_id text ttl d me c s w q₁ q₂ h₃ q₄ q₅ in
    (id, q, row_of_send env peer_id text ttl d id q)
