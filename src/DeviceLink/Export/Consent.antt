-- ===== src/DeviceLink/Export/Consent.antt =====
-- When the device that has the history sends of it (`runExport` of
-- apps/web/src/services/devicelink.ts).
use privex.Prelude.{
  ◌≡◌, refl, ap, sym, ◌⊎◌, inl, inr, ℕ, Bool, true, false, ◌||◌, not, Option, none, some, List, [],
  ◌∷◌, if◌then◌else◌, arith, In, any,
}
use privex.Crypto.Hex.{Bytes, Text}
use privex.Device.{Device}
use privex.HistoryRecords.{HistoryRecord}
use privex.DeviceLink.{
  Inner, Frame, Sent, sealed, Ending, LinkEnv, ready, done, link, manifest, chunk, other, send_on,
  open_sealed, own_link,
}
use privex.DeviceSync.Link.{device_sync_enabled}
use privex.DeviceLink.Export.{
  Exporter, Loop, Event, start, confirm, cancel, disconnected, next, flushed, frame, stop, send,
  send_some, step, go_on, send_next, begin_stream, maybe_stream, try_send_ready, send_link_frame,
  shake_hands, handle_frame, handle_enc, handle_inner,
}

-- a frame that carries something of the history
abbrev pub is_data : Sent → Bool
is_data (sealed key (manifest n)) = true
is_data (sealed key (chunk n r)) = true
is_data (sealed key done) = true
is_data _ = false

module _ (env : LinkEnv) (d : Device) where
  -- the device after the events, the last of them first
  abbrev pub after : List Event → Exporter
  after [] = start d
  after (e ∷ past) = step env e (after past)

  -- a frame that opened as a ready frame under the key that the channel had when it arrived
  pub data Heard : List Event → Type 0 where
    now :
        (key : Bytes) (text : Text) (past : List Event)
        → (after past).key ≡ some key
        → open_sealed env key text ≡ some ready
        → Heard (frame (Frame.enc text) ∷ past)
    before : (e : Event) (past : List Event) → Heard past → Heard (e ∷ past)

  -- what the flags, the loop and the frames sent say of the events that led to them
  record Fields (past : List Event) (confirmed sent_ready peer_ready streaming : Bool)
      (loop : Option Loop) (sent : List Sent) : Type 0 where
    confirms : confirmed ≡ true → In confirm past
    readies : sent_ready ≡ true → confirmed ≡ true
    hears : peer_ready ≡ true → Heard past
    streams : streaming ≡ true → (sent_ready ≡ true) × (peer_ready ≡ true)
    loops : (loop ≡ none) ⊎ (streaming ≡ true)
    sends : (any is_data sent ≡ false) ⊎ (streaming ≡ true)

  abbrev IsConsented : List Event → Exporter → Type 0
  IsConsented past s = Fields past s.confirmed s.sent_ready s.peer_ready s.streaming s.loop s.sent

  abbrev Keeps : (Exporter → Exporter) → Type 0
  Keeps f = (past : List Event) (s : Exporter) → IsConsented past s → IsConsented past (f s)

  older :
      (e : Event) (past : List Event) (s : Exporter) → IsConsented past s → IsConsented (e ∷ past) s
  older e past s c = record {
    confirms = λ h. inr (c.confirms h);
    readies = c.readies;
    hears = λ h. before e past (c.hears h);
    streams = c.streams;
    loops = c.loops;
    sends = c.sends;
  }

  any-send_on :
      (closed : Bool) (x : Sent) (xs : List Sent)
      → is_data x ≡ false
      → any is_data xs ≡ false
      → any is_data (send_on closed x xs) ≡ false
  any-send_on true x xs k h = h
  any-send_on false x [] k h = rw k refl
  any-send_on false x (y ∷ xs) k h = ground (arith, any-send_on false x xs)

  with_sent :
      (past : List Event) (s : Exporter) (sent : List Sent)
      → (any is_data sent ≡ false) ⊎ (s.streaming ≡ true)
      → IsConsented past s
      → IsConsented past (record s { sent = sent })
  with_sent past s sent h c = record {
    confirms = c.confirms;
    readies = c.readies;
    hears = c.hears;
    streams = c.streams;
    loops = c.loops;
    sends = h;
  }

  with_loop :
      (past : List Event) (s : Exporter) (loop : Option Loop)
      → (loop ≡ none) ⊎ (s.streaming ≡ true)
      → IsConsented past s
      → IsConsented past (record s { loop = loop })
  with_loop past s loop h c = record {
    confirms = c.confirms;
    readies = c.readies;
    hears = c.hears;
    streams = c.streams;
    loops = h;
    sends = c.sends;
  }

  -- a frame that carries nothing of the history
  send-plain : (x : Sent) → is_data x ≡ false → Keeps (send x)
  send-plain x k past s c =
      with_sent past s (send_on s.closed x s.sent)
        (elim c.sends [ inl h ↦ inl (any-send_on s.closed x s.sent k h) | inr h ↦ inr h ]) c

  send_some-plain :
      (key : Bytes) (x : Option Inner)
      → ((y : Inner) → x ≡ some y → is_data (sealed key y) ≡ false)
      → Keeps (send_some key x)
  send_some-plain key none k past s c = c
  send_some-plain key (some y) k past s c = send-plain (sealed key y) (k y refl) past s c

  either :
      (past : List Event) (b : Bool) (s t : Exporter)
      → (b ≡ true → IsConsented past s)
      → (b ≡ false → IsConsented past t)
      → IsConsented past (if b then s else t)
  either past true s t h k = h refl
  either past false s t h k = k refl

  stop-keeps : (e : Ending) → Keeps (stop e)
  stop-keeps e past s c = either past s.finished s _ (λ q. c) (λ q. c)

  send_next-keeps :
      (key : Bytes) (n : ℕ) (rest : List HistoryRecord) (past : List Event) (s : Exporter)
      → s.streaming ≡ true
      → IsConsented past s
      → IsConsented past (send_next key (record { count = n; rest = rest }) s)
  unfolding send_next
  send_next-keeps key n [] past s k c =
      with_loop past (send (sealed key done) s) none (inl refl)
        (with_sent past s (send_on s.closed (sealed key done) s.sent) (inr k) c)
  send_next-keeps key n (r ∷ rest) past s k c =
      either past s.finished _ _ (λ q. with_loop past s none (inl refl) c)
        (λ q.
          with_loop past (send (sealed key (chunk n r)) s) _ (inr k)
            (with_sent past s (send_on s.closed (sealed key (chunk n r)) s.sent) (inr k) c))

  go_on-keeps :
      (key : Option Bytes) (l : Option Loop) (past : List Event) (s : Exporter)
      → (l ≡ none) ⊎ (s.streaming ≡ true)
      → IsConsented past s
      → IsConsented past (go_on key l s)
  unfolding go_on
  go_on-keeps key none past s k c = c
  go_on-keeps none (some l) past s k c = stop-keeps _ past _ (with_loop past s none (inl refl) c)
  go_on-keeps (some key) (some l) past s (inl k) c = absurd cc
  go_on-keeps (some key) (some l) past s (inr k) c = send_next-keeps key l.count l.rest past s k c

  begin_stream-keeps :
      (key : Bytes) (past : List Event) (s : Exporter)
      → s.sent_ready ≡ true
      → s.peer_ready ≡ true
      → IsConsented past s
      → IsConsented past (begin_stream key s)
  unfolding begin_stream
  begin_stream-keeps key past s h k c = record {
    confirms = c.confirms;
    readies = c.readies;
    hears = c.hears;
    streams = λ q. (h, k);
    loops = inr refl;
    sends = inr refl;
  }

  maybe_stream-keeps : (key : Option Bytes) → Keeps (maybe_stream key)
  unfolding maybe_stream
  maybe_stream-keeps none past s c = c
  maybe_stream-keeps (some key) past s c =
      either past (s.streaming || not s.sent_ready || not s.peer_ready) s _ (λ q. c)
        (λ q. begin_stream-keeps key past s (ground arith) (ground arith) c)

  abbrev is_data_some : Bytes → Option Inner → Bool
  is_data_some key none = false
  is_data_some key (some x) = is_data (sealed key x)

  link_or_none-plain :
      (on : Bool) (key : Bytes) (id : Text) (label : Option Text) (v w : Device) (y : Inner)
      → (if◌then◌else◌ {A = Option Inner × Device} on (some (link id label), v) (none, w)).0
        ≡ some y
      → is_data (sealed key y) ≡ false
  link_or_none-plain true key id label v w y h = sym (ap (is_data_some key) h)
  link_or_none-plain false key id label v w y h = absurd cc

  own_link-plain :
      (key : Bytes) (v : Device) (y : Inner)
      → (own_link env v).0 ≡ some y
      → is_data (sealed key y) ≡ false
  own_link-plain key v y h = link_or_none-plain (device_sync_enabled v) key _ _ _ _ y h

  send_link_frame-keeps : (key : Bytes) → Keeps (send_link_frame env key)
  unfolding send_link_frame
  send_link_frame-keeps key past s c =
      send_some-plain key (own_link env s.device).0 (own_link-plain key s.device) past
        (record s { device = (own_link env s.device).1 }) c

  with_ready :
      (past : List Event) (s : Exporter)
      → s.confirmed ≡ true
      → IsConsented past s
      → IsConsented past (record s { sent_ready = true })
  with_ready past s h c = record {
    confirms = c.confirms;
    readies = λ q. h;
    hears = c.hears;
    streams = λ q. (refl, (c.streams q).1);
    loops = c.loops;
    sends = c.sends;
  }

  try_send_ready-keeps : (key : Option Bytes) → Keeps (try_send_ready env key)
  unfolding try_send_ready
  try_send_ready-keeps none past s c = c
  try_send_ready-keeps (some key) past s c =
      either past (not s.confirmed || s.sent_ready) s _ (λ q. c)
        (λ q. maybe_stream-keeps (some key) past _ (
          send_link_frame-keeps key past (send (sealed key ready) (record s { sent_ready = true }))
            (send-plain (sealed key ready) refl past (record s { sent_ready = true })
              (with_ready past s (ground arith) c))))

  shake_hands-keeps :
      (their_pub : Bytes) (key : Option Bytes) → Keeps (shake_hands env their_pub key)
  unfolding shake_hands
  shake_hands-keeps their_pub none past s c = stop-keeps _ past s c
  shake_hands-keeps their_pub (some key) past s c = try_send_ready-keeps (some key) past _ c

  with_peer_ready :
      (past : List Event) (s : Exporter)
      → Heard past
      → IsConsented past s
      → IsConsented past (record s { peer_ready = true })
  with_peer_ready past s h c = record {
    confirms = c.confirms;
    readies = c.readies;
    hears = λ q. h;
    streams = λ q. ((c.streams q).0, refl);
    loops = c.loops;
    sends = c.sends;
  }

  handle_inner-keeps :
      (key : Bytes) (x : Option Inner) (past : List Event) (s : Exporter)
      → (x ≡ some ready → Heard past)
      → IsConsented past s
      → IsConsented past (handle_inner env key x s)
  unfolding handle_inner
  handle_inner-keeps key none past s h c = stop-keeps _ past s c
  handle_inner-keeps key (some ready) past s h c =
      maybe_stream-keeps (some key) past _ (with_peer_ready past s (h refl) c)
  handle_inner-keeps key (some (link id label)) past s h c = c
  handle_inner-keeps key (some done) past s h c = c
  handle_inner-keeps key (some other) past s h c = c
  handle_inner-keeps key (some (manifest n)) past s h c = c
  handle_inner-keeps key (some (chunk n r)) past s h c = c

  handle_enc-keeps :
      (key : Option Bytes) (text : Text) (past : List Event) (s : Exporter)
      → (after past).key ≡ key
      → IsConsented past s
      → IsConsented (frame (Frame.enc text) ∷ past) (handle_enc env key text s)
  unfolding handle_enc
  handle_enc-keeps none text past s k c = older _ past s c
  handle_enc-keeps (some key) text past s k c =
      handle_inner-keeps key (open_sealed env key text) _ s (λ q. now key text past k q)
        (older _ past s c)

  handle_frame-keeps :
      (f : Frame) (past : List Event) (s : Exporter)
      → (after past).key ≡ s.key
      → IsConsented past s
      → IsConsented (frame f ∷ past) (handle_frame env f s)
  unfolding handle_frame
  handle_frame-keeps (Frame.hello pk) past s k c = shake_hands-keeps _ _ _ s (older _ past s c)
  handle_frame-keeps (Frame.enc text) past s k c = handle_enc-keeps s.key text past s k c
  handle_frame-keeps Frame.peer_left past s k c = stop-keeps _ _ s (older _ past s c)
  handle_frame-keeps Frame.other past s k c = older _ past s c

  with_confirmed :
      (past : List Event) (s : Exporter)
      → IsConsented past s
      → IsConsented (confirm ∷ past) (record s { confirmed = true })
  with_confirmed past s c = record {
    confirms = λ q. inl refl;
    readies = λ q. refl;
    hears = λ q. before confirm past (c.hears q);
    streams = c.streams;
    loops = c.loops;
    sends = c.sends;
  }

  step-keeps :
      (e : Event) (past : List Event) (s : Exporter)
      → (after past).key ≡ s.key
      → IsConsented past s
      → IsConsented (e ∷ past) (step env e s)
  unfolding step
  step-keeps confirm past s k c =
      try_send_ready-keeps s.key _ (record s { confirmed = true }) (with_confirmed past s c)
  step-keeps cancel past s k c = stop-keeps _ _ s (older _ past s c)
  step-keeps (frame f) past s k c = handle_frame-keeps f past s k c
  step-keeps disconnected past s k c = stop-keeps _ _ s (older _ past s c)
  step-keeps next past s k c = go_on-keeps s.key s.loop _ s c.loops (older _ past s c)
  step-keeps flushed past s k c = older _ past s c

  after-keeps : (past : List Event) → IsConsented past (after past)
  after-keeps [] = record {
    confirms = λ q. absurd cc;
    readies = λ q. absurd cc;
    hears = λ q. absurd cc;
    streams = λ q. absurd cc;
    loops = inl refl;
    sends = inl refl;
  }
  after-keeps (e ∷ past) = step-keeps e past (after past) refl (after-keeps past)

  -- However frames, confirmations, cancellations and the turns of the loop interleave: once a frame with
  -- something of the history is sent, the user has confirmed, and a frame has come in that opened as a
  -- ready frame under the key that the channel had at its arrival. Nothing is said of who sent it: a
  -- ready frame of this side that the relay sends back opens under the same key.
  pub after-data :
      (past : List Event) → any is_data (after past).sent ≡ true → In confirm past × Heard past
  after-data past h =
      let c = after-keeps past in
      elim c.sends [
        | inl q ↦ absurd cc
        | inr q ↦ let (r, p) = c.streams q in (c.confirms (c.readies r), c.hears p)
      ]
