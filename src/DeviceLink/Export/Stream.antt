-- ===== src/DeviceLink/Export/Stream.antt =====
-- What the device that has the history sends (`maybeStream` of apps/web/src/services/devicelink.ts).
use privex.Prelude.{
  ◌≡◌, refl, ap, ap₂, sym, ◌∙◌, ℕ, zero, suc, ◌+◌, true, false, none, some, List, [], ◌∷◌, ◌++◌,
  length, arith,
}
use mathlib.Core.List.{append_assoc}
use privex.Crypto.Hex.{Bytes, Text, from_hex}
use privex.Device.{Device}
use privex.HistoryRecords.{HistoryRecord, collect_local_records}
use privex.DeviceLink.{
  Frame, Sent, sealed, transferred, LinkEnv, ready, done, manifest, chunk, settle, open_sealed,
}
use privex.DeviceLink.Export.{
  Exporter, Loop, next, frame, step, go_on, send_next, begin_stream, maybe_stream, handle_frame,
  handle_enc, handle_inner, shake_hands, try_send_ready,
}

-- the records from a number on, and the end
abbrev pub chunks : Bytes → ℕ → List HistoryRecord → List Sent
chunks key n [] = sealed key done ∷ []
chunks key n (r ∷ rest) = sealed key (chunk n r) ∷ chunks key (n + 1) rest

-- the whole history
abbrev pub stream_of : Bytes → List HistoryRecord → List Sent
stream_of key recs = sealed key (manifest (some (length recs))) ∷ chunks key 0 recs

module _ (env : LinkEnv) where
  -- so many turns of the loop
  abbrev pub turns : ℕ → Exporter → Exporter
  turns zero s = s
  turns (suc n) s = turns n (step env next s)

  abbrev looping : Bytes → Loop → Exporter → Exporter
  looping key l s = record s { key = some key; loop = some l; finished = false; closed = false }

  abbrev finish : ℕ → List Sent → Exporter → Exporter
  finish n more s = record s {
    sent = s.sent ++ more;
    finished = true;
    loop = none;
    ending = settle (transferred n) s.ending;
  }

  turns-looping :
      (key : Bytes) (c : ℕ) (rest : List HistoryRecord) (s : Exporter)
      → turns (suc (length rest)) (looping key (record { count = c; rest = rest }) s)
        ≡ finish
            (c + length rest)
            (chunks key c rest)
            (looping key (record { count = c; rest = rest }) s)
  unfolding step go_on send_next
  turns-looping key c [] s =
      ap (λ n. finish n (chunks key c []) (looping key (record { count = c; rest = [] }) s))
        (omega arith)
  turns-looping key c (r ∷ rest) s =
      turns-looping key (c + 1) rest (record s { sent = s.sent ++ sealed key (chunk c r) ∷ [] })
      ∙ ap₂
          (λ more n. record (looping key (record { count = c; rest = r ∷ rest }) s) {
            sent = more;
            finished = true;
            loop = none;
            ending = settle (transferred n) s.ending;
          })
          (append_assoc s.sent (sealed key (chunk c r) ∷ []) (chunks key (c + 1) rest))
          (omega arith)

  -- our end of the channel is confirmed and the other end is not heard of
  pub record IsWaiting (key : Bytes) (s : Exporter) : Type 0 where
    pub has_key : s.key ≡ some key
    pub said_ready : s.sent_ready ≡ true
    pub confirmed : s.confirmed ≡ true
    pub not_streaming : s.streaming ≡ false
    pub not_finished : s.finished ≡ false
    pub not_closed : s.closed ≡ false

  abbrev waiting : Bytes → Exporter → Exporter
  waiting key s = record s {
    key = some key;
    sent_ready = true;
    confirmed = true;
    streaming = false;
    finished = false;
    closed = false;
  }

  is_waiting : (key : Bytes) (s : Exporter) → IsWaiting key s → s ≡ waiting key s
  is_waiting key s w = λ i. record s {
    key = w.has_key i;
    sent_ready = w.said_ready i;
    confirmed = w.confirmed i;
    streaming = w.not_streaming i;
    finished = w.not_finished i;
    closed = w.not_closed i;
  }

  abbrev pub records : Exporter → List HistoryRecord
  records s = collect_local_records s.device.store

  -- what a device that waits ends up with
  abbrev streamed : Bytes → Exporter → Exporter
  streamed key s = record (waiting key s) {
    peer_ready = true;
    streaming = true;
    loop = none;
    finished = true;
    sent = s.sent ++ stream_of key (records s);
    ending = settle (transferred (length (records s))) s.ending;
  }

  stream-waiting :
      (key : Bytes) (d : Text) (s : Exporter)
      → open_sealed env key d ≡ some ready
      → turns (suc (length (records s))) (step env (frame (Frame.enc d)) (waiting key s))
        ≡ streamed key s
  unfolding step handle_frame handle_enc handle_inner maybe_stream begin_stream
  stream-waiting key d s q = rw q (
      turns-looping key 0 (records s) (record (waiting key s) {
        peer_ready = true;
        streaming = true;
        sent = s.sent ++ sealed key (manifest (some (length (records s)))) ∷ [];
      })
      ∙ ap₂
          (λ more n. record (streamed key s) {
            sent = more;
            ending = settle (transferred n) s.ending;
          })
          (append_assoc s.sent (sealed key (manifest (some (length (records s)))) ∷ [])
            (chunks key 0 (records s)))
          (omega arith))

  -- A device that the user let go on, and that has a channel and waits for the peer, streams its whole
  -- history once the peer's ready frame opens: the manifest, each record in order, and the end, all under
  -- the key of the channel, in as many turns of the loop as there are records and one more. It then
  -- reports how many there were.
  pub turns-ready :
      (key : Bytes) (d : Text) (s : Exporter)
      → IsWaiting key s
      → open_sealed env key d ≡ some ready
      → let s' = turns (suc (length (records s))) (step env (frame (Frame.enc d)) s) in
        (s'.sent ≡ s.sent ++ stream_of key (records s))
        × (s'.finished ≡ true)
        × (s'.ending ≡ settle (transferred (length (records s))) s.ending)
  turns-ready key d s w q =
      let e =
        ap (λ x. turns (suc (length (records s))) (step env (frame (Frame.enc d)) x))
          (is_waiting key s w)
        ∙ stream-waiting key d s q in
      rw e (refl, refl, refl)

  another_key :
      (key key' : Bytes) (pk : Text) (s : Exporter)
      → env.channel_key env.priv_key (from_hex pk) ≡ some key'
      → IsWaiting key' (step env (frame (Frame.hello pk)) (waiting key s))
  unfolding step handle_frame shake_hands try_send_ready
  another_key key key' pk s q = rw q (record {
    has_key = refl;
    said_ready = refl;
    confirmed = refl;
    not_streaming = refl;
    not_finished = refl;
    not_closed = refl;
  })

  unchanged :
      (key key' : Bytes) (pk : Text) (s : Exporter)
      → env.channel_key env.priv_key (from_hex pk) ≡ some key'
      → let s' = step env (frame (Frame.hello pk)) (waiting key s) in
        (s'.device ≡ s.device) × (s'.sent ≡ s.sent)
  unfolding step handle_frame shake_hands try_send_ready
  unchanged key key' pk s q = rw q (refl, refl)

  of_same :
      (key : Bytes) (x : Exporter) (d d' : Device) (sent sent' : List Sent)
      → d ≡ d'
      → sent ≡ sent'
      → (turns (suc (length (collect_local_records d.store))) x).sent
        ≡ sent ++ stream_of key (collect_local_records d.store)
      → (turns (suc (length (collect_local_records d'.store))) x).sent
        ≡ sent' ++ stream_of key (collect_local_records d'.store)
  of_same key x d d' sent sent' p q e = rw (sym p, sym q) e

  -- A second hello, after the user has confirmed the string of the channel, replaces the key of the
  -- channel without another confirmation: when a ready frame then opens under the new key, the whole
  -- history is sent under that key.
  pub turns-hello :
      (key key' : Bytes) (pk d : Text) (s : Exporter)
      → IsWaiting key s
      → env.channel_key env.priv_key (from_hex pk) ≡ some key'
      → open_sealed env key' d ≡ some ready
      → (turns
          (suc (length (records s)))
          (step env (frame (Frame.enc d)) (step env (frame (Frame.hello pk)) s))).sent
        ≡ s.sent ++ stream_of key' (records s)
  turns-hello key key' pk d s w q r = rw (is_waiting key s w) (
      let u = step env (frame (Frame.hello pk)) (waiting key s) in
      let (same_device, same_sent) = unchanged key key' pk s q in
      let (e, _, _) = turns-ready key' d u (another_key key key' pk s q) r in
      of_same key' _ _ _ _ _ same_device same_sent e)
