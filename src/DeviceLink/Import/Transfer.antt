-- ===== src/DeviceLink/Import/Transfer.antt =====
-- What arrives of a transfer, at both ends (apps/web/src/services/devicelink.ts).
use privex.Prelude.{
  ◌≡◌, refl, ap, ◌∙◌, ℕ, suc, ◌+◌, ◌/◌, true, none, some, List, [], ◌∷◌, map, drop, drop-append,
  length, arith, All,
}
use privex.Crypto.Hex.{Bytes, Text}
use privex.Db.Rows.{pending_inbound}
use privex.Device.{Device}
use privex.HistoryRecords.{HistoryRecord, import_record}
use privex.DeviceLink.{
  Inner, Frame, Sent, hello, sealed, transferred, LinkEnv, ready, done, manifest, chunk, settle,
  seal, open_sealed, wire,
}
use privex.DeviceLink.Export
use privex.DeviceLink.Export.{Exporter}
use privex.DeviceLink.Export.Stream.{IsWaiting, turns, turns-ready, records, chunks, stream_of}
use privex.DeviceLink.Import.{Importer, frame, step, handle_frame, handle_keyed, handle_inner}

-- the import of the records, one after the other
abbrev pub import_all : ℕ → List HistoryRecord → Device → Device
import_all now [] d = d
import_all now (r ∷ rest) d = import_all now rest (import_record r pending_inbound now d)

-- What the one sealed, the other opens: AES-GCM under one key, base64 and JSON, as they are documented.
abbrev pub IsUnderstood : LinkEnv → LinkEnv → Sent → Type 0
IsUnderstood from to (hello pk) = Unit
IsUnderstood from to (sealed key x) = open_sealed to key (seal from key x) ≡ some x

-- the frames arrive one after the other
abbrev pub arrive : LinkEnv → Text → List Frame → Importer → Importer
arrive e p [] s = s
arrive e p (f ∷ rest) s = arrive e p rest (step e p (frame f) s)

module _ (from to : LinkEnv) (key : Bytes) (pk : Text) where
  abbrev keyed : Importer → Importer
  keyed s = record s { key = some key }

  -- an import that came to its end
  abbrev ended : ℕ → Device → Importer → Importer
  ended n d s = record (keyed s) {
    device = d;
    imported = n;
    finished = true;
    closed = true;
    ending = settle (transferred n) s.ending;
  }

  one :
      (x : Inner) (s : Importer)
      → IsUnderstood from to (sealed key x)
      → step to pk (frame (wire from (sealed key x))) (keyed s)
        ≡ handle_inner to key (some x) (keyed s)
  unfolding step handle_frame handle_keyed wire
  one x s law = rw law refl

  arrive-chunks :
      (c : ℕ) (recs : List HistoryRecord) (s : Importer)
      → All (IsUnderstood from to) (chunks key c recs)
      → arrive to pk (map (wire from) (chunks key c recs)) (keyed s)
        ≡ ended (s.imported + length recs) (import_all (to.now_ms / 1000) recs s.device) s
  unfolding handle_inner
  arrive-chunks c [] s (law, _) = one done s law ∙ ap (λ n. ended n s.device s) (omega arith)
  arrive-chunks c (r ∷ recs) s (law, laws) =
      let s' : Importer = record s {
        device = import_record r pending_inbound (to.now_ms / 1000) s.device;
        imported = s.imported + 1;
      } in
      ap (arrive to pk (map (wire from) (chunks key (c + 1) recs))) (one (chunk c r) s law)
      ∙ arrive-chunks (c + 1) recs s' laws
      ∙ ap (λ n. ended n (import_all (to.now_ms / 1000) recs s'.device) s) (omega arith)

  arrive-stream_of :
      (recs : List HistoryRecord) (s : Importer)
      → All (IsUnderstood from to) (stream_of key recs)
      → (arrive to pk (map (wire from) (stream_of key recs)) (keyed s))
        ≡ ended
            (s.imported + length recs)
            (import_all (to.now_ms / 1000) recs s.device)
            (record s { total = length recs })
  unfolding handle_inner
  arrive-stream_of recs s (law, laws) =
      ap (arrive to pk (map (wire from) (chunks key 0 recs)))
        (one (manifest (some (length recs))) s law)
      ∙ arrive-chunks 0 recs (record s { total = length recs }) laws

  is_keyed : (s : Importer) → s.key ≡ some key → s ≡ keyed s
  is_keyed s h = λ i. record s { key = h i }

-- Between two devices that hold one channel key, where the one opens what the other seals: when the ready frame opens at the device that has the
-- history, which the user let go on, the frames that it then sends put exactly its records on the new
-- device, in their order. Both report the same number of records, where neither reported before.
pub arrive-turns :
    (from to : LinkEnv) (key : Bytes) (pk d : Text) (e : Exporter) (i : Importer)
    → All (IsUnderstood from to) (stream_of key (records from e))
    → IsWaiting from key e
    → open_sealed from key d ≡ some ready
    → i.key ≡ some key
    → i.imported ≡ 0
    → e.ending ≡ none
    → i.ending ≡ none
    → let e' =
        turns from
          (suc (length (records from e)))
          (Export.step from (Export.frame (Frame.enc d)) e) in
      let i' = arrive to pk (map (wire from) (drop (length e.sent) e'.sent)) i in
      (i'.device ≡ import_all (to.now_ms / 1000) (records from e) i.device)
      × (e'.ending ≡ some (transferred (length (records from e))))
      × (i'.ending ≡ e'.ending)
arrive-turns from to key pk d e i law w q h z n m =
    let (sent, _, ending) = turns-ready from key d e w q in
    let recs : List HistoryRecord = records from e in
    rw (sent, drop-append e.sent (stream_of key recs), ending, n)
      (rw (is_keyed from to key pk i h, arrive-stream_of from to key pk recs i law, z, m)
        (refl, refl, ap (λ n. some (transferred n)) (omega arith)))
