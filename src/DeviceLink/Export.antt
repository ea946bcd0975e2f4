-- ===== src/DeviceLink/Export.antt =====
-- The device that has the history (`runExport` of apps/web/src/services/devicelink.ts). A call back to
-- the screen is kept only where it shows the short authentication string.
pub mod Stream
pub mod Consent
use privex.Prelude.{
  ℕ, ◌+◌, String, Bool, true, false, ◌&&◌, ◌||◌, not, Option, none, some, is_some, List, [], ◌∷◌,
  ◌++◌, length, if◌then◌else◌,
}
use privex.Crypto.Hex.{Bytes, Text, from_hex}
use privex.Device.{Device}
use privex.HistoryRecords.{HistoryRecord, collect_local_records}
use privex.DeviceLink.{
  Inner, Frame, Sent, sealed, Ending, transferred, failed, LinkEnv, ready, done, link, manifest,
  chunk, settle, send_on, open_sealed, own_link, handle_link_frame,
}
use privex.DeviceLink.Sas.{compute_sas}

-- the loop over the records: how many are sent, and the rest
pub record Loop : Type 0 where
  pub count : ℕ
  pub rest : List HistoryRecord

pub record Exporter : Type 0 where
  pub device : Device
  -- the channel key is the secret that `importChannelKey` makes it from
  pub key : Option Bytes
  pub confirmed : Bool
  pub sent_ready : Bool
  pub peer_ready : Bool
  pub streaming : Bool
  pub finished : Bool
  pub loop : Option Loop
  pub closed : Bool
  pub sent : List Sent
  pub shown : List Text
  pub ending : Option Ending

abbrev pub start : Device → Exporter
start d = record {
  device = d;
  key = none;
  confirmed = false;
  sent_ready = false;
  peer_ready = false;
  streaming = false;
  finished = false;
  loop = none;
  closed = false;
  sent = [];
  shown = [];
  ending = none;
}

-- What happens next: the user confirms or cancels, a frame arrives, the socket closes, the loop sends
-- its next frame, or the half second after the last frame is over.
pub data Event : Type 0 where
  confirm cancel disconnected next flushed : Event
  frame : Frame → Event

abbrev pub send : Sent → Exporter → Exporter
send x s = record s { sent = send_on s.closed x s.sent }

abbrev pub stop : Ending → Exporter → Exporter
stop e s =
    if s.finished
    then s
    else record s { finished = true; closed = true; ending = settle e s.ending }

unfoldable pub send_next : Bytes → Loop → Exporter → Exporter
send_next key l s = elim l.rest [
  | [] ↦ record (send (sealed key done) s) {
    finished = true;
    loop = none;
    ending = settle (transferred l.count) s.ending;
  }
  | r ∷ rest ↦
      if s.finished
      then record s { loop = none }
      else record (send (sealed key (chunk l.count r)) s) {
        loop = some (record { count = l.count + 1; rest = rest });
      }
]

-- the loop goes on; without a key to seal with it throws
unfoldable pub go_on : Option Bytes → Option Loop → Exporter → Exporter
unfolding send_next
go_on key none s = s
go_on none (some l) s = stop (failed "transfer failed") (record s { loop = none })
go_on (some key) (some l) s = send_next key l s

abbrev pub send_some : Bytes → Option Inner → Exporter → Exporter
send_some key none s = s
send_some key (some x) s = send (sealed key x) s

-- the stream begins with the manifest
unfoldable pub begin_stream : Bytes → Exporter → Exporter
begin_stream key s =
    let recs = collect_local_records s.device.store in
    record (send (sealed key (manifest (some (length recs)))) s) {
      streaming = true;
      loop = some (record { count = 0; rest = recs });
    }

unfoldable pub maybe_stream : Option Bytes → Exporter → Exporter
unfolding begin_stream
maybe_stream none s = s
maybe_stream (some key) s =
    if s.streaming || not s.sent_ready || not s.peer_ready then s else begin_stream key s

module _ (env : LinkEnv) where
  unfoldable pub send_link_frame : Bytes → Exporter → Exporter
  send_link_frame key s =
      let (x, d) = own_link env s.device in send_some key x (record s { device = d })

  unfoldable pub try_send_ready : Option Bytes → Exporter → Exporter
  unfolding send_link_frame maybe_stream
  try_send_ready none s = s
  try_send_ready (some key) s =
      if not s.confirmed || s.sent_ready
      then s
      else maybe_stream (some key)
          (send_link_frame key (send (sealed key ready) (record s { sent_ready = true })))

  -- the channel with the peer whose key is `their_pub`
  unfoldable pub shake_hands : Bytes → Option Bytes → Exporter → Exporter
  unfolding try_send_ready
  shake_hands their_pub none s = stop (failed "handshake failed") s
  shake_hands their_pub (some key) s = try_send_ready (some key) (record s {
    key = some key;
    shown = s.shown ++ compute_sas env.sha256 env.pub_key their_pub ∷ [];
  })

  unfoldable pub handle_inner : Bytes → Option Inner → Exporter → Exporter
  unfolding maybe_stream
  handle_inner key none s = stop (failed "secure channel failed (codes did not match)") s
  handle_inner key (some ready) s = maybe_stream (some key) (record s { peer_ready = true })
  handle_inner key (some (link id label)) s = record s {
    device = handle_link_frame env id label key s.device;
  }
  handle_inner key (some _) s = s

  unfoldable pub handle_enc : Option Bytes → Text → Exporter → Exporter
  unfolding handle_inner
  handle_enc none d s = s
  handle_enc (some key) d s = handle_inner key (open_sealed env key d) s

  unfoldable pub handle_frame : Frame → Exporter → Exporter
  unfolding shake_hands handle_enc
  handle_frame (Frame.hello pk) s =
      let their_pub = from_hex pk in
      shake_hands their_pub (env.channel_key env.priv_key their_pub) s
  handle_frame (Frame.enc d) s = handle_enc s.key d s
  handle_frame Frame.peer_left s = stop (failed "the other device disconnected") s
  handle_frame Frame.other s = s

  unfoldable pub step : Event → Exporter → Exporter
  unfolding handle_frame try_send_ready go_on
  step confirm s = try_send_ready s.key (record s { confirmed = true })
  step cancel s = stop (failed "cancelled") s
  step (frame f) s = handle_frame f s
  step disconnected s = stop (failed "disconnected") s
  step next s = go_on s.key s.loop s
  step flushed s = record s { closed = true }
