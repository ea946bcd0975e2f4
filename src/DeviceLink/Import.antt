-- ===== src/DeviceLink/Import.antt =====
-- The new device (`runImport` of apps/web/src/services/devicelink.ts). A call back to the screen is kept
-- only where it shows the short authentication string.
pub mod Transfer
use privex.Prelude.{
  ℕ, ◌+◌, ◌/◌, String, Bool, true, false, ◌||◌, not, Option, none, some, List, [], ◌∷◌, ◌++◌,
  or_else, if◌then◌else◌,
}
use privex.Crypto.Hex.{Bytes, Text, to_hex, from_hex}
use privex.Db.Rows.{pending_inbound}
use privex.Device.{Device}
use privex.HistoryRecords.{import_record}
use privex.DeviceLink.{
  Inner, Frame, Sent, hello, sealed, Ending, transferred, failed, LinkEnv, ready, done, link,
  manifest, chunk, settle, send_on, open_sealed, own_link, handle_link_frame,
}
use privex.DeviceLink.Sas.{compute_sas}

pub record Importer : Type 0 where
  pub device : Device
  pub key : Option Bytes
  pub total : ℕ
  pub imported : ℕ
  pub finished : Bool
  pub confirmed : Bool
  pub sent_ready : Bool
  pub closed : Bool
  pub sent : List Sent
  pub shown : List Text
  pub ending : Option Ending

abbrev pub start : Device → Importer
start d = record {
  device = d;
  key = none;
  total = 0;
  imported = 0;
  finished = false;
  confirmed = false;
  sent_ready = false;
  closed = false;
  sent = [];
  shown = [];
  ending = none;
}

-- the user confirms or cancels, the key pair is there, a frame arrives, the socket closes
pub data Event : Type 0 where
  confirm cancel disconnected connected : Event
  frame : Frame → Event

abbrev pub send : Sent → Importer → Importer
send x s = record s { sent = send_on s.closed x s.sent }

abbrev pub stop : Ending → Importer → Importer
stop e s =
    if s.finished
    then s
    else record s { finished = true; closed = true; ending = settle e s.ending }

abbrev pub send_some : Bytes → Option Inner → Importer → Importer
send_some key none s = s
send_some key (some x) s = send (sealed key x) s

module _ (env : LinkEnv) where
  unfoldable pub send_link_frame : Bytes → Importer → Importer
  send_link_frame key s =
      let (x, d) = own_link env s.device in send_some key x (record s { device = d })

  unfoldable pub try_send_ready : Option Bytes → Importer → Importer
  unfolding send_link_frame
  try_send_ready none s = s
  try_send_ready (some key) s =
      if not s.confirmed || s.sent_ready || s.finished
      then s
      else send_link_frame key (send (sealed key ready) (record s { sent_ready = true }))

  -- the channel with the device whose key the code holds, and our key to it
  unfoldable pub join : Bytes → Option Bytes → Importer → Importer
  unfolding try_send_ready
  join their_pub none s = stop (failed "import failed") s
  join their_pub (some key) s = try_send_ready (some key) (
      send (hello (to_hex env.pub_key)) (record s {
        key = some key;
        shown = s.shown ++ compute_sas env.sha256 their_pub env.pub_key ∷ [];
      }))

  -- a record of an older build counts as a request
  unfoldable pub handle_inner : Bytes → Option Inner → Importer → Importer
  handle_inner key none s = stop (failed "secure channel failed (codes did not match)") s
  handle_inner key (some (link id label)) s = record s {
    device = handle_link_frame env id label key s.device;
  }
  handle_inner key (some (manifest count)) s = record s { total = or_else count 0 }
  handle_inner key (some (chunk seq rec)) s = record s {
    device = import_record rec pending_inbound (env.now_ms / 1000) s.device;
    imported = s.imported + 1;
  }
  handle_inner key (some done) s = record s {
    finished = true;
    closed = true;
    ending = settle (transferred s.imported) s.ending;
  }
  handle_inner key (some _) s = s

  unfoldable pub handle_keyed : Bytes → Frame → Importer → Importer
  unfolding handle_inner
  handle_keyed key (Frame.enc d) s = handle_inner key (open_sealed env key d) s
  handle_keyed key Frame.peer_left s = stop (failed "the other device disconnected") s
  handle_keyed key _ s = s

  unfoldable pub handle_frame : Option Bytes → Frame → Importer → Importer
  unfolding handle_keyed
  handle_frame none f s = s
  handle_frame (some key) f s = handle_keyed key f s

  -- `pk` is the key in the code that was scanned
  unfoldable pub step : Text → Event → Importer → Importer
  unfolding join handle_frame try_send_ready
  step pk confirm s = try_send_ready s.key (record s { confirmed = true })
  step pk cancel s = stop (failed "cancelled") s
  step pk disconnected s = stop (failed "disconnected") s
  step pk connected s =
      let their_pub = from_hex pk in join their_pub (env.channel_key env.priv_key their_pub) s
  step pk (frame f) s = handle_frame s.key f s
