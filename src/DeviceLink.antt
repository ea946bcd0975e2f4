-- ===== src/DeviceLink.antt =====
-- The transfer of the history to another device of the account (apps/web/src/services/devicelink.ts):
-- the frames and what both ends do with them. A text is its UTF-16 code units.
pub mod Token
pub mod Sas
pub mod Export
pub mod Import
use privex.Prelude.{
  ℕ, String, Bool, true, false, ◌&&◌, ◌||◌, Option, none, some, List, [], ◌∷◌, ◌++◌, take, or_else,
  leb, nat_beq, length, if◌then◌else◌,
}
use mathlib.Core.Option
use privex.Crypto.Hex.{Bytes, Text}
use privex.Db.Rekey.{Aes}
use privex.Device.{Device}
use privex.HistoryRecords.{HistoryRecord}
use privex.DeviceSync.{SyncEnv, my_device_id}
use privex.DeviceSync.Link.{device_sync_enabled, store_linked_device}

-- what is sealed; `other` is what neither end acts on
pub data Inner : Type 0 where
  ready done other : Inner
  link : Text → Option Text → Inner
  manifest : Option ℕ → Inner
  chunk : ℕ → HistoryRecord → Inner

-- a frame, as JSON parses it
pub data Frame : Type 0 where
  hello : Text → Frame
  enc : Text → Frame
  peer_left other : Frame

-- a frame that was sent, with what was sealed in it under which key
pub data Sent : Type 0 where
  hello : Text → Sent
  sealed : Bytes → Inner → Sent

-- how a transfer ends
pub data Ending : Type 0 where
  transferred : ℕ → Ending
  failed : String → Ending

-- The crypto worker, Web Crypto, JSON under UTF-8 and base64. `pub_key` and `priv_key` are the pair
-- made for this transfer, `today` the label of this device.
pub record LinkEnv : Type 0 where
  pub aes : Aes
  pub stringify : Inner → Bytes
  pub parse : Bytes → Option Inner
  pub b64encode : Bytes → Text
  pub b64decode : Text → Option Bytes
  pub pub_key : Bytes
  pub priv_key : Bytes
  pub channel_key : Bytes → Bytes → Option Bytes
  pub sha256 : Bytes → Bytes
  pub sync : SyncEnv
  pub hkdf : Bytes → Text → Bytes
  pub today : Text
  pub now_ms : ℕ

abbrev pub is_lower_hex : ℕ → Bool
is_lower_hex c = (leb 48 c && leb c 57) || (leb 97 c && leb c 102)

abbrev pub all_of : (ℕ → Bool) → Text → Bool
all_of p [] = true
all_of p (c ∷ t) = p c && all_of p t

-- so many lowercase hexadecimal digits
abbrev pub is_hex_of : ℕ → Text → Bool
is_hex_of n t = nat_beq (length t) n && all_of is_lower_hex t

abbrev pub max_label_chars : ℕ
max_label_chars = 64

-- "Linked device"
abbrev pub linked_device : Text
linked_device = 76 ∷ 105 ∷ 110 ∷ 107 ∷ 101 ∷ 100 ∷ 32 ∷ 100 ∷ 101 ∷ 118 ∷ 105 ∷ 99 ∷ 101 ∷ []

abbrev pub settle : Ending → Option Ending → Option Ending
settle e none = some e
settle e (some earlier) = some earlier

-- `t.send`, which a socket that is closed ignores
abbrev pub send_on : Bool → Sent → List Sent → List Sent
send_on true x sent = sent
send_on false x sent = sent ++ x ∷ []

abbrev pub and_then : {A B : Type 0} → Option A → (A → Option B) → Option B
and_then none f = none
and_then (some a) f = f a

module _ (env : LinkEnv) where
  abbrev pub seal : Bytes → Inner → Text
  seal key x = env.b64encode (env.aes.encrypt key (env.stringify x))

  unfoldable pub open_sealed : Bytes → Text → Option Inner
  open_sealed key d =
      and_then (env.b64decode d) (λ blob. and_then (env.aes.decrypt key blob) env.parse)

  -- the frame as it arrives
  unfoldable pub wire : Sent → Frame
  wire (Sent.hello pk) = Frame.hello pk
  wire (sealed key x) = Frame.enc (seal key x)

  -- the link frame that is sent, if any
  abbrev pub own_link : Device → Option Inner × Device
  own_link d =
      if device_sync_enabled d
      then (let (id, d') = my_device_id env.sync d in (some (link id (some env.today)), d'))
      else (none, d)

  unfoldable pub handle_link_frame : Text → Option Text → Bytes → Device → Device
  handle_link_frame id label secret d =
      if device_sync_enabled d && is_hex_of 32 id
      then store_linked_device env.sync env.hkdf secret id
          (take max_label_chars (or_else label linked_device)) env.now_ms d
      else d
