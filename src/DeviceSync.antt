-- ===== src/DeviceSync.antt =====
-- Cross-device copies of sent messages (apps/web/src/services/device-sync.ts).
pub mod Padding
pub mod Link
use privex.Prelude.{
  ℕ, ◌+◌, ◌-◌, ◌*◌, ◌/◌, ◌%◌, max, String, Bool, not, ◌&&◌, Option, none, some, [], ◌∷◌, ◌++◌, ltb,
  if◌then◌else◌, length, take, replicate, ◌==◌, nat_eq, string_eq, bytes_eq,
}
use mathlib.Core.Option
use privex.Crypto.Hex.{Bytes, Text, from_hex}
use privex.Db.Table
use privex.Db.Rows.{MessageStatus, Kind, outbound}
use privex.Device.{Device, Event, with_store, emit}

abbrev pub pad_boundary : ℕ
pad_boundary = 1024

pub record SyncRecord : Type 0 where
  pub v : ℕ
  pub msg_id : String
  pub peer_id : String
  pub kind : Kind
  pub content : String
  pub ts : ℕ
  pub token_hex : Option Text

-- `setUint32(0, n, true)`: four bytes, the least significant first
abbrev pub le32 : ℕ → Bytes
le32 n = n % 256 ∷ n / 256 % 256 ∷ n / 65536 % 256 ∷ n / 16777216 % 256 ∷ []

-- Math.ceil(need / 1024) * 1024, at least 1024
abbrev pub padded_size : ℕ → ℕ
padded_size need = max pad_boundary ((need + 1023) / pad_boundary * pad_boundary)

-- the fresh array is zero, and the data is written over it
unfoldable pub pad : Bytes → Bytes
pad bytes =
    le32 (length bytes)
    ++ (bytes ++ replicate (padded_size (4 + length bytes) - (4 + length bytes)) 0)

-- `none` is a throw: of `getUint32` on fewer than four bytes, or on a length that does not fit
unfoldable pub unpad : Bytes → Option Bytes
unpad (b0 ∷ b1 ∷ b2 ∷ b3 ∷ rest) =
    let len = b0 + b1 * 256 + b2 * 65536 + b3 * 16777216 in
    if ltb (4 + length rest) (4 + len) then none else some (take len rest)
unpad _ = none

-- Web Crypto, and JSON under UTF-8
pub record SyncEnv : Type 0 where
  pub aes_encrypt : Bytes → Bytes → Bytes
  pub aes_decrypt : Bytes → Bytes → Option Bytes
  pub stringify : SyncRecord → Bytes
  pub parse : Bytes → Option SyncRecord
  pub random_id : Text

infixl 5 ◌>>=◌
abbrev ◌>>=◌ : {A B : Type 0} → Option A → (A → Option B) → Option B
none >>= f = none
some a >>= f = f a

-- `if (existing)`: the empty text is false
abbrev present_id : Option Text → Option Text
present_id none = none
present_id (some []) = none
present_id (some (c ∷ cs)) = some (c ∷ cs)

abbrev pub is_well_formed : SyncRecord → Bool
is_well_formed r = r.v == 1 && not (r.msg_id == "") && not (r.peer_id == "")

module _ (env : SyncEnv) where
  unfoldable pub encrypt_sync_record : SyncRecord → Bytes → Bytes
  encrypt_sync_record r key = env.aes_encrypt key (pad (env.stringify r))

  unfoldable pub decrypt_sync_record : Bytes → Bytes → Option SyncRecord
  decrypt_sync_record blob key = do
    padded ← env.aes_decrypt key blob
    bytes ← unpad padded
    r ← env.parse bytes
    if is_well_formed r then some r else none

  unfoldable pub open_sync_blob : Text → Bytes → Device → Option SyncRecord
  unfolding decrypt_sync_record
  open_sync_blob from_device blob d = do
    row ← Table.get d.linked_devices from_device
    decrypt_sync_record blob row.recv_key

  -- the id is made at the first need
  unfoldable pub my_device_id : Device → Text × Device
  my_device_id d = elim (present_id d.device_id) [
    | some id ↦ (id, d)
    | none ↦ (env.random_id, with_store (λ s. record s { device_id = some env.random_id }) d)
  ]

abbrev non_empty_hex : Option Text → Option Bytes
non_empty_hex none = none
non_empty_hex (some []) = none
non_empty_hex (some (c ∷ cs)) = some (from_hex (c ∷ cs))

unfoldable pub apply_sync_record : SyncRecord → ℕ → Device → Device
apply_sync_record r now_ms d = emit (Event.message r.peer_id) (
    with_store
      (λ s. record s {
        messages = Table.put s.messages r.msg_id (record {
          msg_id = r.msg_id;
          session_id = r.peer_id;
          content = r.content;
          timestamp = r.ts;
          status = MessageStatus.sent;
          direction = outbound;
          kind = some r.kind;
          receipt_token = non_empty_hex r.token_hex;
          receipt_read_wanted = none;
          receipt_read_done = none;
          server_anchor = none;
          created_at = some now_ms;
        });
      })
      d)
