-- ===== src/Data/Sessions.antt =====
-- Double Ratchet session persistence (apps/web/src/data/sessions.ts). Texts under the at-rest cipher
-- and JSON stand as their plain values.
use privex.Prelude.{
  ℕ, String, ◌≡◌, Bool, true, Option, none, some, arith, if◌then◌else◌, or_else, is_some, ◌==◌,
  nat_eq, string_eq, bytes_eq,
}
use privex.Crypto.Hex.{Bytes, IsBytes, to_hex, from_hex, from_hex-to_hex}
use privex.Db.Table
use privex.Db.Table.{Table, get-put, get-update}
use privex.Db.Rows.{PqxdhInitStash, SessionRow}
use privex.Wire.{PqxdhInitWire}
use mathlib.Core.Option

abbrev pub Sessions : Type 0
Sessions = Table String SessionRow

pub record LoadedSession : Type 0 where
  pub ratchet_state : Bytes
  pub pqxdh_init : Option PqxdhInitWire
  pub received_ok : Bool

from_stash : PqxdhInitStash → PqxdhInitWire
from_stash s = record {
  alice_ik_pub = from_hex s.alice_ik_pub;
  alice_ek_pub = from_hex s.alice_ek_pub;
  kyber_ciphertext = from_hex s.kyber_ciphertext;
  opk_used = s.opk_used;
  opk_id = or_else s.opk_id 0;
}

loaded : SessionRow → LoadedSession
unfolding from_stash
loaded row = record {
  ratchet_state = from_hex row.ratchet_state;
  pqxdh_init = Option.map from_stash row.pqxdh_init;
  received_ok = or_else row.received_ok true;
}

unfoldable pub load_session : Sessions → String → Option LoadedSession
unfolding loaded
load_session t peer_id = Option.map loaded (Table.get t peer_id)

unfoldable pub has_session : Sessions → String → Bool
has_session t peer_id = is_some (Table.get t peer_id)

unfoldable pub save_ratchet_state : Sessions → String → Bytes → Sessions
save_ratchet_state t peer_id state =
    Table.update t peer_id (λ row. record row { ratchet_state = to_hex state })

unfoldable pub mark_session_received : Sessions → String → Sessions
mark_session_received t peer_id =
    Table.update t peer_id (λ row. record row { received_ok = some true })

unfoldable pub clear_pqxdh_init : Sessions → String → Sessions
clear_pqxdh_init t peer_id = Table.update t peer_id (λ row. record row { pqxdh_init = none })

inbound_row : String → Bytes → ℕ → SessionRow
inbound_row peer_id state now = record {
  session_id = peer_id;
  peer_id = peer_id;
  ratchet_state = to_hex state;
  pqxdh_init = none;
  created_at = now;
  received_ok = some true;
}

unfoldable pub create_inbound_session : Sessions → String → Bytes → ℕ → Sessions
unfolding inbound_row
create_inbound_session t peer_id state now = Table.put t peer_id (inbound_row peer_id state now)

-- A session created for a peer is loaded with the state it was created from, no stash to send and the
-- mark that it has received; every other peer's session is what it was.
pub load_session-create_inbound_session :
    (t : Sessions) (peer_id j : String) (state : Bytes) (now : ℕ)
    → IsBytes state
    → load_session (create_inbound_session t peer_id state now) j ≡ (
        if peer_id == j
        then some (record { ratchet_state = state; pqxdh_init = none; received_ok = true })
        else load_session t j)
unfolding load_session create_inbound_session
load_session-create_inbound_session t peer_id j state now h =
    ground (arith, get-put t peer_id (inbound_row peer_id state now) j, from_hex-to_hex state h)
